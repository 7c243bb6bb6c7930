-- ===== src/Supervisor/Access/Ticket.antt =====
-- What a ticket is good for: get_mac_conn_cmd of src/supervisor/supervisor.c.
use edgesec.Common.{
  ◌≡◌, ◌≤◌, ltb, arith, refl, ◌⊎◌, true, false, none, some, List, Mac, ℤ, minus_one, Find, memcpy,
  replicate,
}
use edgesec.Utils.IfaceMapper.{ConfigIfinfo}
use edgesec.Supervisor.MacMapper.{
  MacConn, MacConnInfo, hash_find, get_mac_mapper, init_default_mac_info, ap_secret_len,
}
use edgesec.Supervisor.MacMapper.Laws.{get_mac_mapper-missing}
use edgesec.Supervisor.Context.{Context, Env, Run, AuthTicket, TicketPtr, modify, pure, ◌>>◌}
use edgesec.Supervisor.Context.Post.{IgnoresTrace}
use edgesec.Supervisor.Context.Triple.{
  Triple, Outcome, bind-Triple, then-Triple, get-Triple, pure-Triple, premise, returns,
}
use edgesec.Supervisor.Network.{free_ticket, free_ticket_at}
use edgesec.Supervisor.Access.{
  save_and_answer, info_after, copy_pass, from_ticket, assign_device, admit, get_mac_conn_cmd,
}
use edgesec.Supervisor.Access.Denied.{default_vlanid-keeps}
use edgesec.Supervisor.Access.NoTicket.{NoTicket, AnswersWith, save_and_answer-keeps}

-- The state from which a ticket is used.
-- The device with what a ticket gives.
abbrev ticket_info : AuthTicket → MacConnInfo → MacConnInfo
ticket_info t info = record info {
  vlanid = t.vlanid;
  pass_len = t.passphrase_len;
  pass = memcpy info.pass t.passphrase t.passphrase_len;
  label = t.device_label;
}

from_ticket-fits :
    (t : AuthTicket) (info : MacConnInfo)
    → t.passphrase_len ≤ ap_secret_len
    → from_ticket t info ≡ pure (ticket_info t info)
unfolding from_ticket copy_pass
from_ticket-fits t info h = rw fits refl
  where
    fits : ltb ap_secret_len t.passphrase_len ≡ false
    fits = ground arith

abbrev Waiting : List MacConn → AuthTicket → List ConfigIfinfo → Context → Type 0
Waiting table t ps c =
    (c.mac_mapper ≡ table)
    × (c.ticket ≡ TicketPtr.live t)
    × (c.config_ifinfo_array ≡ some ps)
    × (c.allow_all_connections ≡ false)

Waiting-trace :
    (table : List MacConn) (t : AuthTicket) (ps : List ConfigIfinfo)
    → IgnoresTrace (Waiting table t ps)
Waiting-trace table t ps c k p = p

module _ (env : Env) (mac : Mac) (t : AuthTicket) {E : Context → Type 0} where
  free_ticket-live : Triple (λ c. c.ticket ≡ TicketPtr.live t) free_ticket (λ _. NoTicket) E
  unfolding free_ticket free_ticket_at modify
  free_ticket-live = get-Triple _ λ c p. freed c p
    where
      freed :
          (c : Context)
          → c.ticket ≡ TicketPtr.live t
          → Outcome (λ _. NoTicket) E (free_ticket_at c.ticket c)
      freed c p = rw p refl

  assign_device-live :
      (v : ℤ) (c : Context) (info : MacConnInfo) (p : TicketPtr)
      → p ≡ TicketPtr.live t
      → t.passphrase_len ≤ ap_secret_len
      → Triple
          (λ d. d.ticket ≡ TicketPtr.live t)
          (assign_device env mac v c info p)
          (λ a d. AnswersWith (ticket_info t info) a × NoTicket d)
          E
  unfolding assign_device
  assign_device-live v c info TicketPtr.null e fits = cc
  assign_device-live v c info TicketPtr.dangling e fits = cc
  assign_device-live v c info (TicketPtr.live u) e fits =
      rw (same e, from_ticket-fits t info fits)
        (bind-Triple {R = λ a d. (a ≡ ticket_info t info) × (d.ticket ≡ TicketPtr.live t)}
          (pure-Triple (ticket_info t info) (λ d q. (refl, q))) λ a. used a)
    where
      used :
          (a : MacConnInfo)
          → Triple
              (λ d. (a ≡ ticket_info t info) × (d.ticket ≡ TicketPtr.live t))
              (free_ticket >> save_and_answer env mac a)
              (λ b d. AnswersWith (ticket_info t info) b × NoTicket d)
              E
      used a = premise (λ is_a.
          rw is_a
            (then-Triple free_ticket-live λ _. save_and_answer-keeps env mac (ticket_info t info)))

      same : TicketPtr.live u ≡ TicketPtr.live t → u ≡ t
      same e = cc

admit-missing :
    (env : Env) (mac : Mac) (v : ℤ) (c : Context) (info : MacConnInfo)
    → c.allow_all_connections ≡ false
    → admit env mac v c Find.missing info
      ≡ assign_device env mac v c (record info { allow_connection = true }) c.ticket
unfolding admit
admit-missing env mac v c info h = rw h refl

-- What a device that the ticket lets in is answered: the ticket's VLAN or a rejection, the ticket's
-- password and label.
abbrev pub ByTicket : AuthTicket → MacConnInfo → Type 0
ByTicket t a =
    ((a.vlanid ≡ t.vlanid) ⊎ (a.vlanid ≡ minus_one))
    × (a.pass ≡ memcpy (replicate ap_secret_len 0) t.passphrase t.passphrase_len)
    × (a.pass_len ≡ t.passphrase_len)
    × (a.label ≡ t.device_label)

-- In a closed network, with a ticket whose passphrase fits the array of a device, a device that is
-- not known uses up the ticket: get_mac_conn_cmd returns, the ticket is gone, whether or not the
-- device could be saved, and the answer has the ticket's password and label, and the ticket's VLAN
-- unless it is a rejection.
pub get_mac_conn_cmd-uses_ticket :
    (env : Env) (mac : Mac) (c : Context) (t : AuthTicket) (ps : List ConfigIfinfo)
    → hash_find mac c.mac_mapper ≡ none
    → c.ticket ≡ TicketPtr.live t
    → t.passphrase_len ≤ ap_secret_len
    → c.config_ifinfo_array ≡ some ps
    → c.allow_all_connections ≡ false
    → (answer : MacConnInfo) × (d : Context) × (get_mac_conn_cmd env (some mac) c
        ≡ Run.done answer d)
      × (ByTicket t answer × (d.ticket ≡ TicketPtr.null))
unfolding get_mac_conn_cmd init_default_mac_info
get_mac_conn_cmd-uses_ticket env mac c t ps absent ticket fits config closed = returns _ _ (
    (bind-Triple {R = λ _. Waiting c.mac_mapper t ps}
        (default_vlanid-keeps (Waiting-trace c.mac_mapper t ps) env mac ps (λ d q. q.2))
        λ v. get-Triple _ λ d p. used v d p).run
      c (refl, ticket, config, closed))
  where
    used :
        (v : ℤ) (d : Context)
        → Waiting c.mac_mapper t ps d
        → Outcome
            (λ a d'. ByTicket t a × (d'.ticket ≡ TicketPtr.null))
            (λ d'. ⊥)
            (admit env mac v d
              (get_mac_mapper (some d.mac_mapper) (some mac) true)
              (info_after
                (init_default_mac_info v d.allow_all_nat)
                (get_mac_mapper (some d.mac_mapper) (some mac) true))
              d)
    used v d p =
        rw
          (
            get_mac_mapper-missing mac d.mac_mapper (rw p.0 absent),
            admit-missing env mac v d (init_default_mac_info v d.allow_all_nat) p.3,
          )
          ((assign_device-live env mac t v d _ d.ticket p.1 fits).run d p.1)
