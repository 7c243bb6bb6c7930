-- ===== src/Supervisor/Network/Tickets.antt =====
-- register_ticket_cmd of src/supervisor/network_commands.c keeps the invariant and does not fault.
use edgesec.Common.{
  ◌≡◌, ◌<◌, leb, true, false, List, CString, length, Mac, ℤ, ℕ, if◌then◌else◌, arith,
}
use edgesec.Supervisor.Context.{Env, Call, TicketPtr, fail, crash, call}
use edgesec.Supervisor.Context.Post.{
  Keeps, KeepsWith, bind-Keeps, then-Keeps, get-Keeps, pure-Keeps, fail-Keeps, modify-Keeps,
  unless_fail-Keeps, call-Keeps, bind-KeepsWith,
}
use edgesec.Supervisor.Save.Keeps.{Inv, Inv-trace}
use edgesec.Supervisor.Network.{register_ticket, register_ticket_cmd, max_device_label_size}

-- Random bytes and a timer can be had.
abbrev pub IssuesTickets : Env → Type 0
IssuesTickets env =
    ((t : List Call) (n : ℕ) → env.succeeds t (Call.os_get_random n) ≡ true)
    × ((t : List Call) (n : ℕ) → env.succeeds t (Call.edge_eloop_register_timeout n) ≡ true)

call_ok :
    (env : Env) (k : Call)
    → ((t : List Call) → env.succeeds t k ≡ true)
    → KeepsWith (λ ok. ok ≡ true) Inv (call env k)
unfolding call
call_ok env k h = record { post = λ c v. (h c.trace, Inv-trace c k v) }

module _ (env : Env) (i : IssuesTickets env) where
  register_ticket-Inv :
      (label : CString) (vlanid : ℤ) → Keeps Inv (register_ticket env label vlanid)
  unfolding register_ticket
  register_ticket-Inv label vlanid = bind-Keeps (call-Keeps Inv-trace env _) λ alloc_ok.
      then-Keeps (unless_fail-Keeps alloc_ok) (
        get-Keeps _ λ c v.
          (bind-KeepsWith (call_ok env _ (λ t. i.0 t _)) λ random_ok h. rw h (
              bind-KeepsWith (call_ok env _ (λ t. i.1 t _)) λ timer_ok k. rw k (
                then-Keeps
                  (modify-Keeps _ λ d w. record {
                    distinct = w.distinct;
                    fits = w.fits;
                    bridges = w.bridges;
                    ticket_ok = omega arith;
                    configured = w.configured;
                    pass_fits = w.pass_fits;
                    subscribed = w.subscribed;
                  })
                  (pure-Keeps _)))).post
            c v)

  ticket_case :
      (label : CString) (vlanid : ℤ) (t : TicketPtr)
      → length label < max_device_label_size
      → Keeps {A = CString} Inv (elim t [
        | TicketPtr.null ↦
            if leb max_device_label_size (length label)
            then crash
            else register_ticket env label vlanid
        | _ ↦ fail
      ])
  ticket_case label vlanid TicketPtr.null h = rw short (register_ticket-Inv label vlanid)
    where
      short : leb max_device_label_size (length label) ≡ false
      short = ground arith
  ticket_case label vlanid (TicketPtr.live t) h = fail-Keeps
  ticket_case label vlanid TicketPtr.dangling h = fail-Keeps

  pub register_ticket_cmd-Inv :
      (mac : Mac) (label : CString) (vlanid : ℤ)
      → length label < max_device_label_size
      → Keeps Inv (register_ticket_cmd env mac label vlanid)
  unfolding register_ticket_cmd
  register_ticket_cmd-Inv mac label vlanid h =
      get-Keeps _ λ c v. (ticket_case label vlanid c.ticket h).post c v
