-- ===== src/Supervisor/Requests/Safety.antt =====
-- The handlers of src/supervisor/cmd_processor.c do not touch memory that is not the program's, and
-- leave the invariant.
use edgesec.Common.{
  ℕ, ◌<◌, ◌≤◌, ◌≡◌, refl, inl, inr, true, false, Option, none, some, List, [], ◌∷◌, length, CString,
  codes, Mac, mac_eq, mac_eq_iff, All, arith, ltb, ◌==◌, Bool-cases, Option-cases, str_eq, subst,
}
use edgesec.Utils.Net.{hwaddr_aton2, os_inet_addrstrlen}
use edgesec.Utils.Strings.{rtrim, split_string_array}
use edgesec.Supervisor.MacMapper.{MacConn, MacConnInfo, hash_find, get_mac_mapper}
use edgesec.Supervisor.MacMapper.Laws.{get_mac_mapper-found, get_mac_mapper-missing}
use edgesec.Supervisor.Context.{Env, Context, M, ClientAddress}
use edgesec.Supervisor.Context.Post.{Keeps, bind-Keeps, IgnoresTrace}
use edgesec.Supervisor.Context.Leads.{Leads, get-Leads, Keeps-Leads}
use edgesec.Supervisor.Save.Keeps.{Inv, Inv-trace}
use edgesec.Supervisor.Network.Bridges.{Allocates, clear_bridges_cmd-Inv, list_devices-Inv}
use edgesec.Supervisor.Network.Tickets.{IssuesTickets}
use edgesec.Supervisor.Network.Keeps.{
  deny_mac_cmd-Inv, add_nat_cmd-Inv, remove_nat_cmd-Inv, clear_psk_cmd-Inv,
}
use edgesec.Supervisor.Texts.{device_line, line_max}
use edgesec.Supervisor.Requests.{c_string, cmd_delimiter, first_command, commands}
use edgesec.Supervisor.Replies.{with_mac, Handler}
use edgesec.Supervisor.Processor.{
  process_deny_mac_cmd, process_add_nat_cmd, process_remove_nat_cmd, process_clear_bridges_cmd,
  process_clear_psk_cmd, write_line, map_answer, process_get_map_cmd, process_get_all_cmd,
}
use edgesec.Supervisor.Processor.Answers.{reply-Inv, on_mac-Inv}
use edgesec.Supervisor.Processor.Keeps

-- The lines that GET_MAP prints fit the array that they are printed to.
abbrev pub LinesFit : Context → Type 0
LinesFit c = All (λ s. length (device_line s.mac_addr s.info) ≤ line_max) c.mac_mapper

line_fits :
    (mac : Mac) (info : MacConnInfo) (table : List MacConn)
    → All (λ s. length (device_line s.mac_addr s.info) ≤ line_max) table
    → hash_find mac table ≡ some info
    → length (device_line mac info) ≤ line_max
unfolding hash_find
line_fits mac info [] h e = cc
line_fits mac info (s ∷ table) h e = elim (Bool-cases (mac_eq s.mac_addr mac)) [
  | inl same ↦ here ((mac_eq_iff s.mac_addr mac).0 same) (ground arith)
  | inr other ↦ line_fits mac info table h.1 (ground arith)
]
  where
    here : s.mac_addr ≡ mac → s.info ≡ info → length (device_line mac info) ≤ line_max
    here p q =
        subst (λ m. length (device_line m info) ≤ line_max) p
          (subst (λ i. length (device_line s.mac_addr i) ≤ line_max) q h.0)

-- The words fit an array for an IP address.
abbrev pub ShortWords : List CString → Type 0
ShortWords words = All (λ w. length w < os_inet_addrstrlen) words

-- The words of a request.
abbrev pub words_of : List ℕ → List CString
words_of received = split_string_array (rtrim (c_string received)) cmd_delimiter

-- The name of the command.
abbrev pub first_word : List CString → CString
first_word [] = []
first_word (w ∷ ws) = w

abbrev pub get_map : CString
get_map = codes "GET_MAP"

-- What a command starts from: GET_MAP needs the lines to fit.
abbrev pub Ready : CString → Context → Type 0
Ready cmd c = Inv c × (str_eq cmd get_map ≡ true → LinesFit c)

pub Ready-trace : (cmd : CString) → IgnoresTrace (Ready cmd)
Ready-trace cmd c k p = (Inv-trace c k p.0, p.1)

infixr 4 ◌and◌
◌and◌ : {A B : Type 0} → A → B → A × B
a and b = (a, b)

module _ (env : Env) (addr : ClientAddress) where
  write_line-Inv : (line : CString) → length line ≤ line_max → Keeps Inv (write_line env addr line)
  unfolding write_line
  write_line-Inv line h = elim (Bool-cases (ltb (length line) line_max)) [
    | inl fits ↦ rw (write_line, fits) (reply-Inv env addr line)
    | inr rest ↦ rw (write_line, rest, full rest) (reply-Inv env addr _)
  ]
    where
      full : ltb (length line) line_max ≡ false → (length line == line_max) ≡ true
      full rest = ground arith

  map_case :
      (mac : Mac) (c : Context) (o : Option MacConnInfo)
      → LinesFit c
      → hash_find mac c.mac_mapper ≡ o
      → Keeps Inv (map_answer env addr mac (get_mac_mapper (some c.mac_mapper) (some mac) true))
  unfolding map_answer
  map_case mac c none r e = rw (get_mac_mapper-missing mac c.mac_mapper e) (reply-Inv env addr _)
  map_case mac c (some info) r e =
      rw (get_mac_mapper-found mac c.mac_mapper info e)
        (write_line-Inv _ (line_fits mac info c.mac_mapper r e))

  module _ (cmd : CString) where
    -- A handler does not fault on short words, and leaves the invariant.
    pub record Safe (h : Handler) : Type 0 where
      pub leads : (args : List CString) → ShortWords args → Leads (Ready cmd) Inv (h env addr args)

    Keeps-Safe : (h : Handler) → ((args : List CString) → Keeps Inv (h env addr args)) → Safe h
    Keeps-Safe h k = record { leads = λ args s. Keeps-Leads (λ c r. r.0) (k args) }

    short-Safe :
        (h : Handler)
        → ((args : List CString) → ShortWords args → Keeps Inv (h env addr args))
        → Safe h
    short-Safe h k = record { leads = λ args s. Keeps-Leads (λ c r. r.0) (k args s) }

    unfoldable pub AllSafe : List (CString × Handler) → Type 0
    AllSafe [] = Unit {0}
    AllSafe ((name, h) ∷ rest) = (str_eq cmd name ≡ true → Safe h) × AllSafe rest

    pub first_command-Safe :
        (table : List (CString × Handler)) (h : Handler)
        → AllSafe table
        → first_command cmd table ≡ some h
        → Safe h
    unfolding first_command AllSafe
    first_command-Safe [] h s e = cc
    first_command-Safe ((name, g) ∷ rest) h s e = elim (Bool-cases (str_eq cmd name)) [
      | inl same ↦ subst Safe (taken same) (s.0 same)
      | inr other ↦ first_command-Safe rest h s.1 (ground arith)
    ]
      where
        taken : str_eq cmd name ≡ true → g ≡ h
        taken same = ground arith

    with_mac-Leads :
        (text : CString) {f : Mac → M (Unit {0})}
        → ((mac : Mac) → Leads (Ready cmd) Inv (f mac))
        → Leads (Ready cmd) Inv (with_mac env addr text f)
    unfolding with_mac
    with_mac-Leads text k = elim (Option-cases (hwaddr_aton2 text)) [
      | inl e ↦ rw (with_mac, e) (Keeps-Leads (λ c r. r.0) (reply-Inv env addr _))
      | inr ((mac, used), e) ↦ rw (with_mac, e) (k mac)
    ]

    process_get_map_cmd-Leads :
        str_eq cmd get_map ≡ true
        → (args : List CString) → Leads (Ready cmd) Inv (process_get_map_cmd env addr args)
    unfolding process_get_map_cmd
    process_get_map_cmd-Leads e [] = Keeps-Leads (λ c r. r.0) (reply-Inv env addr _)
    process_get_map_cmd-Leads e (name ∷ []) = Keeps-Leads (λ c r. r.0) (reply-Inv env addr _)
    process_get_map_cmd-Leads e (name ∷ text ∷ more) = with_mac-Leads text λ mac.
        get-Leads _ λ c r. (map_case mac c (hash_find mac c.mac_mapper) (r.1 e) refl).post c r.0

  module _ (cmd : CString) (a : Allocates env) (i : IssuesTickets env) where
    process_get_all_cmd-Inv : (args : List CString) → Keeps Inv (process_get_all_cmd env addr args)
    unfolding process_get_all_cmd
    process_get_all_cmd-Inv args =
        bind-Keeps (list_devices-Inv env a) λ els. Keeps.all_answer-Inv env addr els

    pub commands-AllSafe : AllSafe cmd commands
    unfolding AllSafe ◌and◌ process_deny_mac_cmd process_add_nat_cmd process_remove_nat_cmd
        process_clear_bridges_cmd process_clear_psk_cmd
    commands-AllSafe =
        (λ e. Keeps-Safe cmd _ (Keeps.process_ping_cmd-Inv env addr))
        and (λ e. Keeps-Safe cmd _ (Keeps.process_subscribe_events_cmd-Inv env addr))
        and (λ e. Keeps-Safe cmd _ (Keeps.process_accept_mac_cmd-Inv env addr))
        and (λ e. Keeps-Safe cmd _ (on_mac-Inv env addr (deny_mac_cmd-Inv env)))
        and (λ e. Keeps-Safe cmd _ (on_mac-Inv env addr (add_nat_cmd-Inv env)))
        and (λ e. Keeps-Safe cmd _ (on_mac-Inv env addr (remove_nat_cmd-Inv env)))
        and (λ e. Keeps-Safe cmd _ (Keeps.process_assign_psk_cmd-Inv env addr))
        and (λ e. record { leads = λ args s. process_get_map_cmd-Leads cmd e args })
        and (λ e. Keeps-Safe cmd _ process_get_all_cmd-Inv)
        and (λ e. short-Safe cmd _ (Keeps.process_set_ip_cmd-Inv env addr))
        and (λ e. short-Safe cmd _ (Keeps.process_add_bridge_cmd-Inv env addr))
        and (λ e. Keeps-Safe cmd _ (Keeps.process_remove_bridge_cmd-Inv env addr))
        and (λ e. Keeps-Safe cmd _ (on_mac-Inv env addr (clear_bridges_cmd-Inv env a)))
        and (λ e. Keeps-Safe cmd _ (Keeps.process_get_bridges_cmd-Inv env addr))
        and (λ e. Keeps-Safe cmd _ (Keeps.process_register_ticket_cmd-Inv env addr i))
        and (λ e. Keeps-Safe cmd _ (on_mac-Inv env addr (clear_psk_cmd-Inv env)))
        and tt
