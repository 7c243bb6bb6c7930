-- ===== src/Supervisor/Save/Keeps.antt =====
-- The invariant of the supervisor's state, and that the shared parts keep it.
use edgesec.Common.{
  ◌<◌, ◌≤◌, ◌≡◌, refl, inl, inr, Bool, List, Bool-cases, Option-cases, mac_eq, true, some, is_some,
  [], ◌∷◌, length, CString, Mac, All, Find, arith,
}
use edgesec.Utils.Net.{os_inet_addrstrlen}
use edgesec.Supervisor.BridgeList.Shape.{Valid}
use edgesec.Supervisor.MacMapper.{
  MacConn, MacConnInfo, ap_secret_len, hash_find, get_mac_mapper, init_default_mac_info,
}
use edgesec.Supervisor.MacMapper.Laws.{Distinct, put_mac_mapper-Distinct, put_mac_mapper-All}
use edgesec.Supervisor.MacMapper.Lookup.{FitsIps}
use edgesec.Supervisor.Context.{Context, Env, Call, TicketPtr, pure, fail, call, must, alloc_if}
use edgesec.Supervisor.Context.Post.{
  Keeps, KeepsWith, pure-KeepsWith, fail-KeepsWith, get-KeepsWith, bind-KeepsWith, bind-ending,
  IgnoresTrace, bind-Keeps, then-Keeps, get-Keeps, modify-Keeps, unless_fail-Keeps, call-Keeps,
  must-Keeps, alloc_if-Keeps,
}
use edgesec.Supervisor.Save.{
  fresh_id, with_id, put_conn, save_mac_mapper, known_info, info_or_default, default_info,
  ifname_of, is_ipv4, add_nat_ip, remove_nat_ip, add_bridge_ip, delete_bridge_ip,
}
use edgesec.Supervisor.Save.Rules.{
  ifname_of-Keeps, is_ipv4-Keeps, add_nat_ip-Keeps, remove_nat_ip-Keeps, add_bridge_ip-Keeps,
  delete_bridge_ip-Keeps,
}

-- The ticket is not a pointer to freed memory, and its passphrase fits the array of a device.
abbrev pub TicketOk : TicketPtr → Type 0
TicketOk TicketPtr.null = Unit {0}
TicketOk (TicketPtr.live t) = t.passphrase_len ≤ ap_secret_len
TicketOk TicketPtr.dangling = ⊥

-- The addresses of the devices are distinct, the texts fit their arrays, the bridges are well
-- formed, the ticket is NULL or live, the passwords fit, and the arrays of the interfaces and of the
-- subscribers are there.
pub record Inv (c : Context) : Type 0 where
  pub distinct : Distinct c.mac_mapper
  pub fits : All FitsIps c.mac_mapper
  pub bridges : Valid c.bridge_list
  pub ticket_ok : TicketOk c.ticket
  pub configured : is_some c.config_ifinfo_array ≡ true
  pub pass_fits : c.wpa_passphrase_len ≤ ap_secret_len
  pub subscribed : is_some c.subscribers_array ≡ true

pub Inv-trace : IgnoresTrace Inv
Inv-trace c k v = record {
  distinct = v.distinct;
  fits = v.fits;
  bridges = v.bridges;
  ticket_ok = v.ticket_ok;
  configured = v.configured;
  pass_fits = v.pass_fits;
  subscribed = v.subscribed;
}

-- The texts of this information fit.
abbrev pub FitsInfo : MacConnInfo → Type 0
FitsInfo info =
    (length info.ip_addr < os_inet_addrstrlen) × (length info.ip_sec_addr < os_inet_addrstrlen)

module _ (env : Env) where
  call-Inv : (k : Call) → Keeps Inv (call env k)
  call-Inv = call-Keeps Inv-trace env

  pub must-Inv : (k : Call) → Keeps Inv (must env k)
  must-Inv = must-Keeps Inv-trace env

  alloc_if-Inv : (b : Bool) → Keeps Inv (alloc_if env b)
  alloc_if-Inv = alloc_if-Keeps Inv-trace env

  put_conn-Inv : (conn : MacConn) → FitsIps conn → Keeps Inv (put_conn env conn)
  unfolding put_conn
  put_conn-Inv conn f = get-Keeps _ λ c v.
      (bind-Keeps (alloc_if-Inv _) λ ok.
          then-Keeps
            (modify-Keeps _ λ d w. record {
              distinct = put_mac_mapper-Distinct ok c.mac_mapper conn v.distinct;
              fits = put_mac_mapper-All FitsIps ok c.mac_mapper conn f v.fits;
              bridges = w.bridges;
              ticket_ok = w.ticket_ok;
              configured = w.configured;
              pass_fits = w.pass_fits;
              subscribed = w.subscribed;
            })
            (unless_fail-Keeps _)).post
        c v

  pub ifname_of-Inv : (ip : CString) → Keeps Inv (ifname_of env ip)
  ifname_of-Inv = ifname_of-Keeps Inv-trace env

  pub is_ipv4-Inv : (ip : CString) → length ip < os_inet_addrstrlen → Keeps Inv (is_ipv4 env ip)
  is_ipv4-Inv = is_ipv4-Keeps Inv-trace env

  pub add_nat_ip-Inv :
      (ip : CString) → length ip < os_inet_addrstrlen → Keeps Inv (add_nat_ip env ip)
  add_nat_ip-Inv = add_nat_ip-Keeps Inv-trace env

  pub remove_nat_ip-Inv :
      (ip : CString) → length ip < os_inet_addrstrlen → Keeps Inv (remove_nat_ip env ip)
  remove_nat_ip-Inv = remove_nat_ip-Keeps Inv-trace env

  module _ (left right : CString) (h : length left < os_inet_addrstrlen)
      (k : length right < os_inet_addrstrlen) where
    pub add_bridge_ip-Inv : Keeps Inv (add_bridge_ip env left right)
    add_bridge_ip-Inv = add_bridge_ip-Keeps Inv-trace env left right h k

    pub delete_bridge_ip-Inv : Keeps Inv (delete_bridge_ip env left right)
    delete_bridge_ip-Inv = delete_bridge_ip-Keeps Inv-trace env left right h k

hash_find-FitsInfo :
    (mac : Mac) (info : MacConnInfo) (hmap : List MacConn)
    → All FitsIps hmap
    → hash_find mac hmap ≡ some info
    → FitsInfo info
unfolding hash_find
hash_find-FitsInfo mac info [] h e = cc
hash_find-FitsInfo mac info (s ∷ hmap) h e = elim (Bool-cases (mac_eq s.mac_addr mac)) [
  | inl hit ↦ ground (arith, h.0)
  | inr miss ↦ ground (arith, hash_find-FitsInfo mac info hmap h.1)
]

default_info-FitsInfo : (c : Context) → FitsInfo (default_info c)
unfolding init_default_mac_info
default_info-FitsInfo c = (omega arith, omega arith)

-- Information from the table, or the default, fits.
pub get_mac_mapper-Fits :
    (c : Context) (mac : Mac)
    → All FitsIps c.mac_mapper
    → (info : MacConnInfo) → get_mac_mapper (some c.mac_mapper) (some mac) true ≡ Find.found info
    → FitsInfo info
unfolding get_mac_mapper
get_mac_mapper-Fits c mac v info e = elim (Option-cases (hash_find mac c.mac_mapper)) [
  | inl absent ↦ ground arith
  | inr (i, there) ↦ ground (arith, hash_find-FitsInfo mac i c.mac_mapper v there)
]

pub get_mac_mapper-FitsInfo :
    (c : Context) (mac : Mac)
    → Inv c
    → (info : MacConnInfo) → get_mac_mapper (some c.mac_mapper) (some mac) true ≡ Find.found info
    → FitsInfo info
get_mac_mapper-FitsInfo c mac v = get_mac_mapper-Fits c mac v.fits

known_case :
    (c : Context) (r : Find MacConnInfo)
    → ((info : MacConnInfo) → r ≡ Find.found info → FitsInfo info)
    → KeepsWith {A = MacConnInfo} FitsInfo Inv (elim r [
      | Find.bad_param ↦ fail
      | Find.missing ↦ pure (default_info c)
      | Find.found info ↦ pure info
    ])
known_case c Find.bad_param h = fail-KeepsWith
known_case c Find.missing h = pure-KeepsWith (default_info c) (default_info-FitsInfo c)
known_case c (Find.found info) h = pure-KeepsWith info (h info refl)

pub known_info-Inv : (mac : Mac) → KeepsWith FitsInfo Inv (known_info mac)
unfolding known_info
known_info-Inv mac =
    get-KeepsWith _ λ c v. (known_case c _ (get_mac_mapper-FitsInfo c mac v)).post c v

default_case :
    (c : Context) (r : Find MacConnInfo)
    → ((info : MacConnInfo) → r ≡ Find.found info → FitsInfo info)
    → KeepsWith {A = MacConnInfo} FitsInfo Inv
        (elim r [ Find.found info ↦ pure info | _ ↦ pure (default_info c) ])
default_case c Find.bad_param h = pure-KeepsWith (default_info c) (default_info-FitsInfo c)
default_case c Find.missing h = pure-KeepsWith (default_info c) (default_info-FitsInfo c)
default_case c (Find.found info) h = pure-KeepsWith info (h info refl)

pub info_or_default-Inv : (mac : Mac) → KeepsWith FitsInfo Inv (info_or_default mac)
unfolding info_or_default
info_or_default-Inv mac =
    get-KeepsWith _ λ c v. (default_case c _ (get_mac_mapper-FitsInfo c mac v)).post c v

module _ (env : Env) where
  fresh_id-Inv :
      (conn : MacConn) (id : CString) → FitsIps conn → KeepsWith FitsIps Inv (fresh_id env conn id)
  unfolding fresh_id
  fresh_id-Inv conn [] f =
      get-KeepsWith _ λ c v. (bind-ending (call-Inv env _) λ _. pure-KeepsWith _ f).post c v
  fresh_id-Inv conn (x ∷ s) f = pure-KeepsWith conn f

  with_id-Inv : (conn : MacConn) → FitsIps conn → KeepsWith FitsIps Inv (with_id env conn)
  unfolding with_id
  with_id-Inv conn f = fresh_id-Inv conn conn.info.id f

  -- save_mac_mapper keeps the invariant, for an entry whose texts fit.
  pub save_mac_mapper-Inv : (conn : MacConn) → FitsIps conn → Keeps Inv (save_mac_mapper env conn)
  unfolding save_mac_mapper
  save_mac_mapper-Inv conn f = bind-KeepsWith (with_id-Inv conn f) λ saved g.
      then-Keeps (put_conn-Inv env saved g) (then-Keeps (must-Inv env _) (must-Inv env _))
