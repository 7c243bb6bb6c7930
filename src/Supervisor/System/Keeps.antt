-- ===== src/Supervisor/System/Keeps.antt =====
-- The commands of src/supervisor/system_commands.c keep the invariant and do not fault.
use edgesec.Common.{
  ◌<◌, ◌≡◌, refl, Bool, true, false, Option, none, some, List, [], ◌∷◌, CString, length,
  length-os_strlcpy, Mac, Find, if◌then◌else◌, is_some, arith,
}
use edgesec.Utils.Net.{os_inet_addrstrlen}
use edgesec.Supervisor.MacMapper.{MacConnInfo}
use edgesec.Supervisor.Context.{
  Context, Env, M, Event, DhcpIpType, ClientAddress, fail, crash, modify,
}
use edgesec.Supervisor.MacMapper.{ApConnectionStatus}
use edgesec.Supervisor.Context.Post.{
  succeeds?-Keeps, Keeps, bind-Keeps, then-Keeps, get-Keeps, pure-Keeps, fail-Keeps, modify-Keeps,
  if-Keeps, call-Keeps, bind-KeepsWith,
}
use edgesec.Supervisor.Save.{add_bridge_ip, delete_bridge_ip}
use edgesec.Supervisor.Save.Keeps.{
  Inv, Inv-trace, FitsInfo, must-Inv, ifname_of-Inv, known_info-Inv, save_mac_mapper-Inv,
  add_nat_ip-Inv, remove_nat_ip-Inv, add_bridge_ip-Inv, delete_bridge_ip-Inv,
  get_mac_mapper-FitsInfo,
}
use edgesec.Supervisor.Subscribers.{
  add_subscriber, write_each, send_to, send_events_subscriber, add_events_subscriber,
}
use edgesec.Supervisor.System.{
  save_status, ap_service_callback, IpChange, new_ip, del_ip, ip_change, is_add, peer_rules,
  each_peer, change_bridges, change_nat, apply_change, set_ip_cmd,
}

subscribe :
    (env : Env) (addr : ClientAddress) (o : Option (List ClientAddress))
    → is_some o ≡ true
    → Keeps {A = Unit {0}} Inv (elim o [
      | none ↦ crash
      | some ps ↦ modify (λ d. record d { subscribers_array = some (add_subscriber env addr ps) })
    ])
subscribe env addr none h = cc
subscribe env addr (some ps) h = modify-Keeps _ λ c v. record {
  distinct = v.distinct;
  fits = v.fits;
  bridges = v.bridges;
  ticket_ok = v.ticket_ok;
  configured = v.configured;
  pass_fits = v.pass_fits;
  subscribed = refl;
}

pub add_events_subscriber-Inv :
    (env : Env) (addr : ClientAddress) → Keeps Inv (add_events_subscriber env addr)
unfolding add_events_subscriber
add_events_subscriber-Inv env addr =
    get-Keeps _ λ c v. (subscribe env addr c.subscribers_array v.subscribed).post c v

-- The information that the change goes on with fits.
abbrev FitsChange : IpChange → Type 0
FitsChange IpChange.nothing_to_do = Unit {0}
FitsChange IpChange.refused = Unit {0}
FitsChange (IpChange.change info primary) = FitsInfo info

new_ip-Fits : (info : MacConnInfo) (ip : CString) → FitsInfo info → FitsChange (new_ip info ip)
unfolding new_ip
new_ip-Fits info ip f = ground (arith, length-os_strlcpy ip os_inet_addrstrlen)

del_ip-Fits : (info : MacConnInfo) (ip : CString) → FitsInfo info → FitsChange (del_ip info ip)
unfolding del_ip
del_ip-Fits info ip f = ground arith

ip_change-Fits :
    (info : MacConnInfo) (ip : CString) (type : DhcpIpType)
    → FitsInfo info
    → FitsChange (ip_change info ip type)
unfolding ip_change
ip_change-Fits info ip DhcpIpType.dhcp_ip_none f = tt
ip_change-Fits info ip DhcpIpType.dhcp_ip_new f = new_ip-Fits info ip f
ip_change-Fits info ip DhcpIpType.dhcp_ip_old f = new_ip-Fits info ip f
ip_change-Fits info ip DhcpIpType.dhcp_ip_del f = del_ip-Fits info ip f
ip_change-Fits info ip DhcpIpType.dhcp_ip_arp f = tt

module _ (env : Env) where
  write_each-Inv : (ev : Event) (ps : List ClientAddress) → Keeps Inv (write_each env ev ps)
  unfolding write_each
  write_each-Inv ev [] = pure-Keeps tt
  write_each-Inv ev (p ∷ ps) = bind-Keeps (call-Keeps Inv-trace env _) λ _. write_each-Inv ev ps

  send_to-Inv : (ev : Event) (ps : Option (List ClientAddress)) → Keeps Inv (send_to env ev ps)
  unfolding send_to
  send_to-Inv ev none = pure-Keeps tt
  send_to-Inv ev (some ps) = then-Keeps (must-Inv env _) (write_each-Inv ev ps)

  pub send_events_subscriber-Inv : (ev : Event) → Keeps Inv (send_events_subscriber env ev)
  unfolding send_events_subscriber
  send_events_subscriber-Inv ev = get-Keeps _ λ c v. (send_to-Inv ev c.subscribers_array).post c v

  change_nat-Inv :
      (add nat : Bool) (ip : CString)
      → length ip < os_inet_addrstrlen
      → Keeps Inv (change_nat env add nat ip)
  unfolding change_nat
  change_nat-Inv add nat ip h =
      if-Keeps _ (add_nat_ip-Inv env ip h) (if-Keeps _ (remove_nat_ip-Inv env ip h) (pure-Keeps tt))

  module _ (rule : CString → CString → M (Unit {0}))
      (k : (l r : CString)
        → length l < os_inet_addrstrlen
        → length r < os_inet_addrstrlen
        → Keeps Inv (rule l r))
      (ip : CString) (h : length ip < os_inet_addrstrlen) where
    peer_rules-Inv :
        (f : Find MacConnInfo)
        → ((info : MacConnInfo) → f ≡ Find.found info → FitsInfo info)
        → Keeps Inv (peer_rules rule ip f)
    unfolding peer_rules
    peer_rules-Inv Find.bad_param g = pure-Keeps tt
    peer_rules-Inv Find.missing g = pure-Keeps tt
    peer_rules-Inv (Find.found right) g =
        then-Keeps (k ip right.ip_addr h (g right refl).0)
          (k ip right.ip_sec_addr h (g right refl).1)

    each_peer-Inv : (ps : List Mac) → Keeps Inv (each_peer rule ip ps)
    unfolding each_peer
    each_peer-Inv [] = pure-Keeps tt
    each_peer-Inv (p ∷ ps) = get-Keeps _ λ c v.
        (then-Keeps (peer_rules-Inv _ (get_mac_mapper-FitsInfo c p v)) (each_peer-Inv ps)).post c v

    peers_case :
        (o : Option (List Mac))
        → Keeps {A = Unit {0}} Inv (elim o [ none ↦ fail | some ps ↦ each_peer rule ip ps ])
    peers_case none = fail-Keeps
    peers_case (some ps) = each_peer-Inv ps

    change_bridges-Inv : (mac : Mac) → Keeps Inv (change_bridges rule mac ip)
    unfolding change_bridges
    change_bridges-Inv mac = get-Keeps _ λ c v. (peers_case _).post c v

  chosen_rule-Inv :
      (b : Bool) (l r : CString)
      → length l < os_inet_addrstrlen
      → length r < os_inet_addrstrlen
      → Keeps Inv ((if b then add_bridge_ip env else delete_bridge_ip env) l r)
  chosen_rule-Inv true l r h k = add_bridge_ip-Inv env l r h k
  chosen_rule-Inv false l r h k = delete_bridge_ip-Inv env l r h k

  apply_change-Inv :
      (mac : Mac) (ip : CString) (type : DhcpIpType) (ifname : CString) (ch : IpChange)
      → length ip < os_inet_addrstrlen
      → FitsChange ch
      → Keeps Inv (apply_change env mac ip type ifname ch)
  unfolding apply_change
  apply_change-Inv mac ip type ifname IpChange.nothing_to_do h f = pure-Keeps tt
  apply_change-Inv mac ip type ifname IpChange.refused h f = fail-Keeps
  apply_change-Inv mac ip type ifname (IpChange.change info primary) h f =
      then-Keeps (save_mac_mapper-Inv env _ f) (
        then-Keeps (if-Keeps (is_add type) (send_events_subscriber-Inv _) (pure-Keeps tt)) (
          then-Keeps (change_nat-Inv (is_add type) info.nat ip h)
            (change_bridges-Inv _ (chosen_rule-Inv (is_add type)) ip h mac)))

  pub set_ip_cmd-Inv :
      (mac : Mac) (ip : CString) (type : DhcpIpType)
      → length ip < os_inet_addrstrlen
      → Keeps Inv (set_ip_cmd env mac ip type)
  unfolding set_ip_cmd
  set_ip_cmd-Inv mac ip type h = bind-Keeps (ifname_of-Inv env ip) λ ifname.
      bind-KeepsWith (known_info-Inv mac) λ info f.
        apply_change-Inv mac ip type ifname (ip_change info ip type) h
          (ip_change-Fits info ip type f)

  save_status-Inv :
      (c : Context) (mac : Mac) (status : ApConnectionStatus) (f : Find MacConnInfo)
      → ((info : MacConnInfo) → f ≡ Find.found info → FitsInfo info)
      → Keeps Inv (save_status env mac status f)
  unfolding save_status
  save_status-Inv c mac status Find.bad_param g = pure-Keeps true
  save_status-Inv c mac status Find.missing g = pure-Keeps true
  save_status-Inv c mac status (Find.found info) g =
      succeeds?-Keeps (save_mac_mapper-Inv env _ (g info refl))

  pub ap_service_callback-Inv :
      (mac : Mac) (status : ApConnectionStatus) → Keeps Inv (ap_service_callback env mac status)
  unfolding ap_service_callback
  ap_service_callback-Inv mac status = get-Keeps _ λ c v.
      (bind-Keeps (save_status-Inv c mac status _ (get_mac_mapper-FitsInfo c mac v))
          λ _. succeeds?-Keeps (send_events_subscriber-Inv _)).post
        c v
