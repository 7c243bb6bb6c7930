-- ===== src/Supervisor/Network/Keeps.antt =====
-- The commands of src/supervisor/network_commands.c keep the invariant and do not fault.
use edgesec.Common.{◌≡◌, ◌≤◌, ltb, false, List, CString, Mac, ℤ, ℕ, Find, arith}
use edgesec.Utils.IfaceMapper.{VlanConn}
use edgesec.Supervisor.MacMapper.{ap_secret_len}
use edgesec.Supervisor.Context.{Env, TicketPtr, pure, fail}
use edgesec.Supervisor.Context.Post.{
  Keeps, bind-Keeps, then-Keeps, get-Keeps, pure-Keeps, fail-Keeps, modify-Keeps, if-Keeps,
  call-Keeps, bind-KeepsWith,
}
use edgesec.Supervisor.Save.Keeps.{
  Inv, Inv-trace, TicketOk, must-Inv, save_mac_mapper-Inv, known_info-Inv, info_or_default-Inv,
  add_nat_ip-Inv, remove_nat_ip-Inv,
}
use edgesec.Supervisor.Network.{
  free_ticket, free_ticket_at, vlan_or_fail, disconnect_station, accept_mac_cmd, deny_mac_cmd,
  add_nat_cmd, remove_nat_cmd, assign_psk_cmd, clear_psk_cmd,
}

free_ticket_at-Inv : (t : TicketPtr) → TicketOk t → Keeps Inv (free_ticket_at t)
unfolding free_ticket_at
free_ticket_at-Inv TicketPtr.null h = pure-Keeps tt
free_ticket_at-Inv (TicketPtr.live t) h = modify-Keeps _ λ c v. record {
  distinct = v.distinct;
  fits = v.fits;
  bridges = v.bridges;
  ticket_ok = tt;
  configured = v.configured;
  pass_fits = v.pass_fits;
  subscribed = v.subscribed;
}
free_ticket_at-Inv TicketPtr.dangling h = absurd h

pub free_ticket-Inv : Keeps Inv free_ticket
unfolding free_ticket
free_ticket-Inv = get-Keeps _ λ c v. (free_ticket_at-Inv c.ticket v.ticket_ok).post c v

vlan_case :
    (r : Find VlanConn)
    → Keeps {A = VlanConn} Inv (elim r [ Find.found vlan ↦ pure vlan | _ ↦ fail ])
vlan_case Find.bad_param = fail-Keeps
vlan_case Find.missing = fail-Keeps
vlan_case (Find.found vlan) = pure-Keeps vlan

vlan_or_fail-Inv : (vlanid : ℤ) → Keeps Inv (vlan_or_fail vlanid)
unfolding vlan_or_fail
vlan_or_fail-Inv vlanid = get-Keeps _ λ c v. (vlan_case _).post c v

module _ (env : Env) where
  disconnect_station-Inv : (text : CString) → Keeps Inv (disconnect_station env text)
  unfolding disconnect_station
  disconnect_station-Inv text =
      bind-Keeps (call-Keeps Inv-trace env _)
        λ known. if-Keeps known (must-Inv env _) (pure-Keeps tt)

  pub accept_mac_cmd-Inv : (mac : Mac) (vlanid : ℤ) → Keeps Inv (accept_mac_cmd env mac vlanid)
  unfolding accept_mac_cmd
  accept_mac_cmd-Inv mac vlanid = bind-KeepsWith (known_info-Inv mac) λ info f.
      bind-Keeps (vlan_or_fail-Inv vlanid) λ vlan.
        then-Keeps (save_mac_mapper-Inv env _ f)
          (then-Keeps (must-Inv env _) (disconnect_station-Inv _))

  pub deny_mac_cmd-Inv : (mac : Mac) → Keeps Inv (deny_mac_cmd env mac)
  unfolding deny_mac_cmd
  deny_mac_cmd-Inv mac =
      bind-KeepsWith (info_or_default-Inv mac)
        λ info f. then-Keeps (save_mac_mapper-Inv env _ f) (must-Inv env _)

  pub add_nat_cmd-Inv : (mac : Mac) → Keeps Inv (add_nat_cmd env mac)
  unfolding add_nat_cmd
  add_nat_cmd-Inv mac = bind-KeepsWith (known_info-Inv mac) λ info f.
      then-Keeps (add_nat_ip-Inv env info.ip_addr f.0)
        (then-Keeps (add_nat_ip-Inv env info.ip_sec_addr f.1) (save_mac_mapper-Inv env _ f))

  pub remove_nat_cmd-Inv : (mac : Mac) → Keeps Inv (remove_nat_cmd env mac)
  unfolding remove_nat_cmd
  remove_nat_cmd-Inv mac = bind-KeepsWith (known_info-Inv mac) λ info f.
      then-Keeps (remove_nat_ip-Inv env info.ip_addr f.0)
        (then-Keeps (remove_nat_ip-Inv env info.ip_sec_addr f.1) (save_mac_mapper-Inv env _ f))

  pub assign_psk_cmd-Inv :
      (mac : Mac) (pass : List ℕ) (pass_len : ℕ)
      → pass_len ≤ ap_secret_len
      → Keeps Inv (assign_psk_cmd env mac pass pass_len)
  unfolding assign_psk_cmd
  assign_psk_cmd-Inv mac pass pass_len h =
      rw fits (bind-KeepsWith (info_or_default-Inv mac) λ info f. save_mac_mapper-Inv env _ f)
    where
      fits : ltb ap_secret_len pass_len ≡ false
      fits = ground arith

  pub clear_psk_cmd-Inv : (mac : Mac) → Keeps Inv (clear_psk_cmd env mac)
  unfolding clear_psk_cmd
  clear_psk_cmd-Inv mac =
      bind-KeepsWith (info_or_default-Inv mac) λ info f. save_mac_mapper-Inv env _ f
