-- ===== src/Supervisor/Processor/Keeps.antt =====
-- The handlers of src/supervisor/cmd_processor.c keep the invariant and do not fault.
use edgesec.Common.{
  ◌<◌, inl, inr, Option, none, some, List, [], ◌∷◌, length, CString, Mac, All, arith, leb,
  Bool-cases, Option-cases, length-os_strlcpy,
}
use edgesec.Utils.Net.{hwaddr_aton2, os_inet_addrstrlen}
use edgesec.Supervisor.MacMapper.{MacConn, ap_secret_len}
use edgesec.Supervisor.Context.{Env, ClientAddress, DhcpIpType}
use edgesec.Supervisor.Context.Post.{
  Keeps, bind-Keeps, then-Keeps, get-Keeps, pure-Keeps, if-Keeps, call-Keeps, attempt-Keeps,
}
use edgesec.Supervisor.Save.Keeps.{Inv, Inv-trace, must-Inv}
use edgesec.Supervisor.Network.{max_device_label_size}
use edgesec.Supervisor.Network.Tickets.{IssuesTickets, register_ticket_cmd-Inv}
use edgesec.Supervisor.Network.Keeps.{accept_mac_cmd-Inv, assign_psk_cmd-Inv}
use edgesec.Supervisor.Network.Bridges.{
  add_bridge_mac_cmd-Inv, add_bridge_ip_cmd-Inv, remove_bridge_cmd-Inv,
}
use edgesec.Supervisor.System.Keeps.{add_events_subscriber-Inv, set_ip_cmd-Inv}
use edgesec.Supervisor.System.{subscribe_events_cmd}
use edgesec.Supervisor.Replies.{write_newline_socket_data}
use edgesec.Supervisor.Processor.{
  process_ping_cmd, process_subscribe_events_cmd, process_accept_mac_cmd, process_assign_psk_cmd,
  gather, all_answer, device_lines, set_ip_with, set_ip_case, process_set_ip_cmd, bridge_ips,
  second_ip, first_ip, process_add_bridge_cmd, process_remove_bridge_cmd, bridge_lines,
  bridges_answer, process_get_bridges_cmd, ticket_answer, register, process_register_ticket_cmd,
  read_dhcp_type,
}
use edgesec.Supervisor.Processor.Answers.{
  reply-Inv, answer-Inv, with_mac-Inv, with_vlanid-Inv, second_mac-Inv, is_ipv4-short,
}

module _ (env : Env) (addr : ClientAddress) where
  pub process_ping_cmd-Inv : (args : List CString) → Keeps Inv (process_ping_cmd env addr args)
  unfolding process_ping_cmd
  process_ping_cmd-Inv args =
      bind-Keeps (call-Keeps Inv-trace env _)
        λ ok. if-Keeps ok (reply-Inv env addr _) (reply-Inv env addr _)

  pub process_subscribe_events_cmd-Inv :
      (args : List CString) → Keeps Inv (process_subscribe_events_cmd env addr args)
  unfolding process_subscribe_events_cmd subscribe_events_cmd
  process_subscribe_events_cmd-Inv args = answer-Inv env addr (add_events_subscriber-Inv env addr)

  pub process_accept_mac_cmd-Inv :
      (args : List CString) → Keeps Inv (process_accept_mac_cmd env addr args)
  unfolding process_accept_mac_cmd
  process_accept_mac_cmd-Inv [] = reply-Inv env addr _
  process_accept_mac_cmd-Inv (cmd ∷ []) = reply-Inv env addr _
  process_accept_mac_cmd-Inv (cmd ∷ mac_text ∷ []) = reply-Inv env addr _
  process_accept_mac_cmd-Inv (cmd ∷ mac_text ∷ vlan_text ∷ more) =
      with_mac-Inv env addr mac_text λ mac.
        with_vlanid-Inv env addr vlan_text
          λ vlanid. answer-Inv env addr (accept_mac_cmd-Inv env mac vlanid)

  pub process_assign_psk_cmd-Inv :
      (args : List CString) → Keeps Inv (process_assign_psk_cmd env addr args)
  unfolding process_assign_psk_cmd
  process_assign_psk_cmd-Inv [] = reply-Inv env addr _
  process_assign_psk_cmd-Inv (cmd ∷ []) = reply-Inv env addr _
  process_assign_psk_cmd-Inv (cmd ∷ mac_text ∷ []) = reply-Inv env addr _
  process_assign_psk_cmd-Inv (cmd ∷ mac_text ∷ psk ∷ more) = with_mac-Inv env addr mac_text λ mac.
      elim (Bool-cases (leb (length psk) ap_secret_len)) [
        | inl fits ↦
            if-Keeps _
              (answer-Inv env addr (assign_psk_cmd-Inv env mac psk (length psk) (ground arith)))
              (reply-Inv env addr _)
        | inr long ↦ rw long (reply-Inv env addr _)
      ]

  set_ip_with-Inv :
      (type : DhcpIpType) (args : List CString)
      → All (λ w. length w < os_inet_addrstrlen) args
      → Keeps Inv (set_ip_with env addr type args)
  unfolding set_ip_with
  set_ip_with-Inv type [] h = reply-Inv env addr _
  set_ip_with-Inv type (mac_text ∷ []) h = reply-Inv env addr _
  set_ip_with-Inv type (mac_text ∷ ip ∷ more) h = with_mac-Inv env addr mac_text λ mac.
      is_ipv4-short env addr ip h.1.0 λ valid.
        if-Keeps valid (answer-Inv env addr (set_ip_cmd-Inv env mac ip type h.1.0))
          (reply-Inv env addr _)

  set_ip_case-Inv :
      (type : Option DhcpIpType) (args : List CString)
      → All (λ w. length w < os_inet_addrstrlen) args
      → Keeps Inv (set_ip_case env addr type args)
  unfolding set_ip_case
  set_ip_case-Inv none args h = reply-Inv env addr _
  set_ip_case-Inv (some DhcpIpType.dhcp_ip_none) args h = set_ip_with-Inv _ args h
  set_ip_case-Inv (some DhcpIpType.dhcp_ip_new) args h = set_ip_with-Inv _ args h
  set_ip_case-Inv (some DhcpIpType.dhcp_ip_old) args h = set_ip_with-Inv _ args h
  set_ip_case-Inv (some DhcpIpType.dhcp_ip_del) args h = set_ip_with-Inv _ args h
  set_ip_case-Inv (some DhcpIpType.dhcp_ip_arp) args h = reply-Inv env addr _

  pub process_set_ip_cmd-Inv :
      (args : List CString)
      → All (λ w. length w < os_inet_addrstrlen) args
      → Keeps Inv (process_set_ip_cmd env addr args)
  unfolding process_set_ip_cmd
  process_set_ip_cmd-Inv [] h = reply-Inv env addr _
  process_set_ip_cmd-Inv (cmd ∷ []) h = reply-Inv env addr _
  process_set_ip_cmd-Inv (cmd ∷ text ∷ args) h = set_ip_case-Inv (read_dhcp_type text) args h.1.1

  second_ip-Inv :
      (left : CString) (args : List CString)
      → All (λ w. length w < os_inet_addrstrlen) args
      → Keeps Inv (second_ip env addr left args)
  unfolding second_ip bridge_ips
  second_ip-Inv left [] h = reply-Inv env addr _
  second_ip-Inv left (text ∷ more) h = is_ipv4-short env addr text h.0 λ valid.
      if-Keeps valid (answer-Inv env addr (add_bridge_ip_cmd-Inv env _ _)) (reply-Inv env addr _)

  pub process_add_bridge_cmd-Inv :
      (args : List CString)
      → All (λ w. length w < os_inet_addrstrlen) args
      → Keeps Inv (process_add_bridge_cmd env addr args)
  unfolding process_add_bridge_cmd first_ip
  process_add_bridge_cmd-Inv [] h = reply-Inv env addr _
  process_add_bridge_cmd-Inv (cmd ∷ []) h = reply-Inv env addr _
  process_add_bridge_cmd-Inv (cmd ∷ text ∷ more) h = elim (Option-cases (hwaddr_aton2 text)) [
    | inl e ↦
        rw (process_add_bridge_cmd, e)
          (is_ipv4-short env addr text h.1.0
            λ valid. if-Keeps valid (second_ip-Inv text more h.1.1) (reply-Inv env addr _))
    | inr ((left, used), e) ↦
        rw (process_add_bridge_cmd, e)
          (second_mac-Inv env addr (add_bridge_mac_cmd-Inv env) left more)
  ]

  pub process_remove_bridge_cmd-Inv :
      (args : List CString) → Keeps Inv (process_remove_bridge_cmd env addr args)
  unfolding process_remove_bridge_cmd
  process_remove_bridge_cmd-Inv [] = reply-Inv env addr _
  process_remove_bridge_cmd-Inv (cmd ∷ []) = reply-Inv env addr _
  process_remove_bridge_cmd-Inv (cmd ∷ text ∷ more) =
      with_mac-Inv env addr text
        λ left. second_mac-Inv env addr (remove_bridge_cmd-Inv env) left more

  gather-Inv : (lines : List CString) (buf : CString) → Keeps Inv (gather env addr lines buf)
  unfolding gather
  gather-Inv [] buf = pure-Keeps buf
  gather-Inv (line ∷ lines) buf = then-Keeps (must-Inv env _) (gather-Inv lines _)

  bridges_answer-Inv : (o : Option (List (Mac × Mac))) → Keeps Inv (bridges_answer env addr o)
  unfolding bridges_answer
  bridges_answer-Inv none = reply-Inv env addr _
  bridges_answer-Inv (some []) = reply-Inv env addr _
  bridges_answer-Inv (some (t ∷ ts)) =
      bind-Keeps (gather-Inv (bridge_lines (t ∷ ts)) []) λ text. reply-Inv env addr text

  pub process_get_bridges_cmd-Inv :
      (args : List CString) → Keeps Inv (process_get_bridges_cmd env addr args)
  unfolding process_get_bridges_cmd
  process_get_bridges_cmd-Inv args = get-Keeps _ λ c v. (bridges_answer-Inv _).post c v

  pub all_answer-Inv : (els : List MacConn) → Keeps Inv (all_answer env addr els)
  unfolding all_answer
  all_answer-Inv [] = reply-Inv env addr _
  all_answer-Inv (el ∷ els) =
      then-Keeps (must-Inv env _)
        (bind-Keeps (gather-Inv (device_lines (el ∷ els)) []) λ text. reply-Inv env addr text)

  ticket_answer-Inv : (o : Option CString) → Keeps Inv (ticket_answer env addr o)
  unfolding ticket_answer write_newline_socket_data
  ticket_answer-Inv none = reply-Inv env addr _
  ticket_answer-Inv (some pass) =
      bind-Keeps (call-Keeps Inv-trace env _)
        λ ok. if-Keeps ok (reply-Inv env addr _) (reply-Inv env addr _)

  pub process_register_ticket_cmd-Inv :
      IssuesTickets env
      → (args : List CString) → Keeps Inv (process_register_ticket_cmd env addr args)
  unfolding process_register_ticket_cmd register
  process_register_ticket_cmd-Inv i [] = reply-Inv env addr _
  process_register_ticket_cmd-Inv i (cmd ∷ []) = reply-Inv env addr _
  process_register_ticket_cmd-Inv i (cmd ∷ mac_text ∷ []) = reply-Inv env addr _
  process_register_ticket_cmd-Inv i (cmd ∷ mac_text ∷ label ∷ []) = reply-Inv env addr _
  process_register_ticket_cmd-Inv i (cmd ∷ mac_text ∷ label ∷ vlan_text ∷ more) =
      with_mac-Inv env addr mac_text λ mac.
        if-Keeps _
          (with_vlanid-Inv env addr vlan_text λ vlanid.
            bind-Keeps
              (attempt-Keeps (
                register_ticket_cmd-Inv env i mac _ vlanid
                  (length-os_strlcpy label max_device_label_size (omega arith))))
              ticket_answer-Inv)
          (reply-Inv env addr _)
