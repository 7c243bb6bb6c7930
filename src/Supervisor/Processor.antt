-- ===== src/Supervisor/Processor.antt =====
-- src/supervisor/cmd_processor.c: the handlers of the commands, in the build without the crypt
-- service. A `cmd_arr` is the words of the request, the name of the command first.
pub mod Answers
pub mod Keeps
use edgesec.Common.{
  ℕ, ltb, leb, ◌==◌, if◌then◌else◌, Bool, true, false, not, ◌&&◌, Option, none, some, List, [], ◌∷◌,
  ◌++◌, length, take, CString, codes, str_eq, os_strlcpy, Mac, ℤ, Find,
}
use edgesec.Utils.Net.{hwaddr_aton2, os_inet_addrstrlen}
use edgesec.Utils.Strings.{rtrim, split_string_array, string_append_char}
use edgesec.Supervisor.BridgeList.{get_all_bridge_edges}
use edgesec.Supervisor.MacMapper.{MacConn, MacConnInfo, get_mac_mapper, ap_secret_len}
use edgesec.Supervisor.Context.{
  Env, Call, Context, M, ClientAddress, DhcpIpType, ◌>>=◌, ◌>>◌, pure, fail, crash, get,
  unless_fail, succeeds?, attempt, call, must,
}
use edgesec.Supervisor.Save.{is_ipv4}
use edgesec.Supervisor.Network.{
  accept_mac_cmd, deny_mac_cmd, add_nat_cmd, remove_nat_cmd, assign_psk_cmd, clear_psk_cmd,
  add_bridge_mac_cmd, add_bridge_ip_cmd, remove_bridge_cmd, clear_bridges_cmd, list_devices,
  register_ticket_cmd, max_device_label_size,
}
use edgesec.Supervisor.System.{ping_cmd, subscribe_events_cmd, set_ip_cmd}
use edgesec.Supervisor.Texts.{read_vlanid, device_line, bridge_line, cut_line, line_max}
use edgesec.Supervisor.Replies.{
  ok_reply, fail_reply, Handler, reply, answer, write_newline_socket_data, with_mac, with_vlanid,
  on_mac, second_mac,
}

unfoldable pub device_lines : List MacConn → List CString
device_lines [] = []
device_lines (el ∷ els) = device_line el.mac_addr el.info ∷ device_lines els

-- The first three bytes say what has happened to the lease.
unfoldable pub read_dhcp_type : CString → Option DhcpIpType
read_dhcp_type text =
    let dhcp_type = os_strlcpy text 4 in
    if str_eq dhcp_type (codes "add")
    then some DhcpIpType.dhcp_ip_new
    else if str_eq dhcp_type (codes "old")
    then some DhcpIpType.dhcp_ip_old
    else if str_eq dhcp_type (codes "del")
    then some DhcpIpType.dhcp_ip_del
    else if str_eq dhcp_type (codes "arp")
    then some DhcpIpType.dhcp_ip_arp
    else none

unfoldable pub bridge_lines : List (Mac × Mac) → List CString
bridge_lines [] = []
bridge_lines (t ∷ tuples) = bridge_line t ∷ bridge_lines tuples

module _ (env : Env) (addr : ClientAddress) where
  unfoldable pub process_ping_cmd : List CString → M (Unit {0})
  unfolding reply
  process_ping_cmd cmd_arr = do
    ok ← call env Call.os_malloc
    if ok then reply env addr ping_cmd else reply env addr fail_reply

  unfoldable pub process_subscribe_events_cmd : List CString → M (Unit {0})
  unfolding answer
  process_subscribe_events_cmd cmd_arr = answer env addr (subscribe_events_cmd env addr)

  unfoldable pub process_accept_mac_cmd : List CString → M (Unit {0})
  unfolding reply answer with_mac with_vlanid
  process_accept_mac_cmd (cmd ∷ mac_text ∷ vlan_text ∷ more) = with_mac env addr mac_text λ mac.
      with_vlanid env addr vlan_text λ vlanid. answer env addr (accept_mac_cmd env mac vlanid)
  process_accept_mac_cmd _ = reply env addr fail_reply

  unfoldable pub process_deny_mac_cmd : List CString → M (Unit {0})
  unfolding on_mac
  process_deny_mac_cmd cmd_arr = on_mac env addr (deny_mac_cmd env) cmd_arr

  unfoldable pub process_add_nat_cmd : List CString → M (Unit {0})
  unfolding on_mac
  process_add_nat_cmd cmd_arr = on_mac env addr (add_nat_cmd env) cmd_arr

  unfoldable pub process_remove_nat_cmd : List CString → M (Unit {0})
  unfolding on_mac
  process_remove_nat_cmd cmd_arr = on_mac env addr (remove_nat_cmd env) cmd_arr

  unfoldable pub process_clear_bridges_cmd : List CString → M (Unit {0})
  unfolding on_mac
  process_clear_bridges_cmd cmd_arr = on_mac env addr (clear_bridges_cmd env) cmd_arr

  unfoldable pub process_clear_psk_cmd : List CString → M (Unit {0})
  unfolding on_mac
  process_clear_psk_cmd cmd_arr = on_mac env addr (clear_psk_cmd env) cmd_arr

  unfoldable pub process_assign_psk_cmd : List CString → M (Unit {0})
  unfolding reply answer with_mac
  process_assign_psk_cmd (cmd ∷ mac_text ∷ psk ∷ more) = with_mac env addr mac_text λ mac.
      if leb (length psk) ap_secret_len && ltb 0 (length psk)
      then answer env addr (assign_psk_cmd env mac psk (length psk))
      else reply env addr fail_reply
  process_assign_psk_cmd _ = reply env addr fail_reply

  -- write_socket_data takes as many bytes of `temp` as snprintf would have written: one byte too
  -- many, and it reads behind the array.
  unfoldable pub write_line : CString → M (Unit {0})
  unfolding reply
  write_line line =
      if ltb (length line) line_max
      then reply env addr line
      else if length line == line_max
      then reply env addr (cut_line line ++ 0 ∷ [])
      else crash

  unfoldable pub map_answer : Mac → Find MacConnInfo → M (Unit {0})
  unfolding reply write_line
  map_answer mac (Find.found info) = write_line (device_line mac info)
  map_answer mac Find.missing = reply env addr ok_reply
  map_answer mac Find.bad_param = reply env addr fail_reply

  unfoldable pub process_get_map_cmd : List CString → M (Unit {0})
  unfolding reply with_mac
  process_get_map_cmd (cmd ∷ mac_text ∷ more) =
      with_mac env addr mac_text
        λ mac. do c ← get; map_answer mac (get_mac_mapper (some c.mac_mapper) (some mac) true)
  process_get_map_cmd _ = reply env addr fail_reply

  -- Each line is put behind the others, in an array that grows by os_realloc.
  unfoldable pub gather : List CString → CString → M CString
  gather [] reply_buf = pure reply_buf
  gather (line ∷ lines) reply_buf = do
    must env Call.os_malloc
    gather lines (reply_buf ++ cut_line line)

  unfoldable pub all_answer : List MacConn → M (Unit {0})
  unfolding reply gather device_lines
  all_answer [] = reply env addr ok_reply
  all_answer (el ∷ els) = do
    must env Call.os_malloc
    text ← gather (device_lines (el ∷ els)) []
    reply env addr text

  unfoldable pub process_get_all_cmd : List CString → M (Unit {0})
  unfolding all_answer
  process_get_all_cmd cmd_arr = do els ← list_devices env; all_answer els

  unfoldable pub set_ip_with : DhcpIpType → List CString → M (Unit {0})
  unfolding reply answer with_mac
  set_ip_with type (mac_text ∷ ip ∷ more) = with_mac env addr mac_text λ mac. do
    valid ← is_ipv4 env ip
    if valid then answer env addr (set_ip_cmd env mac ip type) else reply env addr fail_reply
  set_ip_with type _ = reply env addr fail_reply

  unfoldable pub set_ip_case : Option DhcpIpType → List CString → M (Unit {0})
  unfolding reply set_ip_with
  set_ip_case none args = reply env addr fail_reply
  set_ip_case (some DhcpIpType.dhcp_ip_arp) args = reply env addr ok_reply
  set_ip_case (some type) args = set_ip_with type args

  unfoldable pub process_set_ip_cmd : List CString → M (Unit {0})
  unfolding reply read_dhcp_type set_ip_case
  process_set_ip_cmd (cmd ∷ type_text ∷ args) = set_ip_case (read_dhcp_type type_text) args
  process_set_ip_cmd _ = reply env addr fail_reply

  unfoldable pub bridge_ips : CString → CString → M (Unit {0})
  unfolding answer
  bridge_ips left right = answer env addr (
      add_bridge_ip_cmd env (os_strlcpy left os_inet_addrstrlen)
        (os_strlcpy right os_inet_addrstrlen))

  unfoldable pub second_ip : CString → List CString → M (Unit {0})
  unfolding reply bridge_ips
  second_ip left [] = reply env addr fail_reply
  second_ip left (text ∷ more) = do
    valid ← is_ipv4 env text
    if valid then bridge_ips left text else reply env addr fail_reply

  unfoldable pub first_ip : CString → List CString → M (Unit {0})
  unfolding reply second_ip
  first_ip text more = do
    valid ← is_ipv4 env text
    if valid then second_ip text more else reply env addr fail_reply

  -- Two MAC addresses, or two IP addresses.
  unfoldable pub process_add_bridge_cmd : List CString → M (Unit {0})
  unfolding reply second_mac first_ip
  process_add_bridge_cmd (cmd ∷ text ∷ more) = elim (hwaddr_aton2 text) [
    | none ↦ first_ip text more
    | some (left, used) ↦ second_mac env addr (add_bridge_mac_cmd env) left more
  ]
  process_add_bridge_cmd _ = reply env addr fail_reply

  unfoldable pub process_remove_bridge_cmd : List CString → M (Unit {0})
  unfolding reply second_mac with_mac
  process_remove_bridge_cmd (cmd ∷ text ∷ more) =
      with_mac env addr text λ left. second_mac env addr (remove_bridge_cmd env) left more
  process_remove_bridge_cmd _ = reply env addr fail_reply

  unfoldable pub bridges_answer : Option (List (Mac × Mac)) → M (Unit {0})
  unfolding reply gather bridge_lines
  bridges_answer none = reply env addr fail_reply
  bridges_answer (some []) = reply env addr fail_reply
  bridges_answer (some (t ∷ tuples)) = do
    text ← gather (bridge_lines (t ∷ tuples)) []
    reply env addr text

  unfoldable pub process_get_bridges_cmd : List CString → M (Unit {0})
  unfolding bridges_answer
  process_get_bridges_cmd cmd_arr = do c ← get; bridges_answer (get_all_bridge_edges c.bridge_list)

  unfoldable pub ticket_answer : Option CString → M (Unit {0})
  unfolding reply write_newline_socket_data
  ticket_answer none = reply env addr fail_reply
  ticket_answer (some passphrase) = write_newline_socket_data env addr passphrase

  unfoldable pub register : Mac → CString → ℤ → M (Unit {0})
  unfolding ticket_answer
  register mac label vlanid = do
    passphrase ←
        attempt (register_ticket_cmd env mac (os_strlcpy label max_device_label_size) vlanid)
    ticket_answer passphrase

  unfoldable pub process_register_ticket_cmd : List CString → M (Unit {0})
  unfolding reply with_mac with_vlanid register
  process_register_ticket_cmd (cmd ∷ mac_text ∷ label ∷ vlan_text ∷ more) =
      with_mac env addr mac_text λ mac.
        if ltb (length label) max_device_label_size
        then with_vlanid env addr vlan_text (register mac label)
        else reply env addr fail_reply
  process_register_ticket_cmd _ = reply env addr fail_reply
