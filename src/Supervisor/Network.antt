-- ===== src/Supervisor/Network.antt =====
-- src/supervisor/network_commands.c: the commands on devices and bridges.
pub mod Keeps
pub mod Bridges
pub mod Linked
pub mod Unlinked
pub mod Tickets
pub mod Dangling
pub mod Deny
pub mod Accept
use edgesec.Common.{
  ℕ, ltb, leb, if◌then◌else◌, Bool, true, false, not, ◌&&◌, Option, none, some, is_some, List, [],
  ◌∷◌, ◌++◌, replicate, memcpy, length, CString, codes, Mac, mac_eq, ℤ, Find, map,
}
use edgesec.Utils.Net.{mac_str}
use edgesec.Utils.Strings.{os_get_random_number_s}
use edgesec.Utils.IfaceMapper.{VlanConn, get_vlan_mapper}
use edgesec.Supervisor.BridgeList.{
  BridgeList, Ret, nonneg, get_bridge_mac, check_bridge_exist, add_bridge_mac, remove_bridge_mac,
}
use edgesec.Supervisor.MacMapper.{
  MacConn, MacConnInfo, get_mac_mapper, get_mac_list, get_ip_mapper, ap_secret_len,
}
use edgesec.Supervisor.Context.{
  Context, Env, Call, M, AuthTicket, TicketPtr, ◌>>=◌, ◌>>◌, pure, fail, crash, get, modify,
  unless_fail, succeeds?, call, must, alloc_if,
}
use edgesec.Supervisor.Save.{
  save_mac_mapper, known_info, info_or_default, add_nat_ip, remove_nat_ip, add_bridge_ip,
  delete_bridge_ip,
}

-- To free the ticket again is a fault.
unfoldable pub free_ticket_at : TicketPtr → M (Unit {0})
free_ticket_at TicketPtr.null = pure tt
free_ticket_at (TicketPtr.live t) = modify (λ c. record c { ticket = TicketPtr.null })
free_ticket_at TicketPtr.dangling = crash

unfoldable pub free_ticket : M (Unit {0})
free_ticket = do c ← get; free_ticket_at c.ticket

-- eloop_ticket_timeout_handler
unfoldable pub eloop_ticket_timeout_handler : M (Unit {0})
eloop_ticket_timeout_handler = free_ticket

-- The VLAN's interface; -1 if there is none.
unfoldable pub vlan_or_fail : ℤ → M VlanConn
vlan_or_fail vlanid = do
  c ← get
  elim (get_vlan_mapper (some c.vlan_mapper) vlanid) [ Find.found vlan ↦ pure vlan | _ ↦ fail ]

-- A station that hostapd knows is disconnected.
unfoldable pub disconnect_station : Env → CString → M (Unit {0})
disconnect_station env mac_text = do
  known ← call env (Call.check_sta_ap_command mac_text)
  if known then must env (Call.disconnect_ap_command mac_text) else pure tt

unfoldable pub accept_mac_cmd : Env → Mac → ℤ → M (Unit {0})
accept_mac_cmd env mac vlanid = do
  info ← known_info mac
  vlan ← vlan_or_fail vlanid
  save_mac_mapper env (record {
    mac_addr = mac;
    info = record info { allow_connection = true; vlanid = vlanid; ifname = vlan.ifname };
  })
  must env (Call.clear_dhcp_lease (mac_str mac))
  disconnect_station env (mac_str mac)

unfoldable pub deny_mac_cmd : Env → Mac → M (Unit {0})
deny_mac_cmd env mac = do
  info ← info_or_default mac
  save_mac_mapper env (record { mac_addr = mac; info = record info { allow_connection = false } })
  must env (Call.disconnect_ap_command (mac_str mac))

unfoldable pub add_nat_cmd : Env → Mac → M (Unit {0})
add_nat_cmd env mac = do
  info ← known_info mac
  add_nat_ip env info.ip_addr
  add_nat_ip env info.ip_sec_addr
  save_mac_mapper env (record { mac_addr = mac; info = record info { nat = true } })

unfoldable pub remove_nat_cmd : Env → Mac → M (Unit {0})
remove_nat_cmd env mac = do
  info ← known_info mac
  remove_nat_ip env info.ip_addr
  remove_nat_ip env info.ip_sec_addr
  save_mac_mapper env (record { mac_addr = mac; info = record info { nat = false } })

-- `pass` has `pass_len` bytes. More than the array holds would be a write out of bounds.
unfoldable pub assign_psk_cmd : Env → Mac → List ℕ → ℕ → M (Unit {0})
assign_psk_cmd env mac pass pass_len = if ltb ap_secret_len pass_len then crash else do
  info ← info_or_default mac
  save_mac_mapper env (record {
    mac_addr = mac;
    info = record info { pass = memcpy info.pass pass pass_len; pass_len = pass_len };
  })

unfoldable pub clear_psk_cmd : Env → Mac → M (Unit {0})
clear_psk_cmd env mac = do
  info ← info_or_default mac
  save_mac_mapper env (record {
    mac_addr = mac;
    info = record info { pass = replicate ap_secret_len 0; pass_len = 0 };
  })

-- Does add_bridge_mac come to its allocations?
unfoldable pub needs_nodes : Option BridgeList → Mac → Mac → Bool
needs_nodes none left right = false
needs_nodes (some ml) left right =
    let ret = get_bridge_mac (some ml) (some left) (some right) in
    not (mac_eq left right) && not (is_some ret.left_edge && is_some ret.right_edge)

unfoldable pub add_bridge : Env → Mac → Mac → M Ret
add_bridge env left right = do
  c ← get
  src_ok ← alloc_if env (needs_nodes c.bridge_list left right)
  dst_ok ← alloc_if env (needs_nodes c.bridge_list left right && src_ok)
  modify (λ d. record d {
    bridge_list = (add_bridge_mac src_ok dst_ok c.bridge_list (some left) (some right)).1;
  })
  pure (add_bridge_mac src_ok dst_ok c.bridge_list (some left) (some right)).0

unfoldable pub set_bridges : Option (Ret × Option BridgeList) → M Ret
set_bridges none = crash
set_bridges (some (ret, ml)) = do modify (λ d. record d { bridge_list = ml }); pure ret

unfoldable pub remove_bridge : Mac → Mac → M Ret
remove_bridge left right = do
  c ← get
  set_bridges (remove_bridge_mac c.bridge_list (some left) (some right))

-- The information of both devices, if both are known. The second is looked up only if the first
-- is there.
unfoldable pub both_infos : Mac → Mac → M (Option (MacConnInfo × MacConnInfo))
both_infos left right = do
  c ← get
  elim (get_mac_mapper (some c.mac_mapper) (some left) true) [
    | Find.found l ↦ elim (get_mac_mapper (some c.mac_mapper) (some right) true) [
      | Find.found r ↦ pure (some (l, r))
      | _ ↦ pure none
    ]
    | _ ↦ pure none
  ]

-- The four rules between the addresses of two devices.
unfoldable pub for_each_pair :
    (CString → CString → M (Unit {0})) → Option (MacConnInfo × MacConnInfo) → M (Unit {0})
for_each_pair rule none = pure tt
for_each_pair rule (some (l, r)) = do
  rule l.ip_addr r.ip_addr
  rule l.ip_addr r.ip_sec_addr
  rule l.ip_sec_addr r.ip_addr
  rule l.ip_sec_addr r.ip_sec_addr

unfoldable pub add_bridge_mac_cmd : Env → Mac → Mac → M (Unit {0})
add_bridge_mac_cmd env left right = do
  ret ← add_bridge env left right
  unless_fail (nonneg ret)
  infos ← both_infos left right
  for_each_pair (add_bridge_ip env) infos

unfoldable pub remove_bridge_cmd : Env → Mac → Mac → M (Unit {0})
remove_bridge_cmd env left right = do
  ret ← remove_bridge left right
  unless_fail (nonneg ret)
  infos ← both_infos left right
  for_each_pair (delete_bridge_ip env) infos

-- The device of an IP address; -1 if there is none.
unfoldable pub mac_or_fail : Option (Find Mac) → M Mac
mac_or_fail none = crash
mac_or_fail (some Find.bad_param) = fail
mac_or_fail (some Find.missing) = fail
mac_or_fail (some (Find.found mac)) = pure mac

unfoldable pub mac_of_ip : Env → CString → M Mac
mac_of_ip env ip = do
  c ← get
  mac_or_fail (get_ip_mapper env.inet (some c.mac_mapper) (some ip) true)

abbrev bridge_found : Ret → Bool
bridge_found Ret.positive = true
bridge_found _ = false

unfoldable pub add_bridge_ip_cmd : Env → CString → CString → M (Unit {0})
add_bridge_ip_cmd env left_ip right_ip = do
  left ← mac_of_ip env left_ip
  right ← mac_of_ip env right_ip
  c ← get
  if bridge_found (check_bridge_exist c.bridge_list (some left) (some right))
      then pure tt
      else add_bridge_mac_cmd env left right

-- The loop of clear_bridges_cmd: what remove_bridge_cmd returns is not looked at.
unfoldable pub clear_each : Env → Mac → List MacConn → M (Unit {0})
clear_each env mac [] = pure tt
clear_each env mac (el ∷ els) = do
  _ ← succeeds? (remove_bridge_cmd env mac el.mac_addr)
  clear_each env mac els

abbrev is_empty {ℓ} : {A : Type ℓ} → List A → Bool
is_empty [] = true
is_empty (x ∷ xs) = false

-- The array of get_mac_list, whose allocation is not checked.
unfoldable pub list_devices : Env → M (List MacConn)
list_devices env = do
  c ← get
  alloc_ok ← alloc_if env (not (is_empty c.mac_mapper))
  elim (get_mac_list alloc_ok c.mac_mapper) [ none ↦ crash | some els ↦ pure els ]

unfoldable pub clear_bridges_cmd : Env → Mac → M (Unit {0})
clear_bridges_cmd env mac = do els ← list_devices env; clear_each env mac els

-- TICKET_PASSPHRASE_SIZE and TICKET_TIMEOUT
abbrev pub ticket_passphrase_size : ℕ
ticket_passphrase_size = 16

abbrev pub ticket_timeout : ℕ
ticket_timeout = 60

-- MAX_DEVICE_LABEL_SIZE
abbrev pub max_device_label_size : ℕ
max_device_label_size = 255

abbrev new_ticket : CString → ℤ → List ℕ → AuthTicket
new_ticket label vlanid digits = record {
  passphrase = memcpy (replicate ap_secret_len 0) digits ticket_passphrase_size;
  passphrase_len = ticket_passphrase_size;
  device_label = label;
  vlanid = vlanid;
}

-- os_free(context->ticket), after which the pointer is left as it was; then NULL is returned.
unfoldable pub give_up_ticket : M CString
give_up_ticket = do modify (λ d. record d { ticket = TicketPtr.dangling }); fail

-- The passphrase, or -1 for NULL. The label is copied with no limit.
unfoldable pub register_ticket : Env → CString → ℤ → M CString
register_ticket env label vlanid = do
  alloc_ok ← call env Call.os_malloc
  unless_fail alloc_ok
  c ← get
  random_ok ← call env (Call.os_get_random ticket_passphrase_size)
  if not random_ok
      then give_up_ticket
      else if ltb ap_secret_len ticket_passphrase_size
      then crash
      else do
        let digits = os_get_random_number_s (env.random c.trace)
        timer_ok ← call env (Call.edge_eloop_register_timeout ticket_timeout)
        if not timer_ok then give_up_ticket else do
          modify (λ d. record d { ticket = TicketPtr.live (new_ticket label vlanid digits) })
          pure digits

unfoldable pub register_ticket_cmd : Env → Mac → CString → ℤ → M CString
register_ticket_cmd env mac label vlanid = do
  c ← get
  elim c.ticket [
    | TicketPtr.null ↦
        if leb max_device_label_size (length label) then crash else register_ticket env label vlanid
    | _ ↦ fail
  ]
