-- ===== src/Supervisor/System.antt =====
-- src/supervisor/system_commands.c, and ap_service_callback of src/supervisor/supervisor.c.
pub mod Keeps
pub mod Addresses
use edgesec.Common.{
  ◌==◌, if◌then◌else◌, Bool, true, false, not, ◌&&◌, ◌||◌, Option, none, some, List, [], ◌∷◌, ◌++◌,
  CString, codes, str_eq, os_strlcpy, Mac, Find,
}
use edgesec.Utils.Net.{os_inet_addrstrlen}
use edgesec.Supervisor.BridgeList.{get_src_mac_list}
use edgesec.Supervisor.MacMapper.{MacConn, MacConnInfo, ApConnectionStatus, get_mac_mapper}
use edgesec.Supervisor.Context.{
  Context, Env, Call, M, Event, DhcpIpType, ClientAddress, ◌>>=◌, ◌>>◌, pure, fail, get, succeeds?,
}
use edgesec.Supervisor.Save.{
  ifname_of, known_info, save_mac_mapper, add_nat_ip, remove_nat_ip, add_bridge_ip,
  delete_bridge_ip,
}
use edgesec.Supervisor.Subscribers.{send_events_subscriber, add_events_subscriber}

abbrev pub is_empty_text : CString → Bool
is_empty_text [] = true
is_empty_text (c ∷ s) = false

-- What the switch of set_ip_cmd comes to: return 0, return -1, or go on with the information, and
-- whether the address is the first one.
pub data IpChange : Type 0 where
  nothing_to_do : IpChange
  refused : IpChange
  change : MacConnInfo → Bool → IpChange

unfoldable pub new_ip : MacConnInfo → CString → IpChange
new_ip info ip =
    if str_eq info.ip_addr ip
    then IpChange.nothing_to_do
    else if str_eq info.ip_sec_addr ip
    then IpChange.nothing_to_do
    else if is_empty_text info.ip_addr
    then IpChange.change (record info { ip_addr = os_strlcpy ip os_inet_addrstrlen }) true
    else if not (is_empty_text info.ip_addr) && is_empty_text info.ip_sec_addr
    then IpChange.change (record info { ip_sec_addr = os_strlcpy ip os_inet_addrstrlen }) false
    else IpChange.refused

unfoldable pub del_ip : MacConnInfo → CString → IpChange
del_ip info ip =
    IpChange.change
      (record info {
        ip_addr = if str_eq info.ip_addr ip then [] else info.ip_addr;
        ip_sec_addr = if str_eq info.ip_sec_addr ip then [] else info.ip_sec_addr;
      })
      false

unfoldable pub ip_change : MacConnInfo → CString → DhcpIpType → IpChange
ip_change info ip DhcpIpType.dhcp_ip_none = IpChange.refused
ip_change info ip DhcpIpType.dhcp_ip_new = new_ip info ip
ip_change info ip DhcpIpType.dhcp_ip_old = new_ip info ip
ip_change info ip DhcpIpType.dhcp_ip_del = del_ip info ip
ip_change info ip DhcpIpType.dhcp_ip_arp = IpChange.nothing_to_do

abbrev pub is_add : DhcpIpType → Bool
is_add DhcpIpType.dhcp_ip_new = true
is_add DhcpIpType.dhcp_ip_old = true
is_add _ = false

-- The rules between the address and the two of a device on the other end of a bridge, if the
-- device is known.
unfoldable pub peer_rules :
    (CString → CString → M (Unit {0})) → CString → Find MacConnInfo → M (Unit {0})
peer_rules rule ip (Find.found right) = do rule ip right.ip_addr; rule ip right.ip_sec_addr
peer_rules rule ip _ = pure tt

unfoldable pub each_peer : (CString → CString → M (Unit {0})) → CString → List Mac → M (Unit {0})
each_peer rule ip [] = pure tt
each_peer rule ip (p ∷ ps) = do
  c ← get
  peer_rules rule ip (get_mac_mapper (some c.mac_mapper) (some p) true)
  each_peer rule ip ps

unfoldable pub change_bridges : (CString → CString → M (Unit {0})) → Mac → CString → M (Unit {0})
change_bridges rule mac ip = do
  c ← get
  elim (get_src_mac_list c.bridge_list mac) [ none ↦ fail | some ps ↦ each_peer rule ip ps ]

unfoldable pub change_nat : Env → Bool → Bool → CString → M (Unit {0})
change_nat env add nat ip =
    if add && nat
    then add_nat_ip env ip
    else if not add && nat
    then remove_nat_ip env ip
    else pure tt

unfoldable pub apply_change : Env → Mac → CString → DhcpIpType → CString → IpChange → M (Unit {0})
apply_change env mac ip type ifname IpChange.nothing_to_do = pure tt
apply_change env mac ip type ifname IpChange.refused = fail
apply_change env mac ip type ifname (IpChange.change info primary) = do
  save_mac_mapper env (record { mac_addr = mac; info = record info { ifname = ifname } })
  if is_add type then send_events_subscriber env (Event.event_ip mac ip type primary) else pure tt
  change_nat env (is_add type) info.nat ip
  change_bridges (if is_add type then add_bridge_ip env else delete_bridge_ip env) mac ip

unfoldable pub set_ip_cmd : Env → Mac → CString → DhcpIpType → M (Unit {0})
set_ip_cmd env mac ip type = do
  ifname ← ifname_of env ip
  info ← known_info mac
  apply_change env mac ip type ifname (ip_change info ip type)

unfoldable pub ping_cmd : CString
ping_cmd = codes "PONG" ++ 10 ∷ []

unfoldable pub subscribe_events_cmd : Env → ClientAddress → M (Unit {0})
subscribe_events_cmd env addr = add_events_subscriber env addr

unfoldable pub save_status : Env → Mac → ApConnectionStatus → Find MacConnInfo → M Bool
save_status env mac status (Find.found info) =
    succeeds?
      (save_mac_mapper env (record { mac_addr = mac; info = record info { status = status } }))
save_status env mac status _ = pure true

-- Failures are only logged.
unfoldable pub ap_service_callback : Env → Mac → ApConnectionStatus → M Bool
ap_service_callback env mac status = do
  c ← get
  _ ← save_status env mac status (get_mac_mapper (some c.mac_mapper) (some mac) true)
  succeeds? (send_events_subscriber env (Event.event_ap mac status))
