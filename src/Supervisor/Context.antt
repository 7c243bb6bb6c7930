-- ===== src/Supervisor/Context.antt =====
-- src/supervisor/supervisor_config.h: the supervisor's state, and how its functions run on it.
-- A function of the source that returns 0 or -1 is an `M`: `failed` is -1, and the state is kept
-- as it is then; `fault` is an access to memory that is not the program's. What lies outside the
-- supervisor (the allocator, iptables, hostapd, the DHCP leases, the databases, the sockets, the
-- clock) is a `Call`; whether it succeeds is an unknown function of all calls before it.
pub mod Post
pub mod Leads
pub mod Triple
use edgesec.Common.{
  ℕ, suc, ◌==◌, if◌then◌else◌, Bool, true, false, not, Option, none, some, List, [], ◌∷◌, CString,
  Mac, ℤ,
}
use edgesec.Utils.Net.{Inet}
use edgesec.Utils.IfaceMapper.{ConfigIfinfo, VlanConn}
use edgesec.Supervisor.BridgeList.{BridgeList}
use edgesec.Supervisor.MacMapper.{MacConn, MacConnInfo, ApConnectionStatus}

-- struct auth_ticket
pub record AuthTicket : Type 0 where
  pub passphrase : List ℕ
  pub passphrase_len : ℕ
  pub device_label : CString
  pub vlanid : ℤ

-- The pointer to the ticket: NULL, to a live ticket, or to one that has been freed.
pub data TicketPtr : Type 0 where
  null : TicketPtr
  live : AuthTicket → TicketPtr
  dangling : TicketPtr

-- enum SOCKET_TYPE
pub data SocketType : Type 0 where
  socket_type_none socket_type_domain socket_type_udp : SocketType

-- struct client_address: the path of a domain socket, or an IP address and a port.
pub record ClientAddress : Type 0 where
  pub type : SocketType
  pub len : ℕ
  pub sun_path : List ℕ
  pub sin_addr : List ℕ
  pub sin_port : ℕ

-- enum DHCP_IP_TYPE
pub data DhcpIpType : Type 0 where
  dhcp_ip_none dhcp_ip_new dhcp_ip_old dhcp_ip_del dhcp_ip_arp : DhcpIpType

-- The events that subscribers are told of.
pub data Event : Type 0 where
  event_ip : Mac → CString → DhcpIpType → Bool → Event
  event_ap : Mac → ApConnectionStatus → Event

pub data Call : Type 0 where
  os_malloc : Call
  uuid_generate : Call
  put_crypt_pair : CString → List ℕ → ℕ → Call
  save_sqlite_macconn_entry : MacConn → Call
  clear_dhcp_lease : CString → Call
  check_sta_ap_command : CString → Call
  disconnect_ap_command : CString → Call
  iptables_add_nat : CString → CString → Call
  iptables_delete_nat : CString → CString → Call
  iptables_add_bridge : CString → CString → CString → CString → Call
  iptables_delete_bridge : CString → CString → CString → CString → Call
  run_capture_thread : CString → Call
  os_get_timestamp : Call
  os_get_random : ℕ → Call
  rand : Call
  edge_eloop_register_timeout : ℕ → Call
  write_event : ClientAddress → Event → Call
  write_socket_data : ClientAddress → CString → Call

-- What the outside answers, given the calls so far, the latest first. `utarray_find` and
-- `utarray_sort` are those of uthash on the array of subscribers, with sort_subscribers_array.
pub record Env : Type 0 where
  pub inet : Inet
  pub succeeds : List Call → Call → Bool
  pub uuid : List Call → CString
  pub random : List Call → List ℕ
  pub timestamp : List Call → ℕ
  pub pid : List Call → ℕ
  pub rand : List Call → ℕ
  pub utarray_find : ClientAddress → List ClientAddress → Option ClientAddress
  pub utarray_sort : List ClientAddress → List ClientAddress

-- struct supervisor_context, as far as the functions modelled here use it, and the calls so far.
pub record Context : Type 0 where
  pub mac_mapper : List MacConn
  pub vlan_mapper : List VlanConn
  pub allow_all_connections : Bool
  pub allow_all_nat : Bool
  pub exec_capture : Bool
  pub wpa_passphrase : List ℕ
  pub wpa_passphrase_len : ℕ
  pub allocate_vlans : Bool
  pub default_open_vlanid : ℤ
  pub config_ifinfo_array : Option (List ConfigIfinfo)
  pub subscribers_array : Option (List ClientAddress)
  pub bridge_list : Option BridgeList
  pub ticket : TicketPtr
  pub trace : List Call

pub data Run (A : Type 0) : Type 0 where
  done : A → Context → Run A
  failed : Context → Run A
  fault : Run A

abbrev pub M : Type 0 → Type 0
M A = Context → Run A

unfoldable pub bind_run : {A B : Type 0} → Run A → (A → M B) → Run B
bind_run (Run.done a c) f = f a c
bind_run (Run.failed c) f = Run.failed c
bind_run Run.fault f = Run.fault

infixl 5 ◌>>=◌ ◌>>◌
unfoldable pub ◌>>=◌ : {A B : Type 0} → M A → (A → M B) → M B
unfolding bind_run
◌>>=◌ m f c = bind_run (m c) f

unfoldable pub ◌>>◌ : {A B : Type 0} → M A → M B → M B
unfolding bind_run
◌>>◌ m k c = bind_run (m c) (λ _. k)

unfoldable pub pure : {A : Type 0} → A → M A
pure a c = Run.done a c

-- return -1
unfoldable pub fail : {A : Type 0} → M A
fail c = Run.failed c

unfoldable pub crash : {A : Type 0} → M A
crash c = Run.fault

unfoldable pub get : M Context
get c = Run.done c c

unfoldable pub modify : (Context → Context) → M (Unit {0})
modify f c = Run.done tt (f c)

unfoldable pub unless_fail : Bool → M (Unit {0})
unless_fail true c = Run.done tt c
unless_fail false c = Run.failed c

-- Run `m` for its effect; does it succeed?
unfoldable pub catch_run : {A : Type 0} → Run A → Run Bool
catch_run (Run.done a c) = Run.done true c
catch_run (Run.failed c) = Run.done false c
catch_run Run.fault = Run.fault

unfoldable pub succeeds? : {A : Type 0} → M A → M Bool
unfolding catch_run
succeeds? m c = catch_run (m c)

-- Run `m` for its value, if it has one.
unfoldable pub attempt_run : {A : Type 0} → Run A → Run (Option A)
attempt_run (Run.done a c) = Run.done (some a) c
attempt_run (Run.failed c) = Run.done none c
attempt_run Run.fault = Run.fault

unfoldable pub attempt : {A : Type 0} → M A → M (Option A)
unfolding attempt_run
attempt m c = attempt_run (m c)

-- Make the call.
unfoldable pub call : Env → Call → M Bool
call env k c = Run.done (env.succeeds c.trace k) (record c { trace = k ∷ c.trace })

-- Make the call, and return -1 if it fails.
unfoldable pub must : Env → Call → M (Unit {0})
unfolding call ◌>>=◌ unless_fail
must env k = call env k >>= unless_fail

-- os_malloc, where the code comes to it.
unfoldable pub alloc_if : Env → Bool → M Bool
unfolding call pure
alloc_if env true = call env Call.os_malloc
alloc_if env false = pure true
