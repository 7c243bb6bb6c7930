-- ===== src/Supervisor/Examples/Data.antt =====
-- Devices, a list of bridges and a state to try the theorems on src/supervisor with.
use edgesec.Common.{
  ltb, refl, true, false, none, some, List, [], ◌∷◌, codes, Mac, mac_eq, ℤ, All, if◌then◌else◌,
  length, arith, replicate,
}
use edgesec.Utils.Net.{Inet}
use edgesec.Utils.IfaceMapper.{ConfigIfinfo}
use edgesec.Supervisor.BridgeList.{
  BridgeList, add_bridge_mac, get_bridge_mac, scan_edges, compare_edge,
}
use edgesec.Supervisor.BridgeList.Edges.{has_edge}
use edgesec.Supervisor.BridgeList.Shape.{IsWellFormed, add_bridge_mac-Valid}
use edgesec.Supervisor.MacMapper.{
  ApConnectionStatus, MacConn, MacConnInfo, hash_find, ap_secret_len,
}
use edgesec.Supervisor.MacMapper.Laws.{Distinct}
use edgesec.Supervisor.MacMapper.Lookup.{FitsIps}
use edgesec.Supervisor.Context.{
  AuthTicket, Call, Context, Env, TicketPtr, SocketType, ClientAddress,
}
use edgesec.Supervisor.Save.Keeps.{Inv}

abbrev pub camera : Mac
camera = record { b0 = 2; b1 = 0; b2 = 0; b3 = 0; b4 = 0; b5 = 17 }

abbrev pub lamp : Mac
lamp = record { b0 = 2; b1 = 0; b2 = 0; b3 = 0; b4 = 0; b5 = 34 }

abbrev pub no_bridges : BridgeList
no_bridges = record { nodes = []; fresh = 0 }

pub no_bridges-IsWellFormed : IsWellFormed no_bridges
unfolding has_edge
no_bridges-IsWellFormed = record {
  below = tt;
  unique = tt;
  symmetric = λ a b. refl;
  loopless = λ a. refl;
}

abbrev pub one_bridge : BridgeList
one_bridge = record {
  nodes =
      record { addr = 1; src_addr = lamp; dst_addr = camera }
      ∷ record { addr = 0; src_addr = camera; dst_addr = lamp }
      ∷ [];
  fresh = 2;
}

pub one_bridge-IsWellFormed : IsWellFormed one_bridge
unfolding add_bridge_mac get_bridge_mac scan_edges compare_edge mac_eq
one_bridge-IsWellFormed =
    add_bridge_mac-Valid true true (some no_bridges) (some camera) (some lamp)
      no_bridges-IsWellFormed

abbrev pub camera_info : MacConnInfo
camera_info = record {
  status = ApConnectionStatus.ap_connected_status;
  vlanid = ℤ.pos 5;
  nat = false;
  allow_connection = false;
  pass = replicate ap_secret_len 0;
  pass_len = 0;
  ip_addr = codes "10.0.5.2";
  ip_sec_addr = [];
  ifname = codes "wlan5";
  label = codes "cam";
  id = codes "id";
  join_timestamp = 8;
}

abbrev pub camera_conn : MacConn
camera_conn = record { mac_addr = camera; info = camera_info }

abbrev pub lamp_conn : MacConn
lamp_conn = record { mac_addr = lamp; info = camera_info }

abbrev pub table : List MacConn
table = camera_conn ∷ []

pub table-Distinct : Distinct table
unfolding hash_find mac_eq
table-Distinct = (refl, tt)

pub table-FitsIps : All FitsIps table
table-FitsIps = ((omega arith, omega arith), tt)

-- A text of seven bytes or more is an address.
abbrev pub inet : Inet
inet = record { pton = λ s. if ltb 6 (length s) then some 1 else none; network = λ s. 10 }

abbrev pub env : Env
env = record {
  inet = inet;
  succeeds = λ t k. true;
  uuid = λ t. codes "fresh";
  random = λ t. 4 ∷ 8 ∷ [];
  timestamp = λ t. 100;
  pid = λ t. 7;
  rand = λ t. 3;
  utarray_find = λ a ps. none;
  utarray_sort = λ ps. ps;
}

abbrev pub wlan : ConfigIfinfo
wlan = record {
  vlanid = ℤ.pos 5;
  ifname = codes "wlan5";
  brname = codes "br5";
  ip_addr = codes "10.0.5.1";
  brd_addr = codes "10.0.5.255";
  subnet_mask = codes "255.255.255.0";
}

abbrev pub context : Context
context = record {
  mac_mapper = table;
  vlan_mapper = record { vlanid = ℤ.pos 5; ifname = codes "wlan5"; capture_pid = 0 } ∷ [];
  allow_all_connections = true;
  allow_all_nat = false;
  exec_capture = true;
  wpa_passphrase = codes "secret";
  wpa_passphrase_len = 6;
  allocate_vlans = true;
  default_open_vlanid = ℤ.pos 0;
  config_ifinfo_array = some (wlan ∷ []);
  subscribers_array = some [];
  bridge_list = some one_bridge;
  ticket = TicketPtr.null;
  trace = [];
}

pub context-Inv : Inv context
context-Inv = record {
  distinct = table-Distinct;
  fits = table-FitsIps;
  bridges = one_bridge-IsWellFormed;
  ticket_ok = tt;
  configured = refl;
  pass_fits = omega arith;
  subscribed = refl;
}

abbrev pub client : ClientAddress
client = record {
  type = SocketType.socket_type_domain;
  len = 10;
  sun_path = codes "/tmp/a";
  sin_addr = [];
  sin_port = 0;
}

abbrev pub udp_client : ClientAddress
udp_client = record {
  type = SocketType.socket_type_udp;
  len = 10;
  sun_path = [];
  sin_addr = 1 ∷ [];
  sin_port = 80;
}

-- A lamp may come, and has a ticket.
abbrev pub ticket : AuthTicket
ticket = record {
  passphrase = codes "1234";
  passphrase_len = 4;
  device_label = codes "lamp";
  vlanid = ℤ.pos 5;
}

abbrev pub closed_context : Context
closed_context = record context { allow_all_connections = false; ticket = TicketPtr.live ticket }

-- No random bytes can be had.
abbrev pub exhausted : Env
exhausted = record env { succeeds = λ t k. elim k [ Call.os_get_random n ↦ false | _ ↦ true ] }

abbrev pub router : Mac
router = record { b0 = 2; b1 = 0; b2 = 0; b3 = 0; b4 = 0; b5 = 51 }
