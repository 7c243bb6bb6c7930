-- ===== src/Supervisor/Requests.antt =====
-- src/supervisor/cmd_processor.c and src/supervisor/supervisor.c: how a request is split into words
-- and given to the handler of its command.
pub mod Safety
pub mod Dispatch
use edgesec.Common.{
  ℕ, ltb, leb, ◌==◌, if◌then◌else◌, Bool, true, false, not, ◌&&◌, Option, none, some, List, [], ◌∷◌,
  ◌++◌, length, take, CString, codes, str_eq, os_strlcpy, Mac, ℤ, Find,
}
use edgesec.Utils.Net.{hwaddr_aton2, os_inet_addrstrlen}
use edgesec.Utils.Strings.{rtrim, split_string_array, string_append_char}
use edgesec.Supervisor.BridgeList.{get_all_bridge_edges}
use edgesec.Supervisor.MacMapper.{MacConn, MacConnInfo, get_mac_mapper, ap_secret_len}
use edgesec.Supervisor.Context.{
  Env, Call, Context, M, ClientAddress, DhcpIpType, ◌>>=◌, ◌>>◌, pure, fail, crash, get,
  unless_fail, succeeds?, attempt, call, must,
}
use edgesec.Supervisor.Save.{is_ipv4}
use edgesec.Supervisor.Network.{
  accept_mac_cmd, deny_mac_cmd, add_nat_cmd, remove_nat_cmd, assign_psk_cmd, clear_psk_cmd,
  add_bridge_mac_cmd, add_bridge_ip_cmd, remove_bridge_cmd, clear_bridges_cmd, list_devices,
  register_ticket_cmd, max_device_label_size,
}
use edgesec.Supervisor.System.{ping_cmd, subscribe_events_cmd, set_ip_cmd}
use edgesec.Supervisor.Texts.{read_vlanid, device_line, bridge_line, cut_line, line_max}
use edgesec.Supervisor.Replies.{
  ok_reply, fail_reply, Handler, reply, answer, write_newline_socket_data, with_mac, with_vlanid,
  on_mac, second_mac,
}
use edgesec.Supervisor.Processor.{
  process_ping_cmd, process_subscribe_events_cmd, process_accept_mac_cmd, process_deny_mac_cmd,
  process_add_nat_cmd, process_remove_nat_cmd, process_clear_bridges_cmd, process_clear_psk_cmd,
  process_assign_psk_cmd, process_get_map_cmd, process_get_all_cmd, process_set_ip_cmd,
  process_add_bridge_cmd, process_remove_bridge_cmd, process_get_bridges_cmd,
  process_register_ticket_cmd,
}

-- The bytes of a buffer up to the first NUL.
unfoldable pub c_string : List ℕ → CString
c_string [] = []
c_string (c ∷ s) = let rest = c_string s in if c == 0 then [] else c ∷ rest

-- The copies of the words are taken to be allocated.
unfoldable pub process_domain_buffer : Env → List ℕ → ℕ → M (List CString)
process_domain_buffer env [] sep = fail
process_domain_buffer env (c ∷ buf) sep = do
  must env Call.os_malloc
  pure (split_string_array (rtrim (c_string (c ∷ buf))) sep)

abbrev pub cmd_delimiter : ℕ
cmd_delimiter = 32

-- The names that get_command_function compares with, in its order.
abbrev pub commands : List (CString × Handler)
commands =
    (codes "PING_SUPERVISOR", process_ping_cmd)
    ∷ (codes "SUBSCRIBE_EVENTS", process_subscribe_events_cmd)
    ∷ (codes "ACCEPT_MAC", process_accept_mac_cmd)
    ∷ (codes "DENY_MAC", process_deny_mac_cmd)
    ∷ (codes "ADD_NAT", process_add_nat_cmd)
    ∷ (codes "REMOVE_NAT", process_remove_nat_cmd)
    ∷ (codes "ASSIGN_PSK", process_assign_psk_cmd)
    ∷ (codes "GET_MAP", process_get_map_cmd)
    ∷ (codes "GET_ALL", process_get_all_cmd)
    ∷ (codes "SET_IP", process_set_ip_cmd)
    ∷ (codes "ADD_BRIDGE", process_add_bridge_cmd)
    ∷ (codes "REMOVE_BRIDGE", process_remove_bridge_cmd)
    ∷ (codes "CLEAR_BRIDGE", process_clear_bridges_cmd)
    ∷ (codes "GET_BRIDGES", process_get_bridges_cmd)
    ∷ (codes "REGISTER_TICKET", process_register_ticket_cmd)
    ∷ (codes "CLEAR_PSK", process_clear_psk_cmd)
    ∷ []

unfoldable pub first_command : CString → List (CString × Handler) → Option Handler
first_command cmd [] = none
first_command cmd ((name, cfn) ∷ rest) =
    if str_eq cmd name then some cfn else first_command cmd rest

-- NULL, `none`, for an unknown command.
unfoldable pub get_command_function : CString → Option Handler
unfolding first_command
get_command_function cmd = first_command cmd commands

-- An unknown command gets no answer.
unfoldable pub run_handler : Env → ClientAddress → List CString → Option Handler → M (Unit {0})
run_handler env addr args none = pure tt
run_handler env addr args (some cfn) = cfn env addr args

-- The first of no words is a NULL pointer that is followed.
unfoldable pub run_args : Env → ClientAddress → List CString → M (Unit {0})
unfolding run_handler
run_args env addr [] = crash
run_args env addr (arg ∷ args) = run_handler env addr (arg ∷ args) (get_command_function arg)

-- The bytes `received` and the client's address come from the socket.
unfoldable pub process_received_data : Env → ClientAddress → List ℕ → M (Unit {0})
process_received_data env addr received = do
  must env Call.os_malloc
  args ← process_domain_buffer env received cmd_delimiter
  run_args env addr args
