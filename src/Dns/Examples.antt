-- ===== src/Dns/Examples.antt =====
-- The theorems on src/dns at concrete inputs.
use edgesec.Common.{
  ℕ, ◌≡◌, refl, true, false, if◌then◌else◌, Option, none, some, List, [], ◌∷◌, CString, codes,
  str_eq, ℤ,
}
use edgesec.Common.Results.{Result}
use edgesec.Utils.Hash.{md_hash}
use edgesec.Utils.Net.{Inet, find_slash, validate_ipv4_string}
use edgesec.Dns.MdnsMapper.{
  MdnsRequestType, request_eq, MdnsListInfo, MdnsConn, put_mdns_info, check_mdns_mapper_req,
}
use edgesec.Dns.MdnsMapper.Laws.{is_known, put_mdns_info-check}
use edgesec.Dns.Reflector.{ReflectionIf, MdnsContext, Sent, Datagram}
use edgesec.Dns.Handler.{Family, Received, eloop_reflector_handler}
use edgesec.Dns.Handler.Safety.{
  Reflects, scope_of, reflects, received, eloop_reflector_handler-Reflects,
}
use edgesec.Dns.Bridges.{
  TuplePacket, Write, create_domain_command, send_bridge_command, mdns_pcap_callback,
}
use edgesec.Dns.Bridges.Once.{IsOnce, Recorded, mdns_pcap_callback-Recorded}
use edgesec.Dns.Bridges.Asked.{IsAsked, send_bridge_command-IsAsked}
use edgesec.Dns.Bridges.Request.{IsWord, request_words, process_received_data-create_domain_command}
use edgesec.Utils.Strings.Split.{has_byte}
use edgesec.Utils.Strings.Trim.{has_blank}
use edgesec.Supervisor.Context.{
  Env, Call, Context, SocketType, ClientAddress, TicketPtr, ◌>>◌, must,
}
use edgesec.Supervisor.Processor.{process_add_bridge_cmd}
use edgesec.Supervisor.Requests.{process_received_data}

-- Two addresses are known to inet_pton.
abbrev pton : CString → Option ℕ
pton s =
    if str_eq s (codes "10.0.1.7")
    then some 0x0701000a
    else if str_eq s (codes "10.0.2.9")
    then some 0x0902000a
    else none

abbrev inet : Inet
inet = record { pton = pton; network = λ s. 0 }

abbrev camera : List ℕ
camera = 10 ∷ 0 ∷ 1 ∷ 7 ∷ []

abbrev camera_answer : MdnsListInfo
camera_answer = record {
  request = MdnsRequestType.mdns_request_answer;
  ttl = some 60;
  rrtype = some 1;
  qtype = none;
  name = some (codes "cam.");
}

abbrev table : List MdnsConn
table = record { key = camera; value = camera_answer ∷ [] } ∷ []

put_run : put_mdns_info [] camera camera_answer ≡ some table
unfolding put_mdns_info
put_run = refl

put_mdns_info-check_example :
    check_mdns_mapper_req (some table) (some camera) MdnsRequestType.mdns_request_answer ≡ some true
unfolding request_eq is_known str_eq
put_mdns_info-check_example =
    put_mdns_info-check [] table camera camera camera_answer MdnsRequestType.mdns_request_answer
      put_run

abbrev lan : List ReflectionIf
lan = record { recv_fd = ℤ.pos 5; send_fd = ℤ.pos 6; ifindex = 3; ifname = codes "br1" } ∷ []

abbrev context : MdnsContext
context = record {
  rif4 = lan;
  rif6 = [];
  imap = table;
  command_mapper = [];
  reflect_ip4 = true;
  reflect_ip6 = false;
}

-- A header with no queries and no answers.
abbrev empty_message : Received
empty_message = record {
  bytes_available = some 12;
  num_bytes = some 12;
  buf = 0 ∷ 0 ∷ 0 ∷ 0 ∷ 0 ∷ 0 ∷ 0 ∷ 0 ∷ 0 ∷ 0 ∷ 0 ∷ 0 ∷ [];
  family = Family.af_inet;
  peer_addr_str = some (codes "10.0.1.7");
}

abbrev copy : Datagram
copy = record { send_fd = ℤ.pos 6; scope_id = 0; send_buf = empty_message.buf }

handler_run :
    eloop_reflector_handler 1 inet (λ out d. Sent.sent) lan context empty_message
    ≡ Result.ok (context, copy ∷ [])
unfolding eloop_reflector_handler validate_ipv4_string find_slash str_eq
handler_run = refl

eloop_reflector_handler-Reflects_example :
    Reflects
      (λ out d. Sent.sent)
      (scope_of Family.af_inet)
      (received empty_message)
      (reflects Family.af_inet context)
      lan
      context
      (context, copy ∷ [])
eloop_reflector_handler-Reflects_example =
    eloop_reflector_handler-Reflects 1 inet (λ out d. Sent.sent) lan context empty_message
      handler_run

abbrev bridge : CString
bridge = codes "ADD_BRIDGE 10.0.1.7 10.0.2.9"

abbrev packet : TuplePacket
packet = TuplePacket.packet_ip4 (codes "10.0.1.7") (codes "10.0.2.9")

abbrev asked_context : MdnsContext
asked_context = record {
  rif4 = lan;
  rif6 = [];
  imap = table;
  command_mapper = md_hash bridge ∷ [];
  reflect_ip4 = true;
  reflect_ip6 = false;
}

always : Write
always out domain = true

-- The same packet twice gives one request.
callback_run :
    mdns_pcap_callback inet always context [] (packet ∷ packet ∷ [])
    ≡ Result.ok (asked_context, bridge ∷ [])
unfolding mdns_pcap_callback always validate_ipv4_string find_slash str_eq
callback_run = refl

fresh-Recorded : Recorded [] []
unfolding IsOnce
fresh-Recorded = record { known = tt; once = tt }

mdns_pcap_callback-Recorded_example : Recorded (md_hash bridge ∷ []) (bridge ∷ [])
mdns_pcap_callback-Recorded_example =
    mdns_pcap_callback-Recorded inet always context [] (packet ∷ packet ∷ []) fresh-Recorded
      callback_run

send_run :
    send_bridge_command inet always context [] packet ≡ Result.ok (true, asked_context, bridge ∷ [])
unfolding send_bridge_command always validate_ipv4_string find_slash str_eq
send_run = refl

send_bridge_command-IsAsked_example :
    IsAsked inet context [] (codes "10.0.1.7") (codes "10.0.2.9") (bridge ∷ [])
send_bridge_command-IsAsked_example =
    send_bridge_command-IsAsked inet always context [] (codes "10.0.1.7") (codes "10.0.2.9")
      send_run

-- A supervisor with no devices, for which every call succeeds.
abbrev env : Env
env = record {
  inet = inet;
  succeeds = λ t k. true;
  uuid = λ t. [];
  random = λ t. [];
  timestamp = λ t. 0;
  pid = λ t. 0;
  rand = λ t. 0;
  utarray_find = λ a ps. none;
  utarray_sort = λ ps. ps;
}

abbrev supervisor : Context
supervisor = record {
  mac_mapper = [];
  vlan_mapper = [];
  allow_all_connections = false;
  allow_all_nat = false;
  exec_capture = false;
  wpa_passphrase = [];
  wpa_passphrase_len = 0;
  allocate_vlans = false;
  default_open_vlanid = ℤ.pos 0;
  config_ifinfo_array = none;
  subscribers_array = none;
  bridge_list = none;
  ticket = TicketPtr.null;
  trace = [];
}

abbrev mdns_client : ClientAddress
mdns_client = record {
  type = SocketType.socket_type_domain;
  len = 2;
  sun_path = [];
  sin_addr = [];
  sin_port = 0;
}

camera-IsWord : IsWord (codes "10.0.1.7")
unfolding has_byte has_blank
camera-IsWord = (refl, refl, λ e. cc)

printer-IsWord : IsWord (codes "10.0.2.9")
unfolding has_byte has_blank
printer-IsWord = (refl, refl, λ e. cc)

bridge_run : create_domain_command (codes "10.0.1.7") (codes "10.0.2.9") ≡ some bridge
unfolding create_domain_command
bridge_run = refl

process_received_data-create_domain_command_example :
    process_received_data env mdns_client bridge supervisor
    ≡ (do
      must env Call.os_malloc
      must env Call.os_malloc
      process_add_bridge_cmd env mdns_client (request_words (codes "10.0.1.7") (codes "10.0.2.9")))
        supervisor
process_received_data-create_domain_command_example =
    process_received_data-create_domain_command env mdns_client (codes "10.0.1.7")
      (codes "10.0.2.9") bridge supervisor camera-IsWord printer-IsWord bridge_run
