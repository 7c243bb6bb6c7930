-- ===== src/Dns/Bridges.antt =====
-- src/dns/mdns_service.c: the requests for a bridge that the mDNS service sends to the supervisor,
-- when it captures a packet between two addresses of which one has answered mDNS queries.
pub mod Once
pub mod Asked
pub mod Request
use edgesec.Common.{
  ℕ, if◌then◌else◌, Bool, true, false, not, ◌&&◌, Option, none, some, List, [], ◌∷◌, ◌++◌, CString,
  codes, ℤ,
}
use edgesec.Common.Results.{Result, ◌>>=◌}
use edgesec.Utils.Net.{Inet}
use edgesec.Utils.Net.Address.{ip4_2_buf}
use edgesec.Utils.StringQueue.{
  StringQueue, init_string_queue, push_string_queue, concat_string_queue,
}
use edgesec.Dns.MdnsMapper.{MdnsRequestType, check_mdns_mapper_req}
use edgesec.Dns.CommandMapper.{put_command_mapper, check_command_mapper}
use edgesec.Dns.Reflector.{MdnsContext}
use edgesec.Dns.Handler.{or_return, or_return_none}

-- CMD_ADD_BRIDGE, and CMD_DELIMITER as a string.
abbrev pub cmd_add_bridge : CString
cmd_add_bridge = codes "ADD_BRIDGE"

abbrev pub delim_str : CString
delim_str = 32 ∷ []

-- A push on NULL fails, so a push that fails fails the pushes behind it.
unfoldable pub create_domain_command : CString → CString → Option CString
unfolding init_string_queue push_string_queue concat_string_queue
create_domain_command src_ip dst_ip =
    let q0 = some (init_string_queue (ℤ.negsuc 0)) in
    let q1 = push_string_queue q0 (some cmd_add_bridge) in
    let q2 = push_string_queue q1 (some delim_str) in
    let q3 = push_string_queue q2 (some src_ip) in
    let q4 = push_string_queue q3 (some delim_str) in
    let q5 = push_string_queue q4 (some dst_ip) in concat_string_queue q5 (ℤ.negsuc 0)

-- struct tuple_packet: the two addresses of a PACKET_IP4, and nothing of the other types.
pub data TuplePacket : Type 0 where
  packet_ip4 : CString → CString → TuplePacket
  packet_other : TuplePacket

-- write_domain_data_s to the supervisor's socket, with the commands written before.
abbrev pub Write : Type 0
Write = List CString → CString → Bool

-- The status (`true` is 0, `false` is -1), the context, and the commands written so far.
abbrev pub Status : Type 0
Status = Bool × MdnsContext × List CString

unfoldable pub with_commands : MdnsContext → List ℕ → MdnsContext
with_commands context commands = record {
  rif4 = context.rif4;
  rif6 = context.rif6;
  imap = context.imap;
  command_mapper = commands;
  reflect_ip4 = context.reflect_ip4;
  reflect_ip6 = context.reflect_ip6;
}

unfoldable pub write_command : Write → MdnsContext → CString → List CString → Status
write_command write context domain out =
    if write out domain then (true, context, out ++ domain ∷ []) else (false, context, out)

-- A command that is not in the mapper is put there, and written.
unfoldable pub send_once : Write → MdnsContext → CString → List CString → Result Status
unfolding or_return_none check_command_mapper put_command_mapper with_commands write_command
send_once write context domain out =
    or_return_none (check_command_mapper (some context.command_mapper) (some domain))
      (false, context, out)
      λ ret.
        if ret
        then Result.ok (true, context, out)
        else or_return_none (put_command_mapper (some context.command_mapper) (some domain))
            (false, context, out)
            λ commands. Result.ok (write_command write (with_commands context commands) domain out)

unfoldable pub send_bridge_command :
    Inet → Write → MdnsContext → List CString → TuplePacket → Result Status
unfolding or_return or_return_none ip4_2_buf check_mdns_mapper_req create_domain_command send_once
send_bridge_command inet write context out TuplePacket.packet_other = Result.ok (true, context, out)
send_bridge_command inet write context out (TuplePacket.packet_ip4 ip_src ip_dst) =
    let failed : Status = (false, context, out) in
    or_return (ip4_2_buf inet (some ip_src)) failed λ sip.
      or_return (ip4_2_buf inet (some ip_dst)) failed λ dip.
        or_return_none
          (check_mdns_mapper_req (some context.imap) (some sip) MdnsRequestType.mdns_request_answer)
          failed
          λ ret.
            or_return_none
              (check_mdns_mapper_req (some context.imap) (some dip)
                MdnsRequestType.mdns_request_answer)
              failed
              λ retd.
                if not ret && not retd
                then Result.ok (true, context, out)
                else or_return_none (create_domain_command ip_src ip_dst) failed
                    λ domain. send_once write context domain out

-- The loop of mdns_pcap_callback over the tuples that extract_packets gives: a status of -1 is
-- logged.
unfoldable pub mdns_pcap_callback :
    Inet
    → Write
    → MdnsContext
    → List CString
    → List TuplePacket
    → Result (MdnsContext × List CString)
unfolding send_bridge_command
mdns_pcap_callback inet write context out [] = Result.ok (context, out)
mdns_pcap_callback inet write context out (p ∷ tp_array) = do
  (ok, context', out') ← send_bridge_command inet write context out p
  mdns_pcap_callback inet write context' out' tp_array
