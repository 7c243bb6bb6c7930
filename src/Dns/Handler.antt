-- ===== src/Dns/Handler.antt =====
-- src/dns/mdns_service.c: the handler of an mDNS message that arrives on an interface.
pub mod Returns
pub mod Safety
use edgesec.Common.{ℕ, ltb, if◌then◌else◌, Option, none, some, List, [], ◌∷◌, CString, take}
use edgesec.Common.Results.{Result}
use edgesec.Utils.Net.{Inet}
use edgesec.Utils.Net.Address.{ip4_2_buf}
use edgesec.Capture.MdnsDecoder.{
  MdnsQueryEntry, MdnsAnswerEntry, mdns_header_size, decode_mdns_header, decode_mdns_queries,
  decode_mdns_answers,
}
use edgesec.Dns.MdnsMapper.{MdnsConn, put_mdns_query_mapper, put_mdns_answer_mapper}
use edgesec.Dns.Reflector.{
  ReflectionIf, MdnsContext, Datagram, Sendto, forward_reflector_if4, forward_reflector_if6,
}

-- The family of the sender's address.
pub data Family : Type 0 where
  af_inet af_inet6 af_other : Family

-- What the socket gives: FIONREAD, the block after read_socket_data with the number of bytes read,
-- and the sender as inet_ntop writes it. `none` is a call that failed.
pub record Received : Type 0 where
  pub bytes_available : Option ℕ
  pub num_bytes : Option ℕ
  pub buf : List ℕ
  pub family : Family
  pub peer_addr_str : Option CString

-- sockaddr2str, without the port.
unfoldable pub sockaddr2str : Received → Option CString
sockaddr2str r = elim r.family [
  | Family.af_inet6 ↦ r.peer_addr_str
  | Family.af_inet ↦ r.peer_addr_str
  | Family.af_other ↦ none
]

-- The queries are put on an IP4 sender only; one that fails is passed over.
unfoldable pub put_queries : Family → List ℕ → List MdnsQueryEntry → List MdnsConn → List MdnsConn
unfolding put_mdns_query_mapper
put_queries family qip [] imap = imap
put_queries Family.af_inet qip (qel ∷ queries) imap =
    elim (put_mdns_query_mapper (some imap) (some qip) (some qel)) [
      | none ↦ put_queries Family.af_inet qip queries imap
      | some imap' ↦ put_queries Family.af_inet qip queries imap'
    ]
put_queries family qip (qel ∷ queries) imap = put_queries family qip queries imap

unfoldable pub put_answers : List MdnsAnswerEntry → List MdnsConn → List MdnsConn
unfolding put_mdns_answer_mapper
put_answers [] imap = imap
put_answers (ael ∷ answers) imap =
    elim (put_mdns_answer_mapper (some imap) (some ael.ip) (some ael)) [
      | none ↦ put_answers answers imap
      | some imap' ↦ put_answers answers imap'
    ]

-- The bytes of an IP4 sender; those of an IP6 one are not used.
unfoldable pub sender_ip : Inet → Family → CString → Result (List ℕ)
unfolding ip4_2_buf
sender_ip inet Family.af_inet text = ip4_2_buf inet (some text)
sender_ip inet family text = Result.ok []

-- `return` where the call is not 0.
unfoldable pub or_return {ℓ κ} :
    {A : Type ℓ} {B : Type κ} → Result A → B → (A → Result B) → Result B
or_return (Result.ok a) b f = f a
or_return Result.err b f = Result.ok b
or_return Result.fault b f = Result.fault
or_return Result.stuck b f = Result.stuck

unfoldable pub or_return_none {ℓ κ} :
    {A : Type ℓ} {B : Type κ} → Option A → B → (A → Result B) → Result B
or_return_none none b f = Result.ok b
or_return_none (some a) b f = f a

unfoldable pub with_imap : MdnsContext → List MdnsConn → MdnsContext
with_imap context imap = record {
  rif4 = context.rif4;
  rif6 = context.rif6;
  imap = imap;
  command_mapper = context.command_mapper;
  reflect_ip4 = context.reflect_ip4;
  reflect_ip6 = context.reflect_ip6;
}

-- `rif` is the list that the socket was registered with.
unfoldable pub forward : Sendto → Family → MdnsContext → List ℕ → List ReflectionIf → List Datagram
unfolding forward_reflector_if4 forward_reflector_if6
forward sendto Family.af_inet6 context bytes rif =
    if context.reflect_ip6 then (forward_reflector_if6 sendto bytes rif []).1 else []
forward sendto Family.af_inet context bytes rif =
    if context.reflect_ip4 then (forward_reflector_if4 sendto bytes rif []).1 else []
forward sendto Family.af_other context bytes rif = []

-- What the handler does with the bytes, for a sender `qip`.
unfoldable pub decode_and_forward :
    ℕ
    → Sendto
    → List ReflectionIf
    → MdnsContext
    → Received
    → List ℕ
    → ℕ
    → Result (MdnsContext × List Datagram)
unfolding or_return decode_mdns_header decode_mdns_queries decode_mdns_answers put_queries
    put_answers with_imap forward
decode_and_forward fuel sendto rif context r qip num_bytes =
    or_return (decode_mdns_header r.buf) (context, [])
      λ header.
        if ltb num_bytes mdns_header_size
        then Result.ok (context, [])
        else or_return
            (decode_mdns_queries fuel r.buf num_bytes mdns_header_size header.nqueries [])
            (context, [])
            λ (first, queries).
              or_return (decode_mdns_answers fuel r.buf num_bytes first header.nanswers [])
                (context, [])
                λ (end, answers).
                  let context' =
                    with_imap context
                      (put_answers answers (put_queries r.family qip queries context.imap)) in
                  Result.ok (context', forward sendto r.family context' (take num_bytes r.buf) rif)

unfoldable pub eloop_reflector_handler :
    ℕ
    → Inet
    → Sendto
    → List ReflectionIf
    → MdnsContext
    → Received
    → Result (MdnsContext × List Datagram)
unfolding or_return or_return_none sockaddr2str sender_ip decode_and_forward
eloop_reflector_handler fuel inet sendto rif context r =
    or_return_none r.bytes_available (context, [])
      λ bytes_available.
        or_return_none r.num_bytes (context, [])
          λ num_bytes.
            or_return_none (sockaddr2str r) (context, [])
              λ peer_addr_str.
                or_return (sender_ip inet r.family peer_addr_str) (context, [])
                  λ qip. decode_and_forward fuel sendto rif context r qip num_bytes
