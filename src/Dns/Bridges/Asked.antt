-- ===== src/Dns/Bridges/Asked.antt =====
-- When the mDNS service of src/dns/mdns_service.c asks for a bridge.
use edgesec.Common.{
  ℕ, ◌≡◌, inl, inr, if◌then◌else◌, Bool, true, false, not, ◌&&◌, ◌||◌, some, List, [], ◌∷◌, ◌++◌,
  CString, Bool-cases, subst, arith,
}
use edgesec.Common.Results.{Result}
use edgesec.Utils.Hash.{md_hash}
use edgesec.Utils.Net.{Inet}
use edgesec.Utils.Net.Address.{ip4_2_buf}
use edgesec.Dns.MdnsMapper.{MdnsRequestType, check_mdns_mapper_req}
use edgesec.Dns.MdnsMapper.Laws.{is_known, check_mdns_mapper_req-is_known}
use edgesec.Dns.CommandMapper.{has_key, put_command_mapper, check_command_mapper}
use edgesec.Dns.Reflector.{MdnsContext}
use edgesec.Dns.Handler.{or_return_none}
use edgesec.Dns.Handler.Returns.{Returns, or_return-Returns, or_return_none-Returns}
use edgesec.Dns.Bridges.{
  TuplePacket, Write, Status, create_domain_command, write_command, send_once, send_bridge_command,
}

-- At least one of two addresses has answered an mDNS query.
abbrev pub has_answered : MdnsContext → List ℕ → List ℕ → Bool
has_answered context sip dip =
    is_known context.imap sip MdnsRequestType.mdns_request_answer
    || is_known context.imap dip MdnsRequestType.mdns_request_answer

-- The commands are as before, or the one for these addresses is behind them, and then one of the
-- addresses has answered.
pub data IsAsked (inet : Inet) (context : MdnsContext) (out : List CString)
    (ip_src ip_dst : CString) : List CString → Type 0 where
  silent : IsAsked inet context out ip_src ip_dst out
  asked :
      {sip dip : List ℕ} {domain : CString}
      → ip4_2_buf inet (some ip_src) ≡ Result.ok sip
      → ip4_2_buf inet (some ip_dst) ≡ Result.ok dip
      → has_answered context sip dip ≡ true
      → create_domain_command ip_src ip_dst ≡ some domain
      → IsAsked inet context out ip_src ip_dst (out ++ domain ∷ [])

module _ (inet : Inet) (write : Write) (context : MdnsContext) (out : List CString)
    (ip_src ip_dst : CString) where
  abbrev Good : Status → Type 0
  Good s = IsAsked inet context out ip_src ip_dst s.2

  send_once-Good :
      (domain : CString)
      → Good (true, context, out ++ domain ∷ [])
      → Returns Good (send_once write context domain out)
  unfolding send_once check_command_mapper put_command_mapper or_return_none write_command
  send_once-Good domain it = elim (Bool-cases (has_key (md_hash domain) context.command_mapper)) [
    | inl known ↦ rw known IsAsked.silent
    | inr fresh ↦ elim (Bool-cases (write out domain)) [
      | inl written ↦ rw (fresh, written) it
      | inr failed ↦ rw (fresh, failed) IsAsked.silent
    ]
  ]

  ask :
      (sip dip : List ℕ)
      → ip4_2_buf inet (some ip_src) ≡ Result.ok sip
      → ip4_2_buf inet (some ip_dst) ≡ Result.ok dip
      → has_answered context sip dip ≡ true
      → Returns Good (
          or_return_none
            (create_domain_command ip_src ip_dst)
            (false, context, out)
            λ domain. send_once write context domain out)
  ask sip dip es ed answered =
      or_return_none-Returns Good (create_domain_command ip_src ip_dst) (false, context, out) _
        IsAsked.silent λ domain ec. send_once-Good domain (IsAsked.asked es ed answered ec)

  tested :
      (sip dip : List ℕ) (ret retd : Bool)
      → ip4_2_buf inet (some ip_src) ≡ Result.ok sip
      → ip4_2_buf inet (some ip_dst) ≡ Result.ok dip
      → check_mdns_mapper_req (some context.imap) (some sip) MdnsRequestType.mdns_request_answer
        ≡ some ret
      → check_mdns_mapper_req (some context.imap) (some dip) MdnsRequestType.mdns_request_answer
        ≡ some retd
      → Returns Good (
          if not ret && not retd
          then Result.ok (true, context, out)
          else or_return_none
              (create_domain_command ip_src ip_dst)
              (false, context, out)
              λ domain. send_once write context domain out)
  tested sip dip false false es ed er er' = IsAsked.silent
  tested sip dip true retd es ed er er' = ask sip dip es ed (
      ground (
        arith,
        check_mdns_mapper_req-is_known context.imap sip MdnsRequestType.mdns_request_answer,
      ))
  tested sip dip false true es ed er er' = ask sip dip es ed (
      ground (
        arith,
        check_mdns_mapper_req-is_known context.imap dip MdnsRequestType.mdns_request_answer,
      ))

  -- The commands that send_bridge_command has written, when it returns on a packet of IP4, are those
  -- from before, or besides the request for the two addresses of the packet; it writes that only if
  -- put_mdns_answer_mapper has recorded an answer of one of the two.
  pub send_bridge_command-IsAsked :
      {status : Status}
      → send_bridge_command inet write context out (TuplePacket.packet_ip4 ip_src ip_dst)
        ≡ Result.ok status
      → IsAsked inet context out ip_src ip_dst status.2
  unfolding send_bridge_command
  send_bridge_command-IsAsked run = subst (Returns Good) run (
      or_return-Returns Good (ip4_2_buf inet (some ip_src)) _ _ IsAsked.silent λ sip es.
        or_return-Returns Good (ip4_2_buf inet (some ip_dst)) _ _ IsAsked.silent λ dip ed.
          or_return_none-Returns Good (check_mdns_mapper_req (some context.imap) (some sip) _)
            (false, context, out) _ IsAsked.silent
            λ ret er.
              or_return_none-Returns Good (check_mdns_mapper_req (some context.imap) (some dip) _)
                (false, context, out) _ IsAsked.silent
                λ retd er'. tested sip dip ret retd es ed er er')
