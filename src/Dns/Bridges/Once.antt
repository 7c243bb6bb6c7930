-- ===== src/Dns/Bridges/Once.antt =====
-- The mDNS service of src/dns/mdns_service.c does not repeat a request.
use edgesec.Common.{
  ℕ, ◌==◌, ◌≡◌, refl, ap, ◌∙◌, inl, inr, true, false, not, ◌&&◌, ◌||◌, some, List, [], ◌∷◌, ◌++◌,
  map, CString, All, Bool-cases, arith, ==_iff, ==_refl, All-append, subst,
}
use edgesec.Common.Results.{Result, bind-ok}
use edgesec.Utils.Hash.{md_hash}
use edgesec.Utils.Net.{Inet}
use edgesec.Utils.Net.Address.{ip4_2_buf}
use edgesec.Dns.MdnsMapper.{check_mdns_mapper_req}
use edgesec.Dns.CommandMapper.{has_key, put_command_mapper, check_command_mapper}
use edgesec.Dns.Reflector.{MdnsContext}
use mathlib.Core.List.{map-append}
use edgesec.Dns.Handler.Returns.{Returns, or_return-Returns, or_return_none-Returns, if-Returns}
use edgesec.Dns.Handler.{or_return_none}
use edgesec.Dns.Bridges.{
  TuplePacket, Write, Status, create_domain_command, with_commands, write_command, send_once,
  send_bridge_command, mdns_pcap_callback,
}

-- No command has the hash of another.
unfoldable pub IsOnce : List CString → Type 0
IsOnce [] = Unit
IsOnce (s ∷ out) = (has_key (md_hash s) (map md_hash out) ≡ false) × IsOnce out

-- The commands written are in the mapper, and each was written once.
pub record Recorded (commands : List ℕ) (out : List CString) : Type 0 where
  pub known : All (λ s. has_key (md_hash s) commands ≡ true) out
  pub once : IsOnce out

has_key-append :
    (key : ℕ) (hmap : List ℕ) (n : ℕ)
    → has_key key (hmap ++ n ∷ []) ≡ (has_key key hmap || (n == key))
unfolding has_key
has_key-append key [] n = ground arith
has_key-append key (s ∷ hmap) n = ground (arith, has_key-append key hmap n)

known-append :
    (commands : List ℕ) (n : ℕ) (out : List CString)
    → All (λ s. has_key (md_hash s) commands ≡ true) out
    → All (λ s. has_key (md_hash s) (commands ++ n ∷ []) ≡ true) out
known-append commands n [] h = tt
known-append commands n (s ∷ out) h =
    (ground (arith, has_key-append (md_hash s) commands n, h.0), known-append commands n out h.1)

-- A command whose hash is not in the mapper is none of those written.
IsOnce-append :
    (commands : List ℕ) (domain : CString) (out : List CString)
    → All (λ s. has_key (md_hash s) commands ≡ true) out
    → has_key (md_hash domain) commands ≡ false
    → IsOnce out
    → IsOnce (out ++ domain ∷ [])
unfolding IsOnce has_key
IsOnce-append commands domain [] h fresh once = (refl, tt)
IsOnce-append commands domain (s ∷ out) h fresh once =
    (later, IsOnce-append commands domain out h.1 fresh once.1)
  where
    differs : (md_hash domain == md_hash s) ≡ false
    differs = elim (Bool-cases (md_hash domain == md_hash s)) [
      | inl same ↦
          cc (
            h.0,
            fresh,
            ap (λ k. has_key k commands) ((==_iff (md_hash domain) (md_hash s)).0 same),
          )
      | inr other ↦ other
    ]

    later : has_key (md_hash s) (map md_hash (out ++ domain ∷ [])) ≡ false
    later =
        ap (has_key (md_hash s)) (map-append md_hash out (domain ∷ []))
        ∙ has_key-append (md_hash s) (map md_hash out) (md_hash domain)
        ∙ rw (once.0, differs) refl

write-Recorded :
    (write : Write) (context : MdnsContext) (domain : CString) (out : List CString)
    → Recorded context.command_mapper out
    → has_key (md_hash domain) context.command_mapper ≡ false
    → let (ok, context', out') =
        write_command write
          (with_commands context (context.command_mapper ++ md_hash domain ∷ []))
          domain
          out in
      Recorded context'.command_mapper out'
unfolding write_command with_commands
write-Recorded write context domain out r fresh = elim (Bool-cases (write out domain)) [
  | inl written ↦ rw written (record {
    known = All-append _ out (domain ∷ []) kept (
      has_key-append (md_hash domain) context.command_mapper (md_hash domain)
          ∙ rw (fresh, ==_refl (md_hash domain)) refl,
      tt,
    );
    once = IsOnce-append context.command_mapper domain out r.known fresh r.once;
  })
  | inr failed ↦ rw failed (record { known = kept; once = r.once })
]
  where
    kept : All (λ s. has_key (md_hash s) (context.command_mapper ++ md_hash domain ∷ []) ≡ true) out
    kept = known-append context.command_mapper (md_hash domain) out r.known

-- A status whose commands are recorded.
abbrev Good : Status → Type 0
Good s = Recorded s.1.command_mapper s.2

send_once-Good :
    (write : Write) (context : MdnsContext) (domain : CString) (out : List CString)
    → Recorded context.command_mapper out
    → Returns Good (send_once write context domain out)
unfolding send_once check_command_mapper put_command_mapper or_return_none
send_once-Good write context domain out r =
    elim (Bool-cases (has_key (md_hash domain) context.command_mapper)) [
      | inl known ↦ rw known r
      | inr fresh ↦ rw fresh (write-Recorded write context domain out r fresh)
    ]

send_bridge_command-Good :
    (inet : Inet) (write : Write) (context : MdnsContext) (out : List CString) (p : TuplePacket)
    → Recorded context.command_mapper out
    → Returns Good (send_bridge_command inet write context out p)
unfolding send_bridge_command
send_bridge_command-Good inet write context out TuplePacket.packet_other r = r
send_bridge_command-Good inet write context out (TuplePacket.packet_ip4 ip_src ip_dst) r =
    or_return-Returns Good (ip4_2_buf inet (some ip_src)) _ _ r λ sip es.
      or_return-Returns Good (ip4_2_buf inet (some ip_dst)) _ _ r λ dip ed.
        or_return_none-Returns Good (check_mdns_mapper_req (some context.imap) (some sip) _) _ _ r
          λ ret e.
            or_return_none-Returns Good (check_mdns_mapper_req (some context.imap) (some dip) _) _ _
              r
              λ retd e'. if-Returns Good (not ret && not retd) _ _ r (
                or_return_none-Returns Good (create_domain_command ip_src ip_dst)
                  (false, context, out) _ r λ domain e''. send_once-Good write context domain out r)

-- Whatever packets are captured, one after another, from a state in which each command written is
-- recorded in the mapper and was written once, mdns_pcap_callback keeps it so: no request for a
-- bridge is written twice.
pub mdns_pcap_callback-Recorded :
    (inet : Inet) (write : Write) (context : MdnsContext) (out : List CString)
    (tp_array : List TuplePacket) {context' : MdnsContext} {out' : List CString}
    → Recorded context.command_mapper out
    → mdns_pcap_callback inet write context out tp_array ≡ Result.ok (context', out')
    → Recorded context'.command_mapper out'
unfolding mdns_pcap_callback
mdns_pcap_callback-Recorded inet write context out [] {context'} {out'} r run =
    let same : context ≡ context' = cc run in
    let same_out : out ≡ out' = cc run in
    subst (λ o. Recorded context'.command_mapper o) same_out
      (subst (λ c. Recorded c.command_mapper out) same r)
mdns_pcap_callback-Recorded inet write context out (p ∷ tp_array) r run =
    let (s, sent, rest) = bind-ok (send_bridge_command inet write context out p) _ run in
    mdns_pcap_callback-Recorded inet write s.1 s.2 tp_array
      (subst (Returns Good) sent (send_bridge_command-Good inet write context out p r)) rest
