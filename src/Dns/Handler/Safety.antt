-- ===== src/Dns/Handler/Safety.antt =====
-- What the handler of src/dns/mdns_service.c changes and sends.
use edgesec.Common.{
  ℕ, ◌≤◌, ◌≡◌, refl, sym, subst, ◌⊎◌, inl, inr, if◌then◌else◌, Bool, true, false, none, some, List,
  [], length, ltb, All, take, arith,
}
use edgesec.Common.Results.{Result}
use edgesec.Utils.Net.{Inet}
use edgesec.Capture.MdnsDecoder.{
  mdns_header_size, decode_mdns_header, decode_mdns_queries, decode_mdns_answers,
}
use edgesec.Dns.MdnsMapper.{MdnsConn}
use edgesec.Dns.Reflector.{ReflectionIf, MdnsContext, Datagram, Sendto}
use edgesec.Dns.Reflector.Forward.{
  Copies, forward_reflector_if4-Copies, forward_reflector_if6-Copies,
}
use edgesec.Dns.Reflector.Each.{
  ToEach, Adds, forward_reflector_if4-Adds, forward_reflector_if6-Adds,
}
use edgesec.Dns.Handler.Returns.{Returns, or_return-Returns, or_return_none-Returns, if-Returns}
use edgesec.Dns.Handler.{
  Family, Received, sockaddr2str, sender_ip, with_imap, forward, decode_and_forward,
  eloop_reflector_handler,
}

-- Whether the messages of the family are reflected.
unfoldable pub reflects : Family → MdnsContext → Bool
reflects Family.af_inet6 context = context.reflect_ip6
reflects Family.af_inet context = context.reflect_ip4
reflects Family.af_other context = false

-- The bytes that were read.
unfoldable pub received : Received → List ℕ
received r = elim r.num_bytes [ none ↦ [] | some n ↦ take n r.buf ]

-- The scope of the group's address, which is the interface for IPv6.
abbrev pub scope_of : Family → ReflectionIf → ℕ
scope_of Family.af_inet6 el = el.ifindex
scope_of Family.af_inet el = 0
scope_of Family.af_other el = 0

-- The datagrams are copies of the bytes, at most one for each interface, and none if the family is
-- not reflected. Either the message is dropped and the context is as it was, or the family is not
-- reflected, or each interface in turn is sent one on its own socket, unless a send fails. Of the
-- context only the table of addresses is new.
pub record Reflects (sendto : Sendto) (scope : ReflectionIf → ℕ) (bytes : List ℕ) (reflected : Bool)
    (rif : List ReflectionIf) (context : MdnsContext) (result : MdnsContext × List Datagram)
    : Type 0 where
  pub copies : All (λ d. d.send_buf ≡ bytes) result.1
  pub few : length result.1 ≤ (if reflected then length rif else 0)
  pub each :
      ((result.0 ≡ context) × (result.1 ≡ []))
      ⊎ (((reflected ≡ false) × (result.1 ≡ [])) ⊎ ToEach sendto scope bytes [] rif result.1)
  pub only_imap : result.0 ≡ with_imap context result.0.imap

nothing :
    (sendto : Sendto) (scope : ReflectionIf → ℕ) (bytes : List ℕ) (reflected : Bool)
    (rif : List ReflectionIf) (context : MdnsContext)
    → Reflects sendto scope bytes reflected rif context (context, [])
unfolding with_imap
nothing sendto scope bytes reflected rif context = record {
  copies = tt;
  few = omega arith;
  each = inl (refl, refl);
  only_imap = refl;
}

gated :
    (bytes : List ℕ) (n : ℕ) (on : Bool) (out : List Datagram)
    → Copies bytes n [] out
    → All (λ d. d.send_buf ≡ bytes) (if on then out else [])
      × (length (if on then out else []) ≤ (if on then n else 0))
gated bytes n true out h = (h.0, omega (arith, h.1))
gated bytes n false out h = (tt, omega arith)

gated_each :
    (sendto : Sendto) (scope : ReflectionIf → ℕ) (bytes : List ℕ) (rif : List ReflectionIf)
    (on : Bool) (out : List Datagram)
    → Adds sendto bytes scope [] rif out
    → ((on ≡ false) × ((if on then out else []) ≡ []))
      ⊎ ToEach sendto scope bytes [] rif (if on then out else [])
gated_each sendto scope bytes rif true out (new, e, each) =
    inr (subst (ToEach sendto scope bytes [] rif) (sym e) each)
gated_each sendto scope bytes rif false out h = inl (refl, refl)

forward-Reflects :
    (sendto : Sendto) (family : Family) (context : MdnsContext) (imap : List MdnsConn)
    (bytes : List ℕ) (rif : List ReflectionIf)
    → Reflects sendto
        (scope_of family)
        bytes
        (reflects family context)
        rif
        context
        (with_imap context imap, forward sendto family (with_imap context imap) bytes rif)
unfolding forward reflects with_imap
forward-Reflects sendto Family.af_inet6 context imap bytes rif =
    let (copies, few) =
      gated bytes (length rif) context.reflect_ip6 _
        (forward_reflector_if6-Copies sendto bytes rif [] tt) in
    record {
      copies = copies;
      few = few;
      each = inr (
          gated_each sendto (scope_of Family.af_inet6) bytes rif context.reflect_ip6 _
            (forward_reflector_if6-Adds sendto bytes rif []));
      only_imap = refl;
    }
forward-Reflects sendto Family.af_inet context imap bytes rif =
    let (copies, few) =
      gated bytes (length rif) context.reflect_ip4 _
        (forward_reflector_if4-Copies sendto bytes rif [] tt) in
    record {
      copies = copies;
      few = few;
      each = inr (
          gated_each sendto (scope_of Family.af_inet) bytes rif context.reflect_ip4 _
            (forward_reflector_if4-Adds sendto bytes rif []));
      only_imap = refl;
    }
forward-Reflects sendto Family.af_other context imap bytes rif = record {
  copies = tt;
  few = omega arith;
  each = inr (inl (refl, refl));
  only_imap = refl;
}

module _ (fuel : ℕ) (inet : Inet) (sendto : Sendto) (rif : List ReflectionIf)
    (context : MdnsContext) (r : Received) where
  -- What the handler may do when `bytes` were read.
  abbrev Good : List ℕ → MdnsContext × List Datagram → Type 0
  Good bytes = Reflects sendto (scope_of r.family) bytes (reflects r.family context) rif context

  abbrev idle : (bytes : List ℕ) → Good bytes (context, [])
  idle bytes = nothing sendto (scope_of r.family) bytes (reflects r.family context) rif context

  decode_and_forward-Good :
      (qip : List ℕ) (n : ℕ)
      → Returns (Good (take n r.buf)) (decode_and_forward fuel sendto rif context r qip n)
  unfolding decode_and_forward
  decode_and_forward-Good qip n =
      or_return-Returns _ (decode_mdns_header r.buf) _ _ (idle _) λ header eh.
        if-Returns _ (ltb n mdns_header_size) _ _ (idle _) (
          or_return-Returns _ (decode_mdns_queries fuel r.buf n mdns_header_size header.nqueries [])
            _ _ (idle _)
            λ q eq.
              or_return-Returns _ (decode_mdns_answers fuel r.buf n q.0 header.nanswers []) _ _
                (idle _) λ a ea. forward-Reflects sendto r.family context _ (take n r.buf) rif)

  handler-Good :
      Returns (Good (received r)) (eloop_reflector_handler fuel inet sendto rif context r)
  unfolding eloop_reflector_handler received
  handler-Good = or_return_none-Returns _ r.bytes_available _ _ (idle _) λ available ea.
      or_return_none-Returns _ r.num_bytes _ _ (idle _) λ n en.
        or_return_none-Returns _ (sockaddr2str r) _ _ (idle _) λ text et.
          or_return-Returns _ (sender_ip inet r.family text) _ _ (idle _)
            λ qip eq. rw en (decode_and_forward-Good qip n)

  -- When the handler returns, what it has sent to the group are copies of the bytes that were read,
  -- at most one for each interface, and none where the configuration does not reflect the family of
  -- the sender's address. If that family is reflected, then either the message was dropped, with the
  -- context as it was and nothing sent, or each interface in turn has got one on its own socket, and
  -- for IPv6 with its own scope, unless the send failed; an interface behind a failed send may have
  -- got none. Of the context it has changed the table of addresses only.
  pub eloop_reflector_handler-Reflects :
      {result : MdnsContext × List Datagram}
      → eloop_reflector_handler fuel inet sendto rif context r ≡ Result.ok result
      → Reflects sendto
          (scope_of r.family)
          (received r)
          (reflects r.family context)
          rif
          context
          result
  eloop_reflector_handler-Reflects {result} run =
      subst (Returns (Good (received r))) run handler-Good
