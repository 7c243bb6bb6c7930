-- ===== src/Dns/Reflector/Each.antt =====
-- Which interfaces the forwarding of src/dns/mdns_service.c sends to, and on which sockets.
use edgesec.Common.{ℕ, ◌≡◌, refl, sym, ◌∙◌, List, [], ◌∷◌, ◌++◌}
use mathlib.Core.List.{append_assoc, append-nil}
use edgesec.Dns.Reflector.{
  ReflectionIf, Datagram, Sent, Sendto, forward_reflector_if4, forward_reflector_if6,
}

-- Behind the datagrams `out`, each interface of the list in turn is sent one copy of the bytes on its
-- own socket. It is left out if the send fails, and so are all after it where that ends the loop.
pub data ToEach (sendto : Sendto) (scope : ReflectionIf → ℕ) (bytes : List ℕ)
    : List Datagram → List ReflectionIf → List Datagram → Type 0 where
  done : {out : List Datagram} → ToEach sendto scope bytes out [] []
  copy :
      {out new : List Datagram} {el : ReflectionIf} {rif : List ReflectionIf} {d : Datagram}
      → d ≡ record { send_fd = el.send_fd; scope_id = scope el; send_buf = bytes }
      → sendto out d ≡ Sent.sent
      → ToEach sendto scope bytes (out ++ d ∷ []) rif new
      → ToEach sendto scope bytes out (el ∷ rif) (d ∷ new)
  passed_by :
      {out new : List Datagram} {el : ReflectionIf} {rif : List ReflectionIf}
      → ¬ (
          sendto out (record { send_fd = el.send_fd; scope_id = scope el; send_buf = bytes })
          ≡ Sent.sent)
      → ToEach sendto scope bytes out rif new
      → ToEach sendto scope bytes out (el ∷ rif) new
  given_up :
      {out : List Datagram} {el : ReflectionIf} {rif : List ReflectionIf}
      → ¬ (
          sendto out (record { send_fd = el.send_fd; scope_id = scope el; send_buf = bytes })
          ≡ Sent.sent)
      → ToEach sendto scope bytes out (el ∷ rif) []

module _ (sendto : Sendto) (bytes : List ℕ) where
  -- What is sent in the end is what was sent before, and then to each interface.
  abbrev pub Adds : (ReflectionIf → ℕ) → List Datagram → List ReflectionIf → List Datagram → Type 0
  Adds scope out rif sent =
      (new : List Datagram) × (sent ≡ out ++ new) × ToEach sendto scope bytes out rif new

  abbrev to6 : ReflectionIf → Datagram
  to6 el = record { send_fd = el.send_fd; scope_id = el.ifindex; send_buf = bytes }

  abbrev to4 : ReflectionIf → Datagram
  to4 el = record { send_fd = el.send_fd; scope_id = 0; send_buf = bytes }

  if6_step :
      (el : ReflectionIf) (rif : List ReflectionIf) (out : List Datagram) (answer : Sent)
      → sendto out (to6 el) ≡ answer
      → Adds (λ i. i.ifindex) out rif (forward_reflector_if6 sendto bytes rif out).1
      → Adds
          (λ i. i.ifindex)
          (out ++ to6 el ∷ [])
          rif
          (forward_reflector_if6 sendto bytes rif (out ++ to6 el ∷ [])).1
      → Adds (λ i. i.ifindex) out (el ∷ rif) (forward_reflector_if6 sendto bytes (el ∷ rif) out).1
  unfolding forward_reflector_if6
  if6_step el rif out Sent.sent e (old, is_old, skipped) (new, is_new, each) =
      rw (forward_reflector_if6, e)
        (to6 el ∷ new, is_new ∙ append_assoc out (to6 el ∷ []) new, ToEach.copy refl e each)
  if6_step el rif out Sent.ewouldblock e (old, is_old, skipped) more =
      rw (forward_reflector_if6, e) (old, is_old, ToEach.passed_by (λ h. cc (h, e)) skipped)
  if6_step el rif out Sent.eaddrnotavail e (old, is_old, skipped) more =
      rw (forward_reflector_if6, e) (old, is_old, ToEach.passed_by (λ h. cc (h, e)) skipped)
  if6_step el rif out Sent.other_errno e same more =
      rw (forward_reflector_if6, e) ([], sym (append-nil out), ToEach.given_up (λ h. cc (h, e)))

  pub forward_reflector_if6-Adds :
      (rif : List ReflectionIf) (out : List Datagram)
      → Adds (λ i. i.ifindex) out rif (forward_reflector_if6 sendto bytes rif out).1
  unfolding forward_reflector_if6
  forward_reflector_if6-Adds [] out = ([], sym (append-nil out), ToEach.done)
  forward_reflector_if6-Adds (el ∷ rif) out =
      if6_step el rif out _ refl (forward_reflector_if6-Adds rif out)
        (forward_reflector_if6-Adds rif (out ++ to6 el ∷ []))

  if4_step :
      (el : ReflectionIf) (rif : List ReflectionIf) (out : List Datagram) (answer : Sent)
      → sendto out (to4 el) ≡ answer
      → Adds (λ i. 0) out rif (forward_reflector_if4 sendto bytes rif out).1
      → Adds
          (λ i. 0)
          (out ++ to4 el ∷ [])
          rif
          (forward_reflector_if4 sendto bytes rif (out ++ to4 el ∷ [])).1
      → Adds (λ i. 0) out (el ∷ rif) (forward_reflector_if4 sendto bytes (el ∷ rif) out).1
  unfolding forward_reflector_if4
  if4_step el rif out Sent.sent e (old, is_old, skipped) (new, is_new, each) =
      rw (forward_reflector_if4, e)
        (to4 el ∷ new, is_new ∙ append_assoc out (to4 el ∷ []) new, ToEach.copy refl e each)
  if4_step el rif out Sent.ewouldblock e (old, is_old, skipped) more =
      rw (forward_reflector_if4, e) (old, is_old, ToEach.passed_by (λ h. cc (h, e)) skipped)
  if4_step el rif out Sent.eaddrnotavail e same more =
      rw (forward_reflector_if4, e) ([], sym (append-nil out), ToEach.given_up (λ h. cc (h, e)))
  if4_step el rif out Sent.other_errno e same more =
      rw (forward_reflector_if4, e) ([], sym (append-nil out), ToEach.given_up (λ h. cc (h, e)))

  pub forward_reflector_if4-Adds :
      (rif : List ReflectionIf) (out : List Datagram)
      → Adds (λ i. 0) out rif (forward_reflector_if4 sendto bytes rif out).1
  unfolding forward_reflector_if4
  forward_reflector_if4-Adds [] out = ([], sym (append-nil out), ToEach.done)
  forward_reflector_if4-Adds (el ∷ rif) out =
      if4_step el rif out _ refl (forward_reflector_if4-Adds rif out)
        (forward_reflector_if4-Adds rif (out ++ to4 el ∷ []))
