-- ===== src/Dns/Reflector/Forward.antt =====
-- What the forwarding of src/dns/mdns_service.c sends.
use edgesec.Common.{
  ℕ, suc, ◌+◌, ◌≤◌, ◌≡◌, refl, List, [], ◌∷◌, ◌++◌, length, length-append, All, All-append, arith,
}
use edgesec.Dns.Reflector.{
  ReflectionIf, Datagram, Sent, Sendto, forward_reflector_if4, forward_reflector_if6,
}

-- The same bytes in every datagram, and at most `n` datagrams more than before.
abbrev pub Copies : List ℕ → ℕ → List Datagram → List Datagram → Type 0
Copies bytes n old new = All (λ d. d.send_buf ≡ bytes) new × (length new ≤ length old + n)

if6_step :
    (sendto : Sendto) (bytes : List ℕ) (el : ReflectionIf) (rif : List ReflectionIf)
    (out : List Datagram) (answer : Sent)
    → let datagram : Datagram = record {
      send_fd = el.send_fd;
      scope_id = el.ifindex;
      send_buf = bytes;
    } in
      sendto out datagram ≡ answer
      → All (λ d. d.send_buf ≡ bytes) out
      → Copies bytes (length rif) out (forward_reflector_if6 sendto bytes rif out).1
      → Copies bytes
          (length rif)
          (out ++ datagram ∷ [])
          (forward_reflector_if6 sendto bytes rif (out ++ datagram ∷ [])).1
      → Copies bytes (suc (length rif)) out (forward_reflector_if6 sendto bytes (el ∷ rif) out).1
unfolding forward_reflector_if6
if6_step sendto bytes el rif out Sent.sent e h same more =
    rw (forward_reflector_if6, e) (more.0, omega (arith, more.1, length-append out (_ ∷ [])))
if6_step sendto bytes el rif out Sent.ewouldblock e h same more =
    rw (forward_reflector_if6, e) (same.0, omega (arith, same.1))
if6_step sendto bytes el rif out Sent.eaddrnotavail e h same more =
    rw (forward_reflector_if6, e) (same.0, omega (arith, same.1))
if6_step sendto bytes el rif out Sent.other_errno e h same more =
    rw (forward_reflector_if6, e) (h, omega arith)

pub forward_reflector_if6-Copies :
    (sendto : Sendto) (bytes : List ℕ) (rif : List ReflectionIf) (out : List Datagram)
    → All (λ d. d.send_buf ≡ bytes) out
    → Copies bytes (length rif) out (forward_reflector_if6 sendto bytes rif out).1
unfolding forward_reflector_if6
forward_reflector_if6-Copies sendto bytes [] out h = (h, omega arith)
forward_reflector_if6-Copies sendto bytes (el ∷ rif) out h =
    if6_step sendto bytes el rif out _ refl h (forward_reflector_if6-Copies sendto bytes rif out h)
      (forward_reflector_if6-Copies sendto bytes rif (out ++ _ ∷ [])
        (All-append _ out _ h (refl, tt)))

if4_step :
    (sendto : Sendto) (bytes : List ℕ) (el : ReflectionIf) (rif : List ReflectionIf)
    (out : List Datagram) (answer : Sent)
    → let datagram : Datagram = record { send_fd = el.send_fd; scope_id = 0; send_buf = bytes } in
      sendto out datagram ≡ answer
      → All (λ d. d.send_buf ≡ bytes) out
      → Copies bytes (length rif) out (forward_reflector_if4 sendto bytes rif out).1
      → Copies bytes
          (length rif)
          (out ++ datagram ∷ [])
          (forward_reflector_if4 sendto bytes rif (out ++ datagram ∷ [])).1
      → Copies bytes (suc (length rif)) out (forward_reflector_if4 sendto bytes (el ∷ rif) out).1
unfolding forward_reflector_if4
if4_step sendto bytes el rif out Sent.sent e h same more =
    rw (forward_reflector_if4, e) (more.0, omega (arith, more.1, length-append out (_ ∷ [])))
if4_step sendto bytes el rif out Sent.ewouldblock e h same more =
    rw (forward_reflector_if4, e) (same.0, omega (arith, same.1))
if4_step sendto bytes el rif out Sent.eaddrnotavail e h same more =
    rw (forward_reflector_if4, e) (h, omega arith)
if4_step sendto bytes el rif out Sent.other_errno e h same more =
    rw (forward_reflector_if4, e) (h, omega arith)

pub forward_reflector_if4-Copies :
    (sendto : Sendto) (bytes : List ℕ) (rif : List ReflectionIf) (out : List Datagram)
    → All (λ d. d.send_buf ≡ bytes) out
    → Copies bytes (length rif) out (forward_reflector_if4 sendto bytes rif out).1
unfolding forward_reflector_if4
forward_reflector_if4-Copies sendto bytes [] out h = (h, omega arith)
forward_reflector_if4-Copies sendto bytes (el ∷ rif) out h =
    if4_step sendto bytes el rif out _ refl h (forward_reflector_if4-Copies sendto bytes rif out h)
      (forward_reflector_if4-Copies sendto bytes rif (out ++ _ ∷ [])
        (All-append _ out _ h (refl, tt)))
