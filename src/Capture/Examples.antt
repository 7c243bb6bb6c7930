-- ===== src/Capture/Examples.antt =====
-- The theorems on src/capture at concrete inputs.
use edgesec.Common.{
  ℕ, suc, ◌+◌, ◌*◌, ◌≤◌, ◌<◌, ◌≡◌, ◌≢◌, ◌⊎◌, ◌↔◌, inl, inr, refl, sym, ap, ◌∙◌, subst, true, some,
  List, [], ◌∷◌, ◌++◌, CString, codes, All, get_elem?, arith,
}
use edgesec.Common.Results.{Result}
use edgesec.Utils.StringQueue.{init_string_queue, push_string_queue, concat_string_queue}
use edgesec.Utils.StringQueue.Order.{joined}
use edgesec.Capture.MdnsDecoder.{
  is_compressed, pointer_offset, decode_mdns_query_name, MdnsAnswerEntry, decode_mdns_answers,
}
use edgesec.Capture.MdnsDecoder.Names.Grammar.{Name, decode_mdns_query_name-Name}
use edgesec.Capture.MdnsDecoder.Pointers.{
  Walk, PointsBack, decode_mdns_query_name-ne_stuck, decode_mdns_query_name-endless,
}
use edgesec.Capture.MdnsDecoder.RoundTrip.{encode, IsLabel, decode_mdns_query_name-encode}
use edgesec.Capture.MdnsDecoder.Entries.{AnswerFits, Grows, decode_mdns_answers-Grows}

-- The name "cam" at 0, and at 5 a pointer to it.
abbrev message : List ℕ
message = 3 ∷ b'c' ∷ b'a' ∷ b'm' ∷ 0 ∷ 192 ∷ 0 ∷ []

message_bytes : All (λ n. n < 256) message
message_bytes = (
  omega arith,
  (omega arith, (omega arith, (omega arith, (omega arith, (omega arith, (omega arith, tt)))))),
)

decode_mdns_query_name-Name_example :
    ((fuel : ℕ) × (decode_mdns_query_name fuel message 7 5 ≡ Result.ok (6, some (codes "cam."))))
    ↔ ((labels : List CString) × Name message 7 5 labels 6 × (some (codes "cam.") ≡ joined labels))
decode_mdns_query_name-Name_example =
    decode_mdns_query_name-Name message 7 5 6 (some (codes "cam.")) message_bytes

IsStart : ℕ → Type 0
IsStart s = (s ≡ 0) ⊎ (s ≡ 5)

Walk-first : (s i : ℕ) → s ≡ 0 → Walk message s i → (i ≡ 0) ⊎ (i ≡ 4)
Walk-first s i e Walk.here = inl e
Walk-first s i e (Walk.label {i = j} {b = b} walk eb n c) = elim (Walk-first s j e walk) [
  | inl at_zero ↦ let is_three : 3 ≡ b = cc (rw at_zero at eb) in inr (omega arith)
  | inr at_four ↦ let is_zero : 0 ≡ b = cc (rw at_four at eb) in absurd (n (sym is_zero))
]

Walk-second : (s i : ℕ) → s ≡ 5 → Walk message s i → i ≡ 5
unfolding is_compressed
Walk-second s i e Walk.here = e
Walk-second s i e (Walk.label {i = j} {b = b} walk eb n c) =
    let is_pointer : 192 ≡ b = cc (rw (Walk-second s j e walk) at eb) in
    absurd (cc (rw (sym is_pointer) at c))

no_pointer :
    (i k b : ℕ)
    → i ≡ k
    → get_elem? message i ≡ some b
    → is_compressed b ≡ true
    → (k ≡ 0) ⊎ (k ≡ 4)
    → k ≢ k
unfolding is_compressed
no_pointer i k b e eb c (inl z) =
    λ _. let is_three : 3 ≡ b = cc (rw (e ∙ z) at eb) in cc (rw (sym is_three) at c)
no_pointer i k b e eb c (inr f) =
    λ _. let is_zero : 0 ≡ b = cc (rw (e ∙ f) at eb) in cc (rw (sym is_zero) at c)

leads :
    (s i b next : ℕ)
    → IsStart s
    → Walk message s i
    → i < 7
    → get_elem? message i ≡ some b
    → is_compressed b ≡ true
    → get_elem? message (i + 1) ≡ some next
    → IsStart (pointer_offset b next) × (pointer_offset b next < s)
unfolding IsStart pointer_offset
leads s i b next (inl first) walk h eb c en =
    absurd (no_pointer i i b refl eb c (Walk-first s i first walk) refl)
leads s i b next (inr second) walk h eb c en =
    let at : i ≡ 5 = Walk-second s i second walk in
    let is_b : 192 ≡ b = cc (rw at at eb) in
    let is_next : 0 ≡ next = cc (rw at at en) in
    subst (λ k. ((k ≡ 0) ⊎ (k ≡ 5)) × (k < s))
      (ap (λ x. pointer_offset x 0) is_b ∙ ap (pointer_offset b) is_next)
      (inl refl, omega (arith, second))

-- The only pointer is at 5, and leads to 0.
pointer-PointsBack : PointsBack message 7 IsStart
pointer-PointsBack = record { earlier = leads }

decode_mdns_query_name-ne_stuck_example :
    decode_mdns_query_name ((5 + 1) * (7 + 1)) message 7 5 ≢ Result.stuck
unfolding IsStart
decode_mdns_query_name-ne_stuck_example =
    decode_mdns_query_name-ne_stuck message 7 IsStart pointer-PointsBack 5 (inr refl)

-- A message that is one pointer, to itself.
decode_mdns_query_name-endless_example :
    decode_mdns_query_name 1000 (192 ∷ 0 ∷ []) 2 0 ≡ Result.stuck
unfolding is_compressed pointer_offset
decode_mdns_query_name-endless_example =
    decode_mdns_query_name-endless (192 ∷ 0 ∷ []) 2 0 192 0 1000 (omega arith) refl refl refl refl

abbrev cam_local : List CString
cam_local = codes "cam" ∷ codes "local" ∷ []

cam_local-IsLabel : All IsLabel cam_local
cam_local-IsLabel = (
  (omega arith, omega arith, (not_nul, (not_nul, (not_nul, tt)))),
  ((omega arith, omega arith, (not_nul, (not_nul, (not_nul, (not_nul, (not_nul, tt)))))), tt),
)
  where
    not_nul : {n : ℕ} → suc n ≢ 0
    not_nul e = omega (arith, e)

decode_mdns_query_name-encode_example :
    decode_mdns_query_name 3 ((7 ∷ 9 ∷ []) ++ (encode cam_local ++ (5 ∷ []))) 14 2
    ≡ Result.ok (12, some (codes "cam.local."))
decode_mdns_query_name-encode_example =
    decode_mdns_query_name-encode (7 ∷ 9 ∷ []) cam_local (5 ∷ []) 14 cam_local-IsLabel (omega arith)

-- One answer: the name "a", an "A" record of one minute, and the address.
abbrev answer : List ℕ
answer = 1 ∷ b'a' ∷ 0 ∷ 0 ∷ 1 ∷ 0 ∷ 1 ∷ 0 ∷ 0 ∷ 0 ∷ 60 ∷ 0 ∷ 4 ∷ 10 ∷ 0 ∷ 1 ∷ 7 ∷ []

abbrev entry : MdnsAnswerEntry
entry = record { ttl = 60; rrtype = 1; rrname = codes "a."; ip = 10 ∷ 0 ∷ 1 ∷ 7 ∷ [] }

decode_mdns_answers_run : decode_mdns_answers 5 answer 17 0 1 [] ≡ Result.ok (17, entry ∷ [])
unfolding decode_mdns_answers push_string_queue init_string_queue concat_string_queue
decode_mdns_answers_run = refl

answer_bytes : All (λ n. n < 256) answer
answer_bytes = (
  omega arith,
  (
    omega arith,
    (
      omega arith,
      (
        omega arith,
        (
          omega arith,
          (
            omega arith,
            (
              omega arith,
              (
                omega arith,
                (
                  omega arith,
                  (
                    omega arith,
                    (
                      omega arith,
                      (
                        omega arith,
                        (
                          omega arith,
                          (omega arith, (omega arith, (omega arith, (omega arith, tt)))),
                        ),
                      ),
                    ),
                  ),
                ),
              ),
            ),
          ),
        ),
      ),
    ),
  ),
)

decode_mdns_answers-Grows_example :
    Grows (AnswerFits answer 17) 1 [] (entry ∷ []) × (0 + 1 * 11 ≤ 17)
decode_mdns_answers-Grows_example =
    decode_mdns_answers-Grows 5 answer 17 0 1 [] answer_bytes decode_mdns_answers_run
