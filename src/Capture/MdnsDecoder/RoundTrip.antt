-- ===== src/Capture/MdnsDecoder/RoundTrip.antt =====
-- decode_mdns_query_name of src/capture/middlewares/header_middleware/mdns_decoder.c on a name that
-- is written without pointers, as RFC 1035 has it.
use edgesec.Common.{
  ℕ, suc, ◌+◌, ◌<◌, ◌≡◌, ◌≢◌, refl, sym, ap, ◌∙◌, false, not, some, List, [], ◌∷◌, ◌++◌, map,
  CString, length, length-append, All, get_elem?, arith, for_all_below_lem,
}
use mathlib.Core.List.{append_assoc, append-nil}
use edgesec.Common.Results.{Result}
use edgesec.Utils.StringQueue.{init_string_queue}
use edgesec.Utils.StringQueue.Order.{unbounded, joined, concat_string_queue-joined}
use edgesec.Capture.MdnsDecoder.{
  strncpy, with_dot, copy_mdns_query_name, is_compressed, decode_loop, decode_mdns_query_name,
}
use edgesec.Capture.MdnsDecoder.Names.{push_name-unbounded, loop-root, loop-label}

-- Length, label, length, label, and a zero byte.
abbrev pub encode : List CString → List ℕ
encode [] = 0 ∷ []
encode (l ∷ ls) = length l ∷ l ++ encode ls

-- The number of bytes before the zero byte.
abbrev pub encoded_length : List CString → ℕ
encoded_length [] = 0
encoded_length (l ∷ ls) = length l + 1 + encoded_length ls

abbrev pub dotted : CString → CString
dotted l = l ++ b'.' ∷ []

-- 1 to 63 bytes, none of them NUL.
abbrev pub IsLabel : CString → Type 0
IsLabel l = (0 < length l) × (length l < 64) × All (λ b. b ≢ 0) l

get_elem?-middle :
    (before rest : List ℕ) (b : ℕ) → get_elem? (before ++ b ∷ rest) (length before) ≡ some b
get_elem?-middle [] rest b = refl
get_elem?-middle (x ∷ before) rest b = get_elem?-middle before rest b

-- One more byte is before.
shift_one :
    (before rest : List ℕ) (b i : ℕ)
    → i ≡ length before
    → (before ++ (b ∷ rest) ≡ (before ++ b ∷ []) ++ rest) × (i + 1 ≡ length (before ++ b ∷ []))
shift_one before rest b i e =
    (sym (append_assoc before (b ∷ []) rest), omega (arith, length-append before (b ∷ [])))

strncpy-label :
    (mem before l rest : List ℕ) (i : ℕ)
    → mem ≡ before ++ (l ++ rest)
    → i ≡ length before
    → All (λ b. b ≢ 0) l
    → strncpy mem i (length l) ≡ Result.ok l
unfolding strncpy
strncpy-label mem before [] rest i em ei h = refl
strncpy-label mem before (c ∷ l) rest i em ei h =
    let (em', ei') = shift_one before (l ++ rest) c i ei in
    let more : strncpy mem (i + 1) (length l) ≡ Result.ok l =
      strncpy-label mem (before ++ c ∷ []) l rest (i + 1) (em ∙ em') ei' h.1 in
    let head : get_elem? mem i ≡ some c = rw (em, ei) (get_elem?-middle before (l ++ rest) c) in
    let (n, _) = h in ground (arith, head, more, n)

short-plain : (n : ℕ) → n < 64 → is_compressed n ≡ false
unfolding is_compressed
short-plain n h = ground (arith, for_all_below_lem 64 (λ b. not (is_compressed b)) refl n h)

copy_mdns_query_name-label :
    (mem before l rest : List ℕ) (i : ℕ)
    → mem ≡ before ++ ((length l ∷ l) ++ rest)
    → i ≡ length before
    → IsLabel l
    → copy_mdns_query_name mem i ≡ Result.ok (some (dotted l))
unfolding copy_mdns_query_name with_dot
copy_mdns_query_name-label mem before l rest i em ei (pos_len, short, no_nul) =
    let (em', ei') = shift_one before (l ++ rest) (length l) i ei in
    let head : get_elem? mem i ≡ some (length l) =
      rw (em, ei) (get_elem?-middle before (l ++ rest) (length l)) in
    ground (
      arith,
      head,
      strncpy-label mem (before ++ length l ∷ []) l rest (i + 1) (em ∙ em') ei' no_nul,
    )

loop-encode :
    (mem before : List ℕ) (ls : List CString) (rest : List ℕ) (len i : ℕ) (list : List CString)
    → mem ≡ before ++ (encode ls ++ rest)
    → i ≡ length before
    → i + encoded_length ls < len
    → All IsLabel ls
    → decode_loop (suc (length ls)) mem len i (unbounded list)
      ≡ Result.ok (i + encoded_length ls, unbounded (list ++ map dotted ls))
loop-encode mem before [] rest len i list em ei h labels =
    loop-root mem len 0 i (unbounded list) (omega arith)
      (rw (em, ei) (get_elem?-middle before rest 0))
    ∙ rw (append-nil list) (ap (λ k. Result.ok (k, unbounded list)) {x = i} (omega arith))
loop-encode mem before (l ∷ ls) rest len i list em ei h (is_label, labels) =
    let start : mem ≡ before ++ ((length l ∷ l) ++ (encode ls ++ rest)) =
      em ∙ ap (λ t. before ++ t) (append_assoc (length l ∷ l) (encode ls) rest) in
    let head : get_elem? mem i ≡ some (length l) =
      rw (start, ei) (get_elem?-middle before (l ++ (encode ls ++ rest)) (length l)) in
    let copied : copy_mdns_query_name mem i ≡ Result.ok (some (dotted l)) =
      copy_mdns_query_name-label mem before l (encode ls ++ rest) i start ei is_label in
    loop-label mem len (suc (length ls)) i (length l) (unbounded list) (omega arith) head
      (λ z. omega (arith, is_label.0)) (short-plain (length l) is_label.1)
    ∙ rw (copied, push_name-unbounded list (dotted l))
        (loop-encode mem (before ++ (length l ∷ l)) ls rest len (i + length l + 1)
            (list ++ dotted l ∷ [])
            (start ∙ sym (append_assoc before (length l ∷ l) (encode ls ++ rest)))
            (omega (arith, ei, length-append before (length l ∷ l))) (omega arith) labels
          ∙ ap (λ q. Result.ok (i + length l + 1 + encoded_length ls, unbounded q))
              (append_assoc list (dotted l ∷ []) (map dotted ls))
          ∙ ap (λ k. Result.ok (k, unbounded (list ++ map dotted (l ∷ ls))))
              {x = i + length l + 1 + encoded_length ls} (omega arith))

-- A name of labels of 1 to 63 bytes with no NUL in them, that is written without pointers anywhere
-- in a message, is read as its labels with a dot behind each, and ends at its zero byte; one round
-- for each label and one more are enough.
pub decode_mdns_query_name-encode :
    (before : List ℕ) (ls : List CString) (rest : List ℕ) (len : ℕ)
    → All IsLabel ls
    → length before + encoded_length ls < len
    → decode_mdns_query_name (suc (length ls)) (before ++ (encode ls ++ rest)) len (length before)
      ≡ Result.ok (length before + encoded_length ls, joined (map dotted ls))
unfolding decode_mdns_query_name init_string_queue
decode_mdns_query_name-encode before ls rest len labels h =
    rw
      (
        loop-encode (before ++ (encode ls ++ rest)) before ls rest len (length before) [] refl refl
            h labels,
        concat_string_queue-joined (map dotted ls),
      )
      refl
