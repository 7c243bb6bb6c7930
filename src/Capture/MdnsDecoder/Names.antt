-- ===== src/Capture/MdnsDecoder/Names.antt =====
-- What decode_mdns_query_name of
-- src/capture/middlewares/header_middleware/mdns_decoder.c reads: the names of a message as a
-- grammar, and that the loop and its recursion find just these.
pub mod Sound
pub mod Complete
pub mod Flags
pub mod Labels
pub mod Grammar
use edgesec.Common.{
  ℕ, zero, suc, ◌+◌, ◌≤◌, ◌<◌, ltb, ◌==◌, ◌≡◌, ◌≢◌, ◌↔◌, refl, sym, ap, ◌∙◌, inl, inr, Bool, true,
  false, Option, none, some, List, [], ◌∷◌, ◌++◌, CString, ℤ, Bool-cases, Option-cases, get_elem?,
  arith, subst,
}
use mathlib.Core.List.{append_assoc, append-nil}
use native.Mathlib.Decide.{dec_lt}
use edgesec.Common.Results.{Result, ◌>>=◌, byte_at, bind-ok, byte_at-ok}
use edgesec.Utils.StringQueue.{
  StringQueue, init_string_queue, push_string_queue, concat_string_queue,
}
use edgesec.Utils.StringQueue.Order.{
  unbounded, concat, joined, concat_string_queue-joined, push_string_queue-unbounded,
}
use edgesec.Capture.MdnsDecoder.{
  copy_mdns_query_name, is_compressed, pointer_offset, push_name, decode_loop,
  decode_mdns_query_name,
}

-- What a name that is reached by a pointer adds to the name with the pointer.
abbrev pub suffix : List CString → List CString
suffix [] = []
suffix (x ∷ xs) = (x ++ concat xs) ∷ []

-- `Parsed i labels e`: the name at index `i` of the message has these labels, and ends at `e`.
pub data Parsed (mem : List ℕ) (len : ℕ) : ℕ → List CString → ℕ → Type 0 where
  stop : {i : ℕ} → len ≤ i → Parsed mem len i [] i
  root : {i : ℕ} → i < len → get_elem? mem i ≡ some 0 → Parsed mem len i [] i
  label :
      {i b e : ℕ} {text : CString} {labels : List CString}
      → i < len
      → get_elem? mem i ≡ some b
      → b ≢ 0
      → is_compressed b ≡ false
      → copy_mdns_query_name mem i ≡ Result.ok (some text)
      → Parsed mem len (i + b + 1) labels e
      → Parsed mem len i (text ∷ labels) e
  pointer :
      {i b next e : ℕ} {labels : List CString}
      → i < len
      → get_elem? mem i ≡ some b
      → b ≢ 0
      → is_compressed b ≡ true
      → get_elem? mem (i + 1) ≡ some next
      → Parsed mem len (pointer_offset b next) labels e
      → Parsed mem len i (suffix labels) (i + 1)

pub push_name-unbounded :
    (list : List CString) (s : CString)
    → push_name (unbounded list) (some s) ≡ Result.ok (unbounded (list ++ s ∷ []))
unfolding push_name
push_name-unbounded list s = rw (push_string_queue-unbounded list s)

pub push_name-suffix :
    (list labels : List CString)
    → push_name (unbounded list) (concat_string_queue (some (unbounded labels)) (ℤ.negsuc 0))
      ≡ Result.ok (unbounded (list ++ suffix labels))
unfolding push_name
push_name-suffix list [] =
    rw (concat_string_queue-joined []) (ap (λ l. Result.ok (unbounded l)) (sym (append-nil list)))
push_name-suffix list (x ∷ xs) =
    rw (concat_string_queue-joined (x ∷ xs)) (push_name-unbounded list (x ++ concat xs))

module _ (mem : List ℕ) (len : ℕ) where
  -- One round of the loop, by what stands at `i`.
  pub loop-stop :
      (fuel i : ℕ) (q : StringQueue)
      → len ≤ i
      → decode_loop (suc fuel) mem len i q ≡ Result.ok (i, q)
  unfolding decode_loop
  loop-stop fuel i q h = ground arith

  pub loop-root :
      (fuel i : ℕ) (q : StringQueue)
      → i < len
      → get_elem? mem i ≡ some 0
      → decode_loop (suc fuel) mem len i q ≡ Result.ok (i, q)
  unfolding decode_loop
  loop-root fuel i q h e = ground arith

  pub loop-label :
      (fuel i b : ℕ) (q : StringQueue)
      → i < len
      → get_elem? mem i ≡ some b
      → b ≢ 0
      → is_compressed b ≡ false
      → decode_loop (suc fuel) mem len i q ≡ (
          copy_mdns_query_name mem i >>= λ qname.
          push_name q qname >>= λ queue. decode_loop fuel mem len (i + b + 1) queue)
  unfolding decode_loop
  loop-label fuel i b q h e n c = ground arith

  pub loop-pointer :
      (fuel i b next : ℕ) (q : StringQueue)
      → i < len
      → get_elem? mem i ≡ some b
      → b ≢ 0
      → is_compressed b ≡ true
      → get_elem? mem (i + 1) ≡ some next
      → decode_loop (suc fuel) mem len i q ≡ (
          decode_loop fuel mem len (pointer_offset b next) (unbounded []) >>= λ r.
          push_name q (concat_string_queue (some r.1) (ℤ.negsuc 0)) >>= λ queue.
          Result.ok (i + 1, queue))
  unfolding decode_loop init_string_queue
  loop-pointer fuel i b next q h e n c e' = ground arith
