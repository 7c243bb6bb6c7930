-- ===== src/Capture/MdnsDecoder/Names/Complete.antt =====
-- The names of a message are found by decode_mdns_query_name of
-- src/capture/middlewares/header_middleware/mdns_decoder.c, with enough fuel.
use edgesec.Common.{
  ℕ, zero, suc, ◌+◌, ◌≤◌, ◌≡◌, ◌↔◌, refl, sym, ap, ◌∙◌, Option, List, [], ◌∷◌, ◌++◌, CString, arith,
  subst,
}
use mathlib.Core.List.{append_assoc, append-nil}
use edgesec.Common.Results.{Result, bind-ok}
use edgesec.Utils.StringQueue.{StringQueue, init_string_queue}
use edgesec.Utils.StringQueue.Order.{unbounded, joined, concat_string_queue-joined}
use edgesec.Capture.MdnsDecoder.{pointer_offset, decode_loop, decode_mdns_query_name}
use edgesec.Capture.MdnsDecoder.Names.{
  suffix, Parsed, push_name-unbounded, push_name-suffix, loop-stop, loop-root, loop-label,
  loop-pointer,
}
use edgesec.Capture.MdnsDecoder.Names.Sound.{Sound, Reads, sound}

module _ (mem : List ℕ) (len : ℕ) where
  -- From this much fuel on, the loop finds the name.
  unfoldable pub Complete : ℕ → List CString → ℕ → Type 0
  Complete i labels e =
      (n : ℕ) × ((fuel : ℕ) (list : List CString)
        → n ≤ fuel
        → decode_loop fuel mem len i (unbounded list) ≡ Result.ok (e, unbounded (list ++ labels)))

  at_once :
      (i : ℕ)
      → ((fuel : ℕ) (q : StringQueue) → decode_loop (suc fuel) mem len i q ≡ Result.ok (i, q))
      → Complete i [] i
  unfolding Complete
  at_once i step = (1, found)
    where
      found :
          (fuel : ℕ) (list : List CString)
          → 1 ≤ fuel
          → decode_loop fuel mem len i (unbounded list) ≡ Result.ok (i, unbounded (list ++ []))
      found zero list h = absurd (omega arith)
      found (suc fuel) list h =
          step fuel (unbounded list) ∙ ap (λ l. Result.ok (i, unbounded l)) (sym (append-nil list))

  pub complete :
      (i : ℕ) (labels : List CString) (e : ℕ) → Parsed mem len i labels e → Complete i labels e
  unfolding Complete
  complete i labels e (Parsed.stop over) = at_once i (λ fuel q. loop-stop mem len fuel i q over)
  complete i labels e (Parsed.root h z) = at_once i (λ fuel q. loop-root mem len fuel i q h z)
  complete i labels e (Parsed.label {b = b} {text = text} {labels = rest} h eb n c copied name) =
      let (k, ih) = complete (i + b + 1) rest e name in (suc k, found k ih)
    where
      found :
          (k : ℕ)
          → ((fuel : ℕ) (list : List CString)
              → k ≤ fuel
              → decode_loop fuel mem len (i + b + 1) (unbounded list)
                ≡ Result.ok (e, unbounded (list ++ rest)))
          → (fuel : ℕ) (list : List CString) → suc k ≤ fuel
          → decode_loop fuel mem len i (unbounded list)
            ≡ Result.ok (e, unbounded (list ++ text ∷ rest))
      found k ih zero list le = absurd (omega arith)
      found k ih (suc fuel) list le =
          loop-label mem len fuel i b (unbounded list) h eb n c
          ∙ rw (copied, push_name-unbounded list text, ih fuel (list ++ text ∷ []) (omega arith))
              (ap (λ l. Result.ok (e, unbounded l)) (append_assoc list (text ∷ []) rest))
  complete i labels e
        (Parsed.pointer {b = b} {next = next} {e = e'} {labels = inner} h eb n c en name) =
      let (k, ih) = complete (pointer_offset b next) inner e' name in (suc k, found k ih)
    where
      found :
          (k : ℕ)
          → ((fuel : ℕ) (list : List CString)
              → k ≤ fuel
              → decode_loop fuel mem len (pointer_offset b next) (unbounded list)
                ≡ Result.ok (e', unbounded (list ++ inner)))
          → (fuel : ℕ) (list : List CString) → suc k ≤ fuel
          → decode_loop fuel mem len i (unbounded list)
            ≡ Result.ok (i + 1, unbounded (list ++ suffix inner))
      found k ih zero list le = absurd (omega arith)
      found k ih (suc fuel) list le =
          loop-pointer mem len fuel i b next (unbounded list) h eb n c en
          ∙ rw (ih fuel [] (omega arith), push_name-suffix list inner) refl

-- For some fuel decode_mdns_query_name returns the index `e` and the string `out` if and only if
-- the grammar has a name at `first` that ends at `e`, and `out` is its labels one behind the other
-- (NULL if it has none).
pub decode_mdns_query_name-Parsed :
    (mem : List ℕ) (len first e : ℕ) (out : Option CString)
    → ((fuel : ℕ) × (decode_mdns_query_name fuel mem len first ≡ Result.ok (e, out)))
      ↔ ((labels : List CString) × Parsed mem len first labels e × (out ≡ joined labels))
unfolding decode_mdns_query_name init_string_queue Sound Reads Complete
decode_mdns_query_name-Parsed mem len first e out = (there, back)
  where
    there :
        (fuel : ℕ) × (decode_mdns_query_name fuel mem len first ≡ Result.ok (e, out))
        → (labels : List CString) × Parsed mem len first labels e × (out ≡ joined labels)
    there (fuel, run) =
        let (r, found, done) = bind-ok (decode_loop fuel mem len first (unbounded [])) _ run in
        let (labels, name, queue_is) = sound mem len fuel first [] r found in
        let pair : ◌≡◌ {A = ℕ × Option CString} (r.0, joined labels) (e, out) =
          cc (done, queue_is, concat_string_queue-joined labels) in
        (labels, subst (λ s. Parsed mem len first labels s.0) pair name, sym (ap (λ s. s.1) pair))

    back :
        (labels : List CString) × Parsed mem len first labels e × (out ≡ joined labels)
        → (fuel : ℕ) × (decode_mdns_query_name fuel mem len first ≡ Result.ok (e, out))
    back (labels, name, is_out) =
        let (n, found) = complete mem len first labels e name in
        (n, rw (found n [] (omega arith), concat_string_queue-joined labels, is_out) refl)
