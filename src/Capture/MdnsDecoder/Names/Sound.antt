-- ===== src/Capture/MdnsDecoder/Names/Sound.antt =====
-- What decode_mdns_query_name of
-- src/capture/middlewares/header_middleware/mdns_decoder.c returns is a name of the message.
use edgesec.Common.{
  ℕ, zero, suc, ◌+◌, ◌≤◌, ◌<◌, ◌==◌, ◌≡◌, ◌≢◌, refl, sym, ap, ◌∙◌, inl, inr, true, false, Option,
  none, some, List, [], ◌∷◌, ◌++◌, CString, Bool-cases, Option-cases, get_elem?, arith, subst,
}
use mathlib.Core.List.{append_assoc, append-nil}
use native.Mathlib.Decide.{dec_lt}
use edgesec.Common.Results.{Result, bind-ok}
use edgesec.Utils.StringQueue.{StringQueue}
use edgesec.Utils.StringQueue.Order.{unbounded}
use edgesec.Capture.MdnsDecoder.{
  copy_mdns_query_name, is_compressed, pointer_offset, push_name, decode_loop,
}
use edgesec.Capture.MdnsDecoder.Names.{
  suffix, Parsed, push_name-unbounded, push_name-suffix, loop-stop, loop-root, loop-label,
  loop-pointer,
}

module _ (mem : List ℕ) (len : ℕ) where
  -- The loop adds the labels of a name to the queue.
  unfoldable pub Reads : ℕ → List CString → ℕ × StringQueue → Type 0
  Reads i list r =
      (labels : List CString) × Parsed mem len i labels r.0 × (r.1 ≡ unbounded (list ++ labels))

  unfoldable pub Sound : ℕ → Type 0
  unfolding Reads
  Sound fuel =
      (i : ℕ) (list : List CString) (r : ℕ × StringQueue)
      → decode_loop fuel mem len i (unbounded list) ≡ Result.ok r
      → Reads i list r

  no_labels :
      (i : ℕ) (list : List CString) (r : ℕ × StringQueue)
      → Parsed mem len i [] i
      → Result.ok (i, unbounded list) ≡ Result.ok r
      → Reads i list r
  unfolding Reads
  no_labels i list r n e = (
    [],
    subst (λ s. Parsed mem len i [] s.0) pair n,
    sym (ap (λ s. s.1) pair) ∙ ap unbounded (sym (append-nil list)),
  )
    where
      pair : (i, unbounded list) ≡ r
      pair = cc

  copy-some :
      (i b : ℕ) (o : Option CString)
      → get_elem? mem i ≡ some b
      → b ≢ 0
      → copy_mdns_query_name mem i ≡ Result.ok o
      → (text : CString) × (o ≡ some text)
  unfolding copy_mdns_query_name
  copy-some i b none e n run = absurd (ground arith)
  copy-some i b (some text) e n run = (text, refl)

  Sound-label :
      (fuel : ℕ)
      → Sound fuel
      → (i b : ℕ) (list : List CString) (r : ℕ × StringQueue) → i < len
      → get_elem? mem i ≡ some b
      → b ≢ 0
      → is_compressed b ≡ false
      → decode_loop (suc fuel) mem len i (unbounded list) ≡ Result.ok r
      → Reads i list r
  unfolding Sound Reads
  Sound-label fuel ih i b list r h e n c run =
      let (o, copied, pushed) =
        bind-ok _ _ (sym (loop-label mem len fuel i b (unbounded list) h e n c) ∙ run) in
      let (text, eo) = copy-some i b o e n copied in
      let (queue, eq, rest) =
        bind-ok (push_name (unbounded list) o) (decode_loop fuel mem len (i + b + 1)) pushed in
      let queue_is : queue ≡ unbounded (list ++ text ∷ []) =
        cc (eq, eo, push_name-unbounded list text) in
      let (labels, name, er) = ih (i + b + 1) (list ++ text ∷ []) r (rw queue_is at rest) in
      (
        text ∷ labels,
        Parsed.label h e n c (copied ∙ ap Result.ok eo) name,
        er ∙ ap unbounded (append_assoc list (text ∷ []) labels),
      )

  Sound-pointer :
      (fuel : ℕ)
      → Sound fuel
      → (i b next : ℕ) (list : List CString) (r : ℕ × StringQueue) → i < len
      → get_elem? mem i ≡ some b
      → b ≢ 0
      → is_compressed b ≡ true
      → get_elem? mem (i + 1) ≡ some next
      → decode_loop (suc fuel) mem len i (unbounded list) ≡ Result.ok r
      → Reads i list r
  unfolding Sound Reads
  Sound-pointer fuel ih i b next list r h e n c e' run =
      let (inner, found, pushed) =
        bind-ok _ _ (sym (loop-pointer mem len fuel i b next (unbounded list) h e n c e') ∙ run) in
      let (labels, name, queue_is) = ih (pointer_offset b next) [] inner found in
      let done : Result.ok (i + 1, unbounded (list ++ suffix labels)) ≡ Result.ok r =
        rw (queue_is, push_name-suffix list labels) at pushed in
      let pair : (i + 1, unbounded (list ++ suffix labels)) ≡ r = cc done in
      (
        suffix labels,
        subst (λ s. Parsed mem len i (suffix labels) s.0) pair (Parsed.pointer h e n c e' name),
        sym (ap (λ s. s.1) pair),
      )

  Sound-byte :
      (fuel : ℕ)
      → Sound fuel
      → (i b : ℕ) (list : List CString) (r : ℕ × StringQueue) → i < len
      → get_elem? mem i ≡ some b
      → decode_loop (suc fuel) mem len i (unbounded list) ≡ Result.ok r
      → Reads i list r
  Sound-byte fuel ih i b list r h e run = elim (Bool-cases (b == 0)) [
    | inl zero_byte ↦
        let root : get_elem? mem i ≡ some 0 = ground arith in
        no_labels i list r (Parsed.root h root)
          (sym (loop-root mem len fuel i (unbounded list) h root) ∙ run)
    | inr other ↦ elim (Bool-cases (is_compressed b)) [
      | inr plain ↦ Sound-label fuel ih i b list r h e (ground arith) plain run
      | inl compressed ↦ elim (Option-cases (get_elem? mem (i + 1))) [
        | inr (next, e') ↦
            Sound-pointer fuel ih i b next list r h e (ground arith) compressed e' run
        | inl behind ↦ absurd (unfold decode_loop in ground arith)
      ]
    ]
  ]

  pub sound : (fuel : ℕ) → Sound fuel
  unfolding Sound decode_loop
  sound zero i list r run = cc
  sound (suc fuel) i list r run = elim (dec_lt i len) [
    | no out ↦
        let over : len ≤ i = omega arith in
        no_labels i list r (Parsed.stop over)
          (sym (loop-stop mem len fuel i (unbounded list) over) ∙ run)
    | yes h ↦ elim (Option-cases (get_elem? mem i)) [
      | inr (b, e) ↦ Sound-byte fuel (sound fuel) i b list r h e run
      | inl behind ↦ absurd (ground arith)
    ]
  ]
