-- ===== src/Capture/MdnsDecoder/Names/Labels.antt =====
-- The labels of a name, said apart from copy_mdns_query_name of
-- src/capture/middlewares/header_middleware/mdns_decoder.c, which copies just these.
use edgesec.Common.{
  ℕ, zero, suc, ◌+◌, ◌==◌, ◌≡◌, ◌≢◌, refl, sym, ap, ◌∙◌, inl, inr, some, List, [], ◌∷◌, CString,
  Bool-cases, get_elem?, arith, subst,
}
use edgesec.Common.Results.{Result, ◌>>=◌, byte_at, bind-ok, byte_at-ok}
use edgesec.Capture.MdnsDecoder.{strncpy, with_dot, copy_mdns_query_name}

-- `Text mem i n text`: the n bytes from index `i` on with a dot behind, or those before a NUL.
pub data Text (mem : List ℕ) : ℕ → ℕ → CString → Type 0 where
  dot : {i : ℕ} → Text mem i 0 (b'.' ∷ [])
  nul : {i n : ℕ} → get_elem? mem i ≡ some 0 → Text mem i (suc n) []
  byte :
      {i n c : ℕ} {text : CString}
      → get_elem? mem i ≡ some c
      → c ≢ 0
      → Text mem (i + 1) n text
      → Text mem i (suc n) (c ∷ text)

with_dot-cons : (n c : ℕ) (l : CString) → with_dot (suc n) (c ∷ l) ≡ c ∷ with_dot n l
unfolding with_dot
with_dot-cons n c l = ground arith

with_dot-nul : (n : ℕ) → with_dot (suc n) [] ≡ []
unfolding with_dot
with_dot-nul n = ground arith

module _ (mem : List ℕ) where
  strncpy-nul : (i n : ℕ) → get_elem? mem i ≡ some 0 → strncpy mem i (suc n) ≡ Result.ok []
  unfolding strncpy
  strncpy-nul i n at_i = ground (arith, at_i)

  strncpy-cons :
      (i n c : ℕ) (l : CString)
      → get_elem? mem i ≡ some c
      → c ≢ 0
      → strncpy mem (i + 1) n ≡ Result.ok l
      → strncpy mem i (suc n) ≡ Result.ok (c ∷ l)
  unfolding strncpy
  strncpy-cons i n c l at_i not_nul more = ground (arith, at_i, not_nul, more)

  Text-strncpy :
      {i n : ℕ} {text : CString}
      → Text mem i n text
      → (l : CString) × (strncpy mem i n ≡ Result.ok l) × (with_dot n l ≡ text)
  Text-strncpy Text.dot = ([], unfold strncpy in refl, unfold with_dot in refl)
  Text-strncpy (Text.nul {i = i} {n = n} at_i) = ([], strncpy-nul i n at_i, with_dot-nul n)
  Text-strncpy (Text.byte {i = i} {n = n} {c = c} at_i not_nul more) =
      let (l, copied, is_text) = Text-strncpy more in
      (
        c ∷ l,
        strncpy-cons i n c l at_i not_nul copied,
        with_dot-cons n c l ∙ ap (λ t. c ∷ t) is_text,
      )

  strncpy-Text :
      (n i : ℕ) {l : CString} → strncpy mem i n ≡ Result.ok l → Text mem i n (with_dot n l)
  unfolding strncpy
  strncpy-Text zero i {l} e =
      let empty : [] ≡ l = cc e in
      subst (λ t. Text mem i 0 (with_dot 0 t)) empty (unfold with_dot in Text.dot)
  strncpy-Text (suc n) i {l} e =
      let (c, read, run) = bind-ok (byte_at mem i) _ e in
      let at_i = byte_at-ok mem i read in
      elim (Bool-cases (c == 0)) [
        | inl zero_byte ↦
            let empty : [] ≡ l = cc (rw zero_byte at run) in
            let is_zero : c ≡ 0 = ground arith in
            subst (λ t. Text mem i (suc n) (with_dot (suc n) t)) empty
              (subst (Text mem i (suc n)) (sym (with_dot-nul n))
                (Text.nul (at_i ∙ ap (λ b. some b) is_zero)))
        | inr other ↦
            let (rest, copied, ends) = bind-ok (strncpy mem (i + 1) n) _ (rw other at run) in
            let whole : c ∷ rest ≡ l = cc ends in
            let not_nul : c ≢ 0 = ground arith in
            subst (λ t. Text mem i (suc n) (with_dot (suc n) t)) whole
              (subst (Text mem i (suc n)) (sym (with_dot-cons n c rest))
                (Text.byte at_i not_nul (strncpy-Text n (i + 1) copied)))
      ]

  pub Text-copy :
      (i n : ℕ) {text : CString}
      → get_elem? mem i ≡ some n
      → n ≢ 0
      → Text mem (i + 1) n text
      → copy_mdns_query_name mem i ≡ Result.ok (some text)
  unfolding copy_mdns_query_name
  Text-copy i n {text} at_i some_bytes read =
      let (l, copied, is_text) = Text-strncpy read in
      ground (arith, at_i, some_bytes, copied, is_text)

  copy-run :
      (i n : ℕ)
      → get_elem? mem i ≡ some n
      → n ≢ 0
      → copy_mdns_query_name mem i
        ≡ (strncpy mem (i + 1) n >>= λ label. Result.ok (some (with_dot n label)))
  unfolding copy_mdns_query_name
  copy-run i n at_i some_bytes = ground (arith, at_i, some_bytes)

  pub copy-Text :
      (i n : ℕ) {text : CString}
      → get_elem? mem i ≡ some n
      → n ≢ 0
      → copy_mdns_query_name mem i ≡ Result.ok (some text)
      → Text mem (i + 1) n text
  copy-Text i n {text} at_i some_bytes e =
      let (l, copied, ends) =
        bind-ok (strncpy mem (i + 1) n) _ (sym (copy-run i n at_i some_bytes) ∙ e) in
      let is_text : with_dot n l ≡ text = cc ends in
      subst (Text mem (i + 1) n) is_text (strncpy-Text n (i + 1) copied)
