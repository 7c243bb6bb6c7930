-- ===== src/Utils/Strings/Split.antt =====
-- What split_string and rtrim of src/utils/os.c give.
use edgesec.Common.{
  ℕ, ◌==◌, ==_iff, ==_refl, ◌≡◌, ◌≢◌, inl, inr, refl, sym, ap, ◌∙◌, Bool, false, ◌||◌, List, [],
  ◌∷◌, ◌++◌, CString, All, Bool-cases, arith,
}
use mathlib.Core.List.{append_assoc, append-nil}
use edgesec.Utils.Strings.{split_from, split_string_array}

-- The words with the separator between them.
unfoldable pub join : ℕ → List CString → CString
join sep [] = []
join sep (w ∷ []) = w
join sep (w ∷ v ∷ ws) = w ++ sep ∷ join sep (v ∷ ws)

unfoldable pub has_byte : ℕ → CString → Bool
has_byte c [] = false
has_byte c (d ∷ s) = (d == c) || has_byte c s

join-cons :
    (sep : ℕ) (w : CString) (ws : List CString)
    → ws ≢ []
    → join sep (w ∷ ws) ≡ w ++ sep ∷ join sep ws
unfolding join
join-cons sep w [] h = absurd (h refl)
join-cons sep w (v ∷ ws) h = refl

pub split_from-ne : (sep : ℕ) (word s : CString) → split_from sep word s ≢ []
unfolding split_from
split_from-ne sep word [] = λ e. cc
split_from-ne sep word (c ∷ s) = elim (Bool-cases (c == sep)) [
  | inl hit ↦ rw hit (λ e. cc)
  | inr miss ↦ rw miss (split_from-ne sep (word ++ c ∷ []) s)
]

join-split_from : (sep : ℕ) (word s : CString) → join sep (split_from sep word s) ≡ word ++ s
unfolding split_from
join-split_from sep word [] = unfold join in sym (append-nil word)
join-split_from sep word (c ∷ s) = elim (Bool-cases (c == sep)) [
  | inl hit ↦ rw hit (
      join-cons sep word (split_from sep [] s) (split_from-ne sep [] s)
      ∙ ap (λ t. word ++ sep ∷ t) (join-split_from sep [] s)
      ∙ ap (λ t. word ++ t ∷ s) (sym ((==_iff c sep).0 hit)))
  | inr miss ↦ rw miss (join-split_from sep (word ++ c ∷ []) s ∙ append_assoc word (c ∷ []) s)
]

pub has_byte-append : (c : ℕ) (s t : CString) → has_byte c (s ++ t) ≡ (has_byte c s || has_byte c t)
unfolding has_byte
has_byte-append c [] t = refl
has_byte-append c (d ∷ s) t = ground (arith, has_byte-append c s t)

-- Words with no separator in them.
abbrev pub Separated : ℕ → List CString → Type 0
Separated sep = All (λ w. has_byte sep w ≡ false)

split_from-Separated :
    (sep : ℕ) (word s : CString) → has_byte sep word ≡ false → Separated sep (split_from sep word s)
unfolding split_from has_byte
split_from-Separated sep word [] h = (h, tt)
split_from-Separated sep word (c ∷ s) h = elim (Bool-cases (c == sep)) [
  | inl hit ↦ rw hit (h, split_from-Separated sep [] s refl)
  | inr miss ↦ rw miss (
      split_from-Separated sep (word ++ c ∷ []) s
        (ground (arith, has_byte-append sep word (c ∷ []))))
]

-- split_string_array cuts a text into words without the separator, and the words with the
-- separator between them are the text again.
pub split_string_array_lem :
    (s : CString) (sep : ℕ)
    → (join sep (split_string_array s sep) ≡ s) × Separated sep (split_string_array s sep)
unfolding split_string_array has_byte
split_string_array_lem s sep = (join-split_from sep [] s, split_from-Separated sep [] s refl)

or_false_left : (a b : Bool) → (a || b) ≡ false → a ≡ false
or_false_left a b h = ground arith

or_false_right : (a b : Bool) → (a || b) ≡ false → b ≡ false
or_false_right a b h = ground arith

split_from-word :
    (sep : ℕ) (word w : CString) → has_byte sep w ≡ false → split_from sep word w ≡ (word ++ w) ∷ []
unfolding split_from has_byte
split_from-word sep word [] h = ap (λ t. t ∷ []) (sym (append-nil word))
split_from-word sep word (c ∷ w) h = rw (or_false_left (c == sep) (has_byte sep w) h) (
    split_from-word sep (word ++ c ∷ []) w (or_false_right (c == sep) (has_byte sep w) h)
    ∙ ap (λ t. t ∷ []) (append_assoc word (c ∷ []) w))

split_from-cons :
    (sep : ℕ) (word w s : CString)
    → has_byte sep w ≡ false
    → split_from sep word (w ++ sep ∷ s) ≡ (word ++ w) ∷ split_from sep [] s
unfolding split_from has_byte
split_from-cons sep word [] s h =
    rw (==_refl sep) (ap (λ t. t ∷ split_from sep [] s) (sym (append-nil word)))
split_from-cons sep word (c ∷ w) s h = rw (or_false_left (c == sep) (has_byte sep w) h) (
    split_from-cons sep (word ++ c ∷ []) w s (or_false_right (c == sep) (has_byte sep w) h)
    ∙ ap (λ t. t ∷ split_from sep [] s) (append_assoc word (c ∷ []) w))

-- The words of a text that was joined from them.
pub split_string_array-join :
    (w : CString) (ws : List CString) (sep : ℕ)
    → Separated sep (w ∷ ws)
    → split_string_array (join sep (w ∷ ws)) sep ≡ w ∷ ws
unfolding split_string_array join
split_string_array-join w [] sep h = split_from-word sep [] w h.0
split_string_array-join w (v ∷ ws) sep h =
    split_from-cons sep [] w (join sep (v ∷ ws)) h.0
    ∙ ap (λ t. w ∷ t) (split_string_array-join v ws sep h.1)
