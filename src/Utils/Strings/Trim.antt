-- ===== src/Utils/Strings/Trim.antt =====
-- What rtrim of src/utils/os.c leaves.
use edgesec.Common.{ℕ, ◌≡◌, ◌≢◌, refl, Bool, false, ◌||◌, [], ◌∷◌, ◌++◌, CString, arith}
use edgesec.Utils.Strings.{is_blank, trim_before, rtrim}

unfoldable pub has_blank : CString → Bool
has_blank [] = false
has_blank (c ∷ s) = is_blank c || has_blank s

trim_before-ne : (c : ℕ) (s : CString) → s ≢ [] → trim_before c s ≡ c ∷ s
unfolding trim_before
trim_before-ne c [] h = absurd (h refl)
trim_before-ne c (d ∷ s) h = refl

rtrim-word : (s : CString) → has_blank s ≡ false → rtrim s ≡ s
unfolding rtrim trim_before has_blank
rtrim-word [] h = refl
rtrim-word (c ∷ []) h = ground arith
rtrim-word (c ∷ d ∷ s) h = rw (rtrim-word (d ∷ s) (ground arith)) refl

append-ne : (s w : CString) → w ≢ [] → s ++ w ≢ []
append-ne [] w h = h
append-ne (c ∷ s) w h = λ e. cc

-- A text that ends in a word is left as it is.
pub rtrim-append : (s w : CString) → w ≢ [] → has_blank w ≡ false → rtrim (s ++ w) ≡ s ++ w
unfolding rtrim
rtrim-append [] w h b = rtrim-word w b
rtrim-append (c ∷ s) w h b = rw (rtrim-append s w h b) (trim_before-ne c (s ++ w) (append-ne s w h))
