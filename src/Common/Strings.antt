-- ===== src/Common/Strings.antt =====
-- C strings: the bytes before the terminating NUL. And MAC addresses, six bytes.
use Prim.Native.Nat.{ℕ, ◌-◌, ◌<◌}
use Prim.Native.Char.{code}
use Prim.Native.String.{String}
use mathlib.Core.Path.{◌≡◌, refl}
use mathlib.Core.Logic.{◌↔◌}
use mathlib.Core.Bool.{Bool, true, false, ◌&&◌}
use mathlib.Core.List.{List, [], ◌∷◌}
use native.Mathlib.Omega.{arith}
use edgesec.Common.Tests.{◌==◌}
use edgesec.Common.Lists.{length, take, length-take}

abbrev pub CString : Type 0
CString = List ℕ

-- The bytes of a literal in the source.
abbrev pub codes : String → CString
codes String.[] = []
codes (String.◌∷◌ c s) = code c ∷ codes s

-- strcmp(a, b) == 0.
unfoldable pub str_eq : CString → CString → Bool
str_eq [] [] = true
str_eq [] (b ∷ t) = false
str_eq (a ∷ s) [] = false
str_eq (a ∷ s) (b ∷ t) = (a == b) && str_eq s t

pub str_eq_sound : (s t : CString) → str_eq s t ≡ true → s ≡ t
unfolding str_eq
str_eq_sound [] [] h = refl
str_eq_sound [] (b ∷ t) h = cc
str_eq_sound (a ∷ s) [] h = cc
str_eq_sound (a ∷ s) (b ∷ t) h = ground (arith, str_eq_sound s t)

pub str_eq_refl : (s : CString) → str_eq s s ≡ true
unfolding str_eq
str_eq_refl [] = refl
str_eq_refl (a ∷ s) = ground (arith, str_eq_refl s)

-- os_strlcpy(dest, src, n) leaves the first n - 1 bytes of src in dest.
abbrev pub os_strlcpy : CString → ℕ → CString
os_strlcpy src n = take (n - 1) src

pub length-os_strlcpy : (s : CString) (n : ℕ) → 0 < n → length (os_strlcpy s n) < n
length-os_strlcpy s n h = omega (arith, length-take (n - 1) s)

pub record Mac : Type 0 where
  pub b0 : ℕ
  pub b1 : ℕ
  pub b2 : ℕ
  pub b3 : ℕ
  pub b4 : ℕ
  pub b5 : ℕ

-- memcmp(a, b, ETHER_ADDR_LEN) == 0.
unfoldable pub mac_eq : Mac → Mac → Bool
mac_eq a b =
    (a.b0 == b.b0)
    && ((a.b1 == b.b1)
        && ((a.b2 == b.b2) && ((a.b3 == b.b3) && ((a.b4 == b.b4) && (a.b5 == b.b5)))))

pub mac_eq_iff : (a b : Mac) → (mac_eq a b ≡ true) ↔ (a ≡ b)
unfolding mac_eq
mac_eq_iff a b = ground arith

pub mac_eq_refl : (a : Mac) → mac_eq a a ≡ true
mac_eq_refl a = (mac_eq_iff a a).1 refl
