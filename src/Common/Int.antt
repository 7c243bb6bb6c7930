-- ===== src/Common/Int.antt =====
-- The C type int, as an integer: `negsuc n` is -(n + 1).
use Prim.Native.Nat.{ℕ}
use mathlib.Core.Path.{◌≡◌}
use mathlib.Core.Logic.{◌↔◌}
use mathlib.Core.Bool.{Bool, true, false}
use native.Mathlib.Omega.{arith}
use edgesec.Common.Tests.{◌==◌}

pub data ℤ : Type 0 where
  pos : ℕ → ℤ
  negsuc : ℕ → ℤ

abbrev pub minus_one : ℤ
minus_one = ℤ.negsuc 0

unfoldable pub int_eq : ℤ → ℤ → Bool
int_eq (ℤ.pos a) (ℤ.pos b) = a == b
int_eq (ℤ.pos a) (ℤ.negsuc b) = false
int_eq (ℤ.negsuc a) (ℤ.pos b) = false
int_eq (ℤ.negsuc a) (ℤ.negsuc b) = a == b

pub int_eq_iff : (a b : ℤ) → (int_eq a b ≡ true) ↔ (a ≡ b)
unfolding int_eq
int_eq_iff (ℤ.pos a) (ℤ.pos b) = ground arith
int_eq_iff (ℤ.pos a) (ℤ.negsuc b) = ground arith
int_eq_iff (ℤ.negsuc a) (ℤ.pos b) = ground arith
int_eq_iff (ℤ.negsuc a) (ℤ.negsuc b) = ground arith
