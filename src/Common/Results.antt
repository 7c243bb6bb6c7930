-- ===== src/Common/Results.antt =====
-- The result of C code that may fail, touch memory that is not its own, or not return: `err` is -1,
-- `fault` such an access, and `stuck` a recursion that goes deeper than the fuel.
use mathlib.Core.Option.{Option, none, some}
use mathlib.Core.List.{List}
use Prim.Native.Nat.{ℕ}
use mathlib.Core.Path.{◌≡◌, refl}
use mathlib.Core.Logic.{◌≢◌}
use native.Mathlib.Omega.{arith}
use edgesec.Common.Lists.{get_elem?}

pub data Result {ℓ} (A : Type ℓ) : Type ℓ where
  ok : A → Result A
  err : Result A
  fault : Result A
  stuck : Result A

infixl 5 ◌>>=◌
abbrev pub ◌>>=◌ {ℓ κ} : {A : Type ℓ} {B : Type κ} → Result A → (A → Result B) → Result B
Result.ok a >>= f = f a
Result.err >>= f = Result.err
Result.fault >>= f = Result.fault
Result.stuck >>= f = Result.stuck

-- A byte of a block of memory.
abbrev pub byte_at : List ℕ → ℕ → Result ℕ
byte_at mem i = elim (get_elem? mem i) [ none ↦ Result.fault | some b ↦ Result.ok b ]

abbrev pub from_option {ℓ} : {A : Type ℓ} → Option A → Result A
from_option none = Result.err
from_option (some a) = Result.ok a

pub bind-ok {ℓ κ} :
    {A : Type ℓ} {B : Type κ} (r : Result A) (f : A → Result B) {b : B}
    → (r >>= f) ≡ Result.ok b
    → (a : A) × (r ≡ Result.ok a) × (f a ≡ Result.ok b)
bind-ok (Result.ok a) f e = (a, refl, e)
bind-ok Result.err f e = cc
bind-ok Result.fault f e = cc
bind-ok Result.stuck f e = cc

pub byte_at-ok :
    (mem : List ℕ) (i : ℕ) {b : ℕ} → byte_at mem i ≡ Result.ok b → get_elem? mem i ≡ some b
byte_at-ok mem i e = ground arith

pub bind-ne_stuck {ℓ κ} :
    {A : Type ℓ} {B : Type κ} (r : Result A) (f : A → Result B)
    → r ≢ Result.stuck
    → ((a : A) → f a ≢ Result.stuck)
    → (r >>= f) ≢ Result.stuck
bind-ne_stuck (Result.ok a) f h k = k a
bind-ne_stuck Result.err f h k = λ e. cc
bind-ne_stuck Result.fault f h k = λ e. cc
bind-ne_stuck Result.stuck f h k = absurd (h refl)

pub byte_at-ne_stuck : (mem : List ℕ) (i : ℕ) → byte_at mem i ≢ Result.stuck
byte_at-ne_stuck mem i e = ground arith

pub from_option-ne_stuck {ℓ} : {A : Type ℓ} (o : Option A) → from_option o ≢ Result.stuck
from_option-ne_stuck none = λ e. cc
from_option-ne_stuck (some a) = λ e. cc
