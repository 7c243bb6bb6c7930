-- ===== src/Dns/Handler/Returns.antt =====
-- How a property of the results goes through the early returns of src/dns/mdns_service.c.
use edgesec.Common.{◌≡◌, refl, if◌then◌else◌, Bool, true, false, Option, none, some}
use edgesec.Common.Results.{Result}
use edgesec.Dns.Handler.{or_return, or_return_none}

-- What a result satisfies, if there is one.
abbrev pub Returns : {A : Type 0} → (A → Type 0) → Result A → Type 0
Returns Q (Result.ok a) = Q a
Returns Q Result.err = Unit
Returns Q Result.fault = Unit
Returns Q Result.stuck = Unit

pub or_return-Returns :
    {A B : Type 0} (Q : B → Type 0) (r : Result A) (b : B) (f : A → Result B)
    → Q b
    → ((a : A) → r ≡ Result.ok a → Returns Q (f a))
    → Returns Q (or_return r b f)
unfolding or_return
or_return-Returns Q (Result.ok a) b f h k = k a refl
or_return-Returns Q Result.err b f h k = h
or_return-Returns Q Result.fault b f h k = tt
or_return-Returns Q Result.stuck b f h k = tt

pub or_return_none-Returns :
    {A B : Type 0} (Q : B → Type 0) (o : Option A) (b : B) (f : A → Result B)
    → Q b
    → ((a : A) → o ≡ some a → Returns Q (f a))
    → Returns Q (or_return_none o b f)
unfolding or_return_none
or_return_none-Returns Q none b f h k = h
or_return_none-Returns Q (some a) b f h k = k a refl

pub if-Returns :
    {A : Type 0} (Q : A → Type 0) (b : Bool) (x y : Result A)
    → Returns Q x
    → Returns Q y
    → Returns Q (if b then x else y)
if-Returns Q true x y h k = h
if-Returns Q false x y h k = k
