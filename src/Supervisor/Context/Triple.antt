-- ===== src/Supervisor/Context/Triple.antt =====
-- What the functions of the supervisor do: from P, they return a value and a state with Q, or -1
-- and a state with E, and do not fault.
use edgesec.Common.{◌≡◌, refl, Bool, true, false, if◌then◌else◌}
use edgesec.Supervisor.Context.{
  Context, Run, M, Env, Call, bind_run, ◌>>=◌, ◌>>◌, pure, fail, get, modify, unless_fail,
  catch_run, succeeds?, call, must, alloc_if,
}
use edgesec.Supervisor.Context.Post.{Post, IgnoresTrace}

abbrev pub Outcome : {A : Type 0} → (A → Context → Type 0) → (Context → Type 0) → Run A → Type 0
Outcome Q E (Run.done a c) = Q a c
Outcome Q E (Run.failed c) = E c
Outcome Q E Run.fault = ⊥

pub record Triple {A : Type 0} (P : Context → Type 0) (m : M A) (Q : A → Context → Type 0)
    (E : Context → Type 0) : Type 0 where
  pub run : (c : Context) → P c → Outcome Q E (m c)

module _ {A B : Type 0} (R : A → Context → Type 0) (Q : B → Context → Type 0)
    (E : Context → Type 0) where
  bind_run-Outcome :
      (r : Run A) (f : A → M B)
      → Outcome R E r
      → ((a : A) → Triple (R a) (f a) Q E)
      → Outcome Q E (bind_run r f)
  unfolding bind_run
  bind_run-Outcome (Run.done a c) f h k = (k a).run c h
  bind_run-Outcome (Run.failed c) f h k = h
  bind_run-Outcome Run.fault f h k = h

module _ {A B : Type 0} {P : Context → Type 0} {R : A → Context → Type 0} {Q : B → Context → Type 0}
    {E : Context → Type 0} where
  pub bind-Triple :
      {m : M A} {f : A → M B}
      → Triple P m R E
      → ((a : A) → Triple (R a) (f a) Q E)
      → Triple P (m >>= f) Q E
  unfolding ◌>>=◌
  bind-Triple {m = m} {f = f} hm hf = record {
    run = λ c p. bind_run-Outcome R Q E (m c) f (hm.run c p) hf;
  }

  pub then-Triple :
      {m : M A} {k : M B} → Triple P m R E → ((a : A) → Triple (R a) k Q E) → Triple P (m >> k) Q E
  unfolding ◌>>◌
  then-Triple {m = m} {k = k} hm hk = record {
    run = λ c p. bind_run-Outcome R Q E (m c) (λ _. k) (hm.run c p) hk;
  }

module _ {A : Type 0} {P : Context → Type 0} {Q : A → Context → Type 0} {E : Context → Type 0} where
  pub get-Triple :
      (f : Context → M A) → ((c : Context) → P c → Outcome Q E (f c c)) → Triple P (get >>= f) Q E
  unfolding ◌>>=◌ get bind_run
  get-Triple f h = record { run = h }

  pub pure-Triple : (a : A) → ((c : Context) → P c → Q a c) → Triple P (pure a) Q E
  unfolding pure
  pure-Triple a h = record { run = h }

  pub fail-Triple : ((c : Context) → P c → E c) → Triple P (fail {A = A}) Q E
  unfolding fail
  fail-Triple h = record { run = h }

module _ {A : Type 0} {P : Context → Type 0} {Q : A → Context → Type 0} {E : Context → Type 0} where
  pub if-Triple :
      {m k : M A} (b : Bool) → Triple P m Q E → Triple P k Q E → Triple P (if b then m else k) Q E
  if-Triple true h k = h
  if-Triple false h k = k

module _ {P : Context → Type 0} {Q E : Context → Type 0} where
  pub modify-Triple :
      (f : Context → Context) → ((c : Context) → P c → Q (f c)) → Triple P (modify f) (λ _. Q) E
  unfolding modify
  modify-Triple f h = record { run = h }

  pub unless_fail-Triple :
      (b : Bool)
      → ((c : Context) → P c → b ≡ true → Q c)
      → ((c : Context) → P c → b ≡ false → E c)
      → Triple P (unless_fail b) (λ _. Q) E
  unfolding unless_fail
  unless_fail-Triple true h k = record { run = λ c p. h c p refl }
  unless_fail-Triple false h k = record { run = λ c p. k c p refl }

-- Does it succeed? Then Q, else E.
abbrev pub BySuccess : (Context → Type 0) → (Context → Type 0) → Bool → Context → Type 0
BySuccess Q E true c = Q c
BySuccess Q E false c = E c

catch_run-Outcome :
    {A : Type 0} (Q : A → Context → Type 0) (Q' E E' : Context → Type 0) (r : Run A)
    → ((a : A) (c : Context) → Q a c → Q' c)
    → Outcome Q E r
    → Outcome (BySuccess Q' E) E' (catch_run r)
unfolding catch_run
catch_run-Outcome Q Q' E E' (Run.done a c) w h = w a c h
catch_run-Outcome Q Q' E E' (Run.failed c) w h = h
catch_run-Outcome Q Q' E E' Run.fault w h = h

pub succeeds?-Triple :
    {A : Type 0} {P : Context → Type 0} {m : M A} {Q E E' : Context → Type 0}
    → Triple P m (λ _. Q) E
    → Triple P (succeeds? m) (BySuccess Q E) E'
unfolding succeeds?
succeeds?-Triple {m = m} {Q = Q} {E = E} {E' = E'} h = record {
  run = λ c p. catch_run-Outcome (λ _. Q) Q E E' (m c) (λ a d q. q) (h.run c p);
}

module _ {P E : Context → Type 0} (t : IgnoresTrace P) (env : Env) where
  pub call-Triple : (k : Call) → Triple P (call env k) (λ _. P) E
  unfolding call
  call-Triple k = record { run = λ c p. t c k p }

  pub alloc_if-Triple : (b : Bool) → Triple P (alloc_if env b) (λ _. P) E
  unfolding alloc_if
  alloc_if-Triple true = call-Triple Call.os_malloc
  alloc_if-Triple false = pure-Triple true (λ c p. p)

  pub must-Triple : (k : Call) → ((c : Context) → P c → E c) → Triple P (must env k) (λ _. P) E
  unfolding must
  must-Triple k w =
      bind-Triple (call-Triple k) λ b. unless_fail-Triple b (λ c p e. p) (λ c p e. w c p)

-- It returns, and not by -1.
pub returns :
    {A : Type 0} (Q : A → Context → Type 0) (r : Run A)
    → Outcome Q (λ c. ⊥) r
    → (a : A) × (c : Context) × (r ≡ Run.done a c) × Q a c
returns Q (Run.done a c) h = (a, c, refl, h)
returns Q (Run.failed c) h = absurd h
returns Q Run.fault h = absurd h

-- A weaker result.
weaken_run :
    {A : Type 0} (Q Q' : A → Context → Type 0) (E E' : Context → Type 0) (r : Run A)
    → ((a : A) (c : Context) → Q a c → Q' a c)
    → ((c : Context) → E c → E' c)
    → Outcome Q E r
    → Outcome Q' E' r
weaken_run Q Q' E E' (Run.done a c) f g h = f a c h
weaken_run Q Q' E E' (Run.failed c) f g h = g c h
weaken_run Q Q' E E' Run.fault f g h = h

pub weaken :
    {A : Type 0} {P : Context → Type 0} {m : M A} {Q Q' : A → Context → Type 0}
    {E E' : Context → Type 0}
    → Triple P m Q E
    → ((a : A) (c : Context) → Q a c → Q' a c)
    → ((c : Context) → E c → E' c)
    → Triple P m Q' E'
weaken {m = m} {Q = Q} {Q' = Q'} {E = E} {E' = E'} t f g = record {
  run = λ c p. weaken_run Q Q' E E' (m c) f g (t.run c p);
}

pub weaken_from :
    {A : Type 0} {P P' : Context → Type 0} {m : M A} {Q Q' : A → Context → Type 0}
    {E E' : Context → Type 0}
    → ((c : Context) → P' c → P c)
    → Triple P m Q E
    → ((a : A) (c : Context) → Q a c → Q' a c)
    → ((c : Context) → E c → E' c)
    → Triple P' m Q' E'
weaken_from {m = m} {Q = Q} {Q' = Q'} {E = E} {E' = E'} d t f g = record {
  run = λ c p. weaken_run Q Q' E E' (m c) f g (t.run c (d c p));
}

-- A fact that does not speak of the state.
pub premise :
    {A : Type 0} {H : Type 0} {P : Context → Type 0} {m : M A} {Q : A → Context → Type 0}
    {E : Context → Type 0}
    → (H → Triple P m Q E)
    → Triple (λ c. H × P c) m Q E
premise f = record { run = λ c p. (f p.0).run c p.1 }

-- Two results at once.
pub both_outcomes :
    {A : Type 0} (Q : A → Context → Type 0) (E P : Context → Type 0) (r : Run A)
    → Outcome Q E r
    → Post P r
    → Outcome (λ a c. Q a c × P c) (λ c. E c × P c) r
both_outcomes Q E P (Run.done a c) h k = (h, k)
both_outcomes Q E P (Run.failed c) h k = (h, k)
both_outcomes Q E P Run.fault h k = h

pub weaken-Outcome :
    {A : Type 0} {Q Q' : A → Context → Type 0} {E E' : Context → Type 0} (r : Run A)
    → ((a : A) (c : Context) → Q a c → Q' a c)
    → ((c : Context) → E c → E' c)
    → Outcome Q E r
    → Outcome Q' E' r
weaken-Outcome {Q = Q} {Q' = Q'} {E = E} {E' = E'} r f g h = weaken_run Q Q' E E' r f g h
