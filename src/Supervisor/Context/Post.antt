-- ===== src/Supervisor/Context/Post.antt =====
-- What holds of the state when a function of the supervisor returns, by 0 or by -1; and that it
-- does return, with no access to memory that is not the program's.
use edgesec.Common.{Bool, true, false, if◌then◌else◌, ◌∷◌}
use edgesec.Supervisor.Context.{
  Context, Run, M, Env, Call, bind_run, ◌>>=◌, ◌>>◌, pure, fail, get, modify, unless_fail,
  catch_run, succeeds?, attempt_run, attempt, call, must, alloc_if,
}

abbrev pub Post : {A : Type 0} → (Context → Type 0) → Run A → Type 0
Post P (Run.done a c) = P c
Post P (Run.failed c) = P c
Post P Run.fault = ⊥

-- `m` keeps P, and does not fault.
pub record Keeps {A : Type 0} (P : Context → Type 0) (m : M A) : Type 0 where
  pub post : (c : Context) → P c → Post P (m c)

catch_run-Post : {A : Type 0} (P : Context → Type 0) (r : Run A) → Post P r → Post P (catch_run r)
unfolding catch_run
catch_run-Post P (Run.done a c) h = h
catch_run-Post P (Run.failed c) h = h
catch_run-Post P Run.fault h = h

attempt_run-Post :
    {A : Type 0} (P : Context → Type 0) (r : Run A) → Post P r → Post P (attempt_run r)
unfolding attempt_run
attempt_run-Post P (Run.done a c) h = h
attempt_run-Post P (Run.failed c) h = h
attempt_run-Post P Run.fault h = h

module _ {P : Context → Type 0} where
  bind_run-Post :
      {A B : Type 0} (r : Run A) (f : A → M B)
      → Post P r
      → ((a : A) → Keeps P (f a))
      → Post P (bind_run r f)
  unfolding bind_run
  bind_run-Post (Run.done a c) f h k = (k a).post c h
  bind_run-Post (Run.failed c) f h k = h
  bind_run-Post Run.fault f h k = h

  pub bind-Keeps :
      {A B : Type 0} {m : M A} {f : A → M B}
      → Keeps P m
      → ((a : A) → Keeps P (f a))
      → Keeps P (m >>= f)
  unfolding ◌>>=◌
  bind-Keeps {m = m} {f = f} hm hf = record { post = λ c p. bind_run-Post (m c) f (hm.post c p) hf }

  pub then-Keeps : {A B : Type 0} {m : M A} {k : M B} → Keeps P m → Keeps P k → Keeps P (m >> k)
  unfolding ◌>>◌
  then-Keeps {m = m} {k = k} hm hk = record {
    post = λ c p. bind_run-Post (m c) (λ _. k) (hm.post c p) (λ _. hk);
  }

  -- The value that `get` gives is the state, so the rest may use P of it.
  pub get-Keeps :
      {B : Type 0} (f : Context → M B)
      → ((c : Context) → P c → Post P (f c c))
      → Keeps P (get >>= f)
  unfolding ◌>>=◌ get bind_run
  get-Keeps f h = record { post = h }

  pub pure-Keeps : {A : Type 0} (a : A) → Keeps P (pure a)
  unfolding pure
  pure-Keeps a = record { post = λ c p. p }

  pub fail-Keeps : {A : Type 0} → Keeps P (fail {A = A})
  unfolding fail
  fail-Keeps = record { post = λ c p. p }

  pub modify-Keeps : (f : Context → Context) → ((c : Context) → P c → P (f c)) → Keeps P (modify f)
  unfolding modify
  modify-Keeps f h = record { post = h }

  pub unless_fail-Keeps : (b : Bool) → Keeps P (unless_fail b)
  unless_fail-Keeps b = record { post = λ c p. step b c p }
    where
      step : (b : Bool) (c : Context) → P c → Post P (unless_fail b c)
      step true c p = unfold unless_fail in p
      step false c p = unfold unless_fail in p

  pub if-Keeps :
      {A : Type 0} {m k : M A} (b : Bool) → Keeps P m → Keeps P k → Keeps P (if b then m else k)
  if-Keeps true h k = h
  if-Keeps false h k = k

  pub succeeds?-Keeps : {A : Type 0} {m : M A} → Keeps P m → Keeps P (succeeds? m)
  unfolding succeeds?
  succeeds?-Keeps {m = m} h = record { post = λ c p. catch_run-Post P (m c) (h.post c p) }

  pub attempt-Keeps : {A : Type 0} {m : M A} → Keeps P m → Keeps P (attempt m)
  unfolding attempt
  attempt-Keeps {m = m} h = record { post = λ c p. attempt_run-Post P (m c) (h.post c p) }

-- `m` keeps P, does not fault, and its value is Q.
abbrev pub PostWith : {A : Type 0} → (A → Type 0) → (Context → Type 0) → Run A → Type 0
PostWith Q P (Run.done a c) = Q a × P c
PostWith Q P (Run.failed c) = P c
PostWith Q P Run.fault = ⊥

pub record KeepsWith {A : Type 0} (Q : A → Type 0) (P : Context → Type 0) (m : M A) : Type 0 where
  pub post : (c : Context) → P c → PostWith Q P (m c)

module _ {A : Type 0} {Q : A → Type 0} {P : Context → Type 0} where
  pub pure-KeepsWith : (a : A) → Q a → KeepsWith Q P (pure a)
  unfolding pure
  pure-KeepsWith a q = record { post = λ c p. (q, p) }

  pub fail-KeepsWith : KeepsWith Q P (fail {A = A})
  unfolding fail
  fail-KeepsWith = record { post = λ c p. p }

  pub get-KeepsWith :
      (f : Context → M A) → ((c : Context) → P c → PostWith Q P (f c c)) → KeepsWith Q P (get >>= f)
  unfolding ◌>>=◌ get bind_run
  get-KeepsWith f h = record { post = h }

  bind_run-PostWith :
      {B : Type 0} (r : Run A) (f : A → M B)
      → PostWith Q P r
      → ((a : A) → Q a → Keeps P (f a))
      → Post P (bind_run r f)
  unfolding bind_run
  bind_run-PostWith (Run.done a c) f h k = (k a h.0).post c h.1
  bind_run-PostWith (Run.failed c) f h k = h
  bind_run-PostWith Run.fault f h k = h

  pub bind-KeepsWith :
      {B : Type 0} {m : M A} {f : A → M B}
      → KeepsWith Q P m
      → ((a : A) → Q a → Keeps P (f a))
      → Keeps P (m >>= f)
  unfolding ◌>>=◌
  bind-KeepsWith {m = m} {f = f} hm hf = record {
    post = λ c p. bind_run-PostWith (m c) f (hm.post c p) hf;
  }

module _ {A B : Type 0} {Q : B → Type 0} {P : Context → Type 0} where
  bind_run-ending :
      (r : Run A) (f : A → M B)
      → Post P r
      → ((a : A) → KeepsWith Q P (f a))
      → PostWith Q P (bind_run r f)
  unfolding bind_run
  bind_run-ending (Run.done a c) f h k = (k a).post c h
  bind_run-ending (Run.failed c) f h k = h
  bind_run-ending Run.fault f h k = h

  -- The value is that of the last part.
  pub bind-ending :
      {m : M A} {f : A → M B}
      → Keeps P m
      → ((a : A) → KeepsWith Q P (f a))
      → KeepsWith Q P (m >>= f)
  unfolding ◌>>=◌
  bind-ending {m = m} {f = f} hm hf = record {
    post = λ c p. bind_run-ending (m c) f (hm.post c p) hf;
  }

-- A predicate that the trace of calls does not touch.
abbrev pub IgnoresTrace : (Context → Type 0) → Type 0
IgnoresTrace P = (c : Context) (k : Call) → P c → P (record c { trace = k ∷ c.trace })

module _ {P : Context → Type 0} (t : IgnoresTrace P) (env : Env) where
  pub call-Keeps : (k : Call) → Keeps P (call env k)
  unfolding call
  call-Keeps k = record { post = λ c p. t c k p }

  pub must-Keeps : (k : Call) → Keeps P (must env k)
  unfolding must
  must-Keeps k = bind-Keeps (call-Keeps k) (λ b. unless_fail-Keeps b)

  pub alloc_if-Keeps : (b : Bool) → Keeps P (alloc_if env b)
  unfolding alloc_if
  alloc_if-Keeps true = call-Keeps Call.os_malloc
  alloc_if-Keeps false = pure-Keeps true
