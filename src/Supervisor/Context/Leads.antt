-- ===== src/Supervisor/Context/Leads.antt =====
-- From what a function of the supervisor leads to what, where the two differ.
use edgesec.Supervisor.Context.{Context, Run, M, bind_run, ◌>>=◌, ◌>>◌, get}
use edgesec.Supervisor.Context.Post.{Post, Keeps, KeepsWith, PostWith}

-- `m` leads from P to Q, and does not fault.
pub record Leads {A : Type 0} (P Q : Context → Type 0) (m : M A) : Type 0 where
  pub post : (c : Context) → P c → Post Q (m c)

module _ {A B : Type 0} {P Q : Context → Type 0} (w : (c : Context) → P c → Q c) where
  bind_run-Leads :
      {R : A → Type 0} (r : Run A) (f : A → M B)
      → PostWith R P r
      → ((a : A) → R a → Leads P Q (f a))
      → Post Q (bind_run r f)
  unfolding bind_run
  bind_run-Leads (Run.done a c) f h k = (k a h.0).post c h.1
  bind_run-Leads (Run.failed c) f h k = w c h
  bind_run-Leads Run.fault f h k = h

  pub bind-Leads :
      {R : A → Type 0} {m : M A} {f : A → M B}
      → KeepsWith R P m
      → ((a : A) → R a → Leads P Q (f a))
      → Leads P Q (m >>= f)
  unfolding ◌>>=◌
  bind-Leads {m = m} {f = f} hm hf = record {
    post = λ c p. bind_run-Leads (m c) f (hm.post c p) hf;
  }

  then_run-Leads : (r : Run A) (k : M B) → Post P r → Leads P Q k → Post Q (bind_run r (λ _. k))
  unfolding bind_run
  then_run-Leads (Run.done a c) k h g = g.post c h
  then_run-Leads (Run.failed c) k h g = w c h
  then_run-Leads Run.fault k h g = h

  pub then-Leads : {m : M A} {k : M B} → Keeps P m → Leads P Q k → Leads P Q (m >> k)
  unfolding ◌>>◌
  then-Leads {m = m} {k = k} hm hk = record {
    post = λ c p. then_run-Leads (m c) k (hm.post c p) hk;
  }

pub get-Leads :
    {B : Type 0} {P Q : Context → Type 0} (f : Context → M B)
    → ((c : Context) → P c → Post Q (f c c))
    → Leads P Q (get >>= f)
unfolding ◌>>=◌ get bind_run
get-Leads f h = record { post = h }

pub Keeps-Leads :
    {A : Type 0} {P Q : Context → Type 0} {m : M A}
    → ((c : Context) → P c → Q c)
    → Keeps Q m
    → Leads P Q m
Keeps-Leads w k = record { post = λ c p. k.post c (w c p) }
