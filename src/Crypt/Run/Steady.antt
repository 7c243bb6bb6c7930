-- ===== src/Crypt/Run/Steady.antt =====
-- Steps of src/crypt that neither read nor change the state.
use edgesec.Common.{
  ℕ, ◌≡◌, ap, ◌∙◌, ltb, ◌||◌, Option, none, some, List, length, take, Bool-cases, inl, inr,
}
use edgesec.Crypt.Run.{
  Crypto, CryptDb, CryptRun, K, bind_crypt, ◌>>=◌, pure, crash, or_fail, or_crash, aes_key_size,
  iv_size, with_cipher_key, crypto_decrypt,
}
use edgesec.Crypt.Run.Rules.{bind_crypt-done}

-- With a value from one state, the step gives that value from any other, and leaves both.
pub record Steady {A : Type 0} (m : K A) : Type 0 where
  pub steady :
      (s : CryptDb) {a : A} {s' : CryptDb}
      → m s ≡ CryptRun.done a s'
      → (s ≡ s') × ((t : CryptDb) → m t ≡ CryptRun.done a t)

pub pure-Steady : {A : Type 0} (a : A) → Steady (pure a)
unfolding pure
pure-Steady a = record { steady = λ s e. (cc e, λ t. ap (λ b. CryptRun.done b t) (cc e)) }

pub or_fail-Steady : {A : Type 0} (o : Option A) → Steady (or_fail o)
unfolding or_fail
or_fail-Steady none = record { steady = λ s e. absurd (cc e) }
or_fail-Steady (some a) = pure-Steady a

pub or_crash-Steady : {A : Type 0} (o : Option A) → Steady (or_crash o)
unfolding or_crash
or_crash-Steady none = record { steady = λ s e. absurd (cc e) }
or_crash-Steady (some a) = pure-Steady a

pub bind-Steady :
    {A B : Type 0} (m : K A) (f : A → K B) → Steady m → ((a : A) → Steady (f a)) → Steady (m >>= f)
unfolding ◌>>=◌ bind_crypt
bind-Steady m f h k = record {
  steady = λ s e.
      let (a, s1, e1, e2) = bind_crypt-done (m s) f e in
      let (kept, any) = h.steady s e1 in
      let (kept', any') = (k a).steady s1 e2 in (kept ∙ kept', λ t. rw (any t) (any' t));
}

pub crypto_decrypt-Steady :
    (crypto : Crypto) (input key iv : List ℕ) → Steady (crypto_decrypt crypto input key iv)
unfolding crypto_decrypt with_cipher_key crash
crypto_decrypt-Steady crypto input key iv =
    elim (Bool-cases (ltb (length key) aes_key_size || ltb (length iv) iv_size)) [
      | inl short ↦ record { steady = λ s e. absurd (cc (rw short at e)) }
      | inr enough ↦
          rw enough
            (or_fail-Steady (crypto.decrypt input (take aes_key_size key) (take iv_size iv)))
    ]
