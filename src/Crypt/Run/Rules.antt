-- ===== src/Crypt/Run/Rules.antt =====
-- How results go through the steps of src/crypt, and what is documented of the libraries.
use edgesec.Common.{
  ℕ, ◌+◌, ◌<◌, ◌≤◌, ◌≡◌, refl, ltb, true, false, ◌||◌, Option, none, some, List, ◌∷◌, CString, ℤ,
  int_eq, length, take, is_some, Bool-cases, inl, inr,
}
use edgesec.Crypt.Run.{
  Crypto, CryptDb, CryptRun, K, bind_crypt, or_fail, aes_key_size, iv_size, with_cipher_key,
  crypto_encrypt, crypto_decrypt,
}

-- sqlite and the random generator work, base64 of at least one byte is undone by its inverse, and so
-- is the cipher; a cipher text is at most a block longer and, with its padding, not empty, and a key
-- that is made from a secret has the size asked for. Nothing is asked of base64 on no bytes, where
-- base64_gen_decode of src/utils/base64.c gives NULL.
pub record Works (crypto : Crypto) : Type 0 where
  pub sql : (n : ℕ) → crypto.sql n ≡ true
  pub random : (d size : ℕ) → int_eq (crypto.rand_bytes d size).0 (ℤ.pos 0) ≡ false
  pub random_length : (d size : ℕ) → length (crypto.rand_bytes d size).1 ≡ size
  pub base64_total : (b : ℕ) (bytes : List ℕ) → is_some (crypto.base64_encode (b ∷ bytes)) ≡ true
  pub base64 :
      (b : ℕ) (bytes : List ℕ) (text : CString)
      → crypto.base64_encode (b ∷ bytes) ≡ some text
      → crypto.base64_decode text ≡ some (b ∷ bytes)
  pub cipher :
      (input key iv enc : List ℕ)
      → crypto.encrypt input key iv ≡ some enc
      → crypto.decrypt enc key iv ≡ some input
  pub cipher_length :
      (input key iv enc : List ℕ)
      → crypto.encrypt input key iv ≡ some enc
      → length enc ≤ length input + 16
  pub cipher_nonempty :
      (input key iv enc : List ℕ) → crypto.encrypt input key iv ≡ some enc → 0 < length enc
  pub key_length :
      (secret salt key : List ℕ) → crypto.buf2key secret salt ≡ some key → length key ≡ 32

pub bind_crypt-done :
    {A B : Type 0} (r : CryptRun A) (f : A → K B) {b : B} {s' : CryptDb}
    → bind_crypt r f ≡ CryptRun.done b s'
    → (a : A) × (s : CryptDb) × (r ≡ CryptRun.done a s) × (f a s ≡ CryptRun.done b s')
unfolding bind_crypt
bind_crypt-done (CryptRun.done a s) f e = (a, s, refl, e)
bind_crypt-done (CryptRun.failed s) f e = cc
bind_crypt-done CryptRun.fault f e = cc

pub or_fail-done :
    {A : Type 0} (o : Option A) (s : CryptDb) {a : A} {s' : CryptDb}
    → or_fail o s ≡ CryptRun.done a s'
    → (o ≡ some a) × (s ≡ s')
unfolding or_fail
or_fail-done none s e = absurd (cc e)
or_fail-done (some b) s e = (cc e, cc e)

-- What the cipher has made it takes back, with the same key and vector.
pub crypto_decrypt-crypto_encrypt :
    (crypto : Crypto)
    → Works crypto
    → (input key iv : List ℕ) (s t : CryptDb) {enc : List ℕ} {s' : CryptDb}
    → crypto_encrypt crypto input key iv s ≡ CryptRun.done enc s'
    → (crypto_decrypt crypto enc key iv t ≡ CryptRun.done input t)
      × (s ≡ s')
      × (length enc ≤ length input + 16)
      × (0 < length enc)
unfolding crypto_encrypt crypto_decrypt with_cipher_key or_fail
crypto_decrypt-crypto_encrypt crypto w input key iv s t {enc} {s'} e =
    elim (Bool-cases (ltb (length key) aes_key_size || ltb (length iv) iv_size)) [
      | inl short ↦ absurd (cc (rw short at e))
      | inr enough ↦
          let (made, same) =
            or_fail-done (crypto.encrypt input (take aes_key_size key) (take iv_size iv)) s
              (rw enough at e) in
          (
            rw (enough, w.cipher input (take aes_key_size key) (take iv_size iv) enc made) refl,
            same,
            w.cipher_length input (take aes_key_size key) (take iv_size iv) enc made,
            w.cipher_nonempty input (take aes_key_size key) (take iv_size iv) enc made,
          )
    ]
