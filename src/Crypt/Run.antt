-- ===== src/Crypt/Run.antt =====
-- What the crypt service of src/crypt/crypt_service.c runs on: OpenSSL, base64, the security module
-- and sqlite, of which each is a parameter, and the two tables of its database. Allocation succeeds.
pub mod Rules
pub mod Steady
use edgesec.Common.{
  ℕ, suc, ◌+◌, ltb, if◌then◌else◌, Bool, true, false, ◌||◌, Option, none, some, List, [], ◌∷◌,
  CString, ℤ, length, take,
}

-- struct certificate_meta
pub record CertificateMeta : Type 0 where
  pub not_before : ℕ
  pub not_after : ℕ
  pub c : CString
  pub o : CString
  pub ou : CString
  pub cn : CString

-- The functions of src/utils/cryptou.c over OpenSSL, of base64 and of the security module. Random
-- bytes depend on the number of calls before: `rand_bytes` is the code that RAND_bytes returns and
-- what is in the buffer then. `pubkey_str` may return 0 with NULL, which is `some none`. `sql` says
-- which of the calls of sqlite succeed, by the number of calls before.
pub record Crypto : Type 0 where
  pub rand_bytes : ℕ → ℕ → ℤ × List ℕ
  pub buf2key : List ℕ → List ℕ → Option (List ℕ)
  pub encrypt : List ℕ → List ℕ → List ℕ → Option (List ℕ)
  pub decrypt : List ℕ → List ℕ → List ℕ → Option (List ℕ)
  pub base64_encode : List ℕ → Option CString
  pub base64_decode : CString → Option (List ℕ)
  pub base64_url_encode : List ℕ → Option CString
  pub base64_url_decode : CString → Option (List ℕ)
  pub privkey_str : ℕ → ℕ → Option CString
  pub pubkey_str : List ℕ → Option (Option CString)
  pub cert_str : CertificateMeta → List ℕ → Option CString
  pub sign_data : List ℕ → List ℕ → Option (List ℕ)
  pub has_hsm : Bool
  pub hsm_key : ℕ → Option (List ℕ)
  pub hsm_encrypt : List ℕ → Option (List ℕ)
  pub hsm_decrypt : List ℕ → Option (List ℕ)
  pub sql : ℕ → Bool

-- struct store_row
pub record StoreRow : Type 0 where
  pub key : CString
  pub value : Option CString
  pub id : Option CString
  pub iv : Option CString

-- struct secrets_row
pub record SecretsRow : Type 0 where
  pub id : Option CString
  pub value : Option CString
  pub salt : Option CString
  pub iv : Option CString

-- The tables, and the numbers of calls of sqlite and of the random generator so far.
pub record CryptDb : Type 0 where
  pub store : List StoreRow
  pub secrets : List SecretsRow
  pub statements : ℕ
  pub draws : ℕ

-- `failed` is -1, or NULL.
pub data CryptRun (A : Type 0) : Type 0 where
  done : A → CryptDb → CryptRun A
  failed : CryptDb → CryptRun A
  fault : CryptRun A

abbrev pub K : Type 0 → Type 0
K A = CryptDb → CryptRun A

unfoldable pub bind_crypt : {A B : Type 0} → CryptRun A → (A → K B) → CryptRun B
bind_crypt (CryptRun.done a s) f = f a s
bind_crypt (CryptRun.failed s) f = CryptRun.failed s
bind_crypt CryptRun.fault f = CryptRun.fault

infixl 5 ◌>>=◌ ◌>>◌
unfoldable pub ◌>>=◌ : {A B : Type 0} → K A → (A → K B) → K B
unfolding bind_crypt
◌>>=◌ m f s = bind_crypt (m s) f

unfoldable pub ◌>>◌ : {A B : Type 0} → K A → K B → K B
unfolding bind_crypt
◌>>◌ m k s = bind_crypt (m s) (λ _. k)

unfoldable pub pure : {A : Type 0} → A → K A
pure a s = CryptRun.done a s

unfoldable pub fail : {A : Type 0} → K A
fail s = CryptRun.failed s

unfoldable pub crash : {A : Type 0} → K A
crash s = CryptRun.fault

unfoldable pub or_fail : {A : Type 0} → Option A → K A
unfolding pure fail
or_fail none = fail
or_fail (some a) = pure a

-- A NULL pointer that is used.
unfoldable pub or_crash : {A : Type 0} → Option A → K A
unfolding pure crash
or_crash none = crash
or_crash (some a) = pure a

-- One call of sqlite: whether it succeeds.
unfoldable pub statement : Crypto → K Bool
statement crypto s =
    CryptRun.done (crypto.sql s.statements) (record s { statements = suc s.statements })

-- RAND_bytes, and what it returns.
unfoldable pub rand_bytes : Crypto → ℕ → K (ℤ × List ℕ)
rand_bytes crypto size s =
    CryptRun.done (crypto.rand_bytes s.draws size) (record s { draws = suc s.draws })

-- AES_KEY_SIZE, AES_BLOCK_SIZE, IV_SIZE and SALT_SIZE
abbrev pub aes_key_size : ℕ
aes_key_size = 32

abbrev pub aes_block_size : ℕ
aes_block_size = 16

abbrev pub iv_size : ℕ
iv_size = 16

abbrev pub salt_size : ℕ
salt_size = 16

-- The cipher reads AES_KEY_SIZE bytes of the key and IV_SIZE bytes of the vector, whatever there is.
unfoldable pub with_cipher_key : {A : Type 0} → List ℕ → List ℕ → K A → K A
unfolding crash
with_cipher_key key iv k =
    if ltb (length key) aes_key_size || ltb (length iv) iv_size then crash else k

unfoldable pub crypto_encrypt : Crypto → List ℕ → List ℕ → List ℕ → K (List ℕ)
unfolding with_cipher_key or_fail
crypto_encrypt crypto input key iv =
    with_cipher_key key iv
      (or_fail (crypto.encrypt input (take aes_key_size key) (take iv_size iv)))

unfoldable pub crypto_decrypt : Crypto → List ℕ → List ℕ → List ℕ → K (List ℕ)
unfolding with_cipher_key or_fail
crypto_decrypt crypto input key iv =
    with_cipher_key key iv
      (or_fail (crypto.decrypt input (take aes_key_size key) (take iv_size iv)))
