-- ===== src/Crypt/Service.antt =====
-- src/crypt/crypt_service.c: the key of the store, which is itself stored under a secret of the user
-- or by the security module, and the encrypted values under their names.
pub mod Pairs
pub mod Reload
use edgesec.Common.{
  ℕ, ◌+◌, ltb, ◌==◌, if◌then◌else◌, Bool, true, false, not, Option, none, some, List, [], ◌∷◌,
  CString, ℤ, int_eq, length, take, memcpy, replicate, is_some,
}
use edgesec.Crypt.Run.{
  Crypto, StoreRow, SecretsRow, CryptDb, CryptRun, K, ◌>>=◌, ◌>>◌, pure, fail, crash, or_fail,
  or_crash, rand_bytes, aes_key_size, aes_block_size, iv_size, salt_size, crypto_encrypt,
  crypto_decrypt,
}
use edgesec.Crypt.Database.{
  save_sqlite_store_entry, save_sqlite_secrets_entry, get_sqlite_store_row, get_sqlite_secrets_row,
}

-- struct crypt_context: whether there is a security module, and the array of the key.
pub record CryptContext : Type 0 where
  pub hcontext : Bool
  pub key_id : CString
  pub crypto_key : List ℕ

-- struct crypt_pair; its size is the length of the value.
pub record CryptPair : Type 0 where
  pub key : CString
  pub value : Option (List ℕ)

-- MAX_KEY_ID_SIZE
abbrev pub max_key_id_size : ℕ
max_key_id_size = 255

-- The size of `crypto_key`, and of the array for a key that is encrypted.
abbrev pub key_array_size : ℕ
key_array_size = 48

-- if (!crypto_gen...(buf, size)): the code is 0.
unfoldable pub rand_or_fail : Crypto → ℕ → K (List ℕ)
unfolding rand_bytes fail pure
rand_or_fail crypto size = do
  (code, bytes) ← rand_bytes crypto size
  if int_eq code (ℤ.pos 0) then fail else pure bytes

-- NULL for a pointer that is NULL.
unfoldable pub encode_field : Crypto → Option (List ℕ) → Option CString
encode_field crypto none = none
encode_field crypto (some bytes) = crypto.base64_encode bytes

unfoldable pub prepare_secret_entry :
    Crypto → CString → List ℕ → Option (List ℕ) → Option (List ℕ) → SecretsRow
unfolding encode_field
prepare_secret_entry crypto key_id key salt iv = record {
  id = some key_id;
  value = encode_field crypto (some key);
  salt = encode_field crypto salt;
  iv = encode_field crypto iv;
}

-- A field is copied into an array of `size` bytes.
unfoldable pub decode_field : Crypto → ℕ → Option CString → K (List ℕ)
unfolding pure or_fail crash
decode_field crypto size none = pure []
decode_field crypto size (some text) = do
  bytes ← or_fail (crypto.base64_decode text)
  if ltb size (length bytes) then crash else pure bytes

unfoldable pub extract_secret_entry : Crypto → SecretsRow → K (List ℕ × List ℕ × List ℕ)
unfolding decode_field pure
extract_secret_entry crypto row = do
  key ← decode_field crypto key_array_size row.value
  salt ← decode_field crypto salt_size row.salt
  iv ← decode_field crypto iv_size row.iv
  pure (key, salt, iv)

-- Bytes written at the start of the array `crypto_key`, which was zero.
unfoldable pub key_array : List ℕ → K (List ℕ)
unfolding pure crash
key_array bytes =
    if ltb key_array_size (length bytes)
    then crash
    else pure (memcpy (replicate key_array_size 0) bytes (length bytes))

unfoldable pub extract_user_crypto_key_entry : Crypto → SecretsRow → List ℕ → K (List ℕ)
unfolding extract_secret_entry crypto_decrypt or_fail fail
extract_user_crypto_key_entry crypto row user_secret = do
  (enc, salt, iv) ← extract_secret_entry crypto row
  if not (length salt == salt_size) then fail else if not (length iv == iv_size) then fail else do
    user_key ← or_fail (crypto.buf2key user_secret salt)
    crypto_decrypt crypto enc user_key iv

unfoldable pub generate_user_crypto_key_entry : Crypto → CString → List ℕ → List ℕ → K SecretsRow
unfolding rand_or_fail or_fail crypto_encrypt prepare_secret_entry pure
generate_user_crypto_key_entry crypto key_id user_secret crypto_key = do
  salt ← rand_or_fail crypto salt_size
  user_key ← or_fail (crypto.buf2key user_secret salt)
  iv ← rand_or_fail crypto iv_size
  enc ← crypto_encrypt crypto crypto_key user_key iv
  pure (prepare_secret_entry crypto key_id enc (some salt) (some iv))

-- A new key, under the secret of the user.
unfoldable pub new_user_key : Crypto → CString → List ℕ → K CryptContext
unfolding rand_or_fail generate_user_crypto_key_entry save_sqlite_secrets_entry key_array pure
new_user_key crypto key_id user_secret = do
  crypto_key ← rand_or_fail crypto aes_key_size
  row ← generate_user_crypto_key_entry crypto key_id user_secret crypto_key
  save_sqlite_secrets_entry crypto row
  array ← key_array crypto_key
  pure (record { hcontext = false; key_id = take max_key_id_size key_id; crypto_key = array })

-- init_hsm
unfoldable pub init_hsm : Crypto → K (Unit {0})
unfolding pure fail
init_hsm crypto = if crypto.has_hsm then pure tt else fail

-- generate_hsm_key
unfoldable pub generate_hsm_key : Crypto → K (List ℕ)
unfolding or_fail
generate_hsm_key crypto s = or_fail (crypto.hsm_key s.draws) (record s { draws = s.draws + 1 })

unfoldable pub new_hsm_key : Crypto → CString → K CryptContext
unfolding init_hsm generate_hsm_key or_fail prepare_secret_entry save_sqlite_secrets_entry key_array
    pure
new_hsm_key crypto key_id = do
  init_hsm crypto
  crypto_key ← generate_hsm_key crypto
  crypto_buf ← or_fail (crypto.hsm_encrypt crypto_key)
  save_sqlite_secrets_entry crypto (prepare_secret_entry crypto key_id crypto_buf none none)
  array ← key_array crypto_key
  pure (record { hcontext = true; key_id = take max_key_id_size key_id; crypto_key = array })

unfoldable pub known_user_key : Crypto → CString → List ℕ → SecretsRow → K CryptContext
unfolding extract_user_crypto_key_entry key_array pure
known_user_key crypto key_id user_secret row = do
  crypto_key ← extract_user_crypto_key_entry crypto row user_secret
  array ← key_array crypto_key
  pure (record { hcontext = false; key_id = take max_key_id_size key_id; crypto_key = array })

unfoldable pub known_hsm_key : Crypto → CString → SecretsRow → K CryptContext
unfolding init_hsm or_fail fail key_array pure
known_hsm_key crypto key_id row = do
  init_hsm crypto
  text ← or_fail row.value
  crypto_buf ← or_fail (crypto.base64_decode text)
  decrypted ← or_fail (crypto.hsm_decrypt crypto_buf)
  if not (length decrypted == aes_key_size) then fail else do
    array ← key_array decrypted
    pure (record { hcontext = true; key_id = take max_key_id_size key_id; crypto_key = array })

-- By the row that was read; a secret of no bytes stands for the security module.
unfoldable pub load_key : Crypto → CString → List ℕ → SecretsRow → K CryptContext
unfolding new_user_key new_hsm_key known_user_key known_hsm_key
load_key crypto key_id [] row =
    if is_some row.id then known_hsm_key crypto key_id row else new_hsm_key crypto key_id
load_key crypto key_id (b ∷ bs) row =
    if is_some row.id
    then known_user_key crypto key_id (b ∷ bs) row
    else new_user_key crypto key_id (b ∷ bs)

-- The database is open.
unfoldable pub load_crypt_service : Crypto → Option CString → List ℕ → K CryptContext
unfolding get_sqlite_secrets_row load_key fail
load_crypt_service crypto none user_secret = fail
load_crypt_service crypto (some key_id) user_secret = do
  row ← get_sqlite_secrets_row crypto key_id
  load_key crypto key_id user_secret row

-- base64_decode's results are used as they are, and the length of a NULL string is asked for.
unfoldable pub decrypt_row : Crypto → CryptContext → CString → Option CString → K (List ℕ)
unfolding or_crash crypto_decrypt
decrypt_row crypto ctx value iv_text = do
  text ← or_crash iv_text
  iv ← or_crash (crypto.base64_decode text)
  enc_value ← or_crash (crypto.base64_decode value)
  crypto_decrypt crypto enc_value ctx.crypto_key iv

unfoldable pub row_value : Crypto → CryptContext → Option StoreRow → K (Option (List ℕ))
unfolding decrypt_row pure
row_value crypto ctx none = pure none
row_value crypto ctx (some row) = elim row.value [
  | none ↦ pure none
  | some text ↦ (do value ← decrypt_row crypto ctx text row.iv; pure (some value))
]

-- When the read fails the pair is freed with its value, which nothing has been written to yet.
unfoldable pub or_free_unset : {A : Type 0} → CryptRun A → CryptRun A
or_free_unset (CryptRun.done a s) = CryptRun.done a s
or_free_unset (CryptRun.failed s) = CryptRun.fault
or_free_unset CryptRun.fault = CryptRun.fault

unfoldable pub get_crypt_pair : Crypto → CryptContext → Option CString → K CryptPair
unfolding get_sqlite_store_row or_free_unset row_value fail pure
get_crypt_pair crypto ctx none = fail
get_crypt_pair crypto ctx (some []) = fail
get_crypt_pair crypto ctx (some (c ∷ cs)) = do
  row ← (λ s. or_free_unset (get_sqlite_store_row crypto (c ∷ cs) s))
  value ← row_value crypto ctx row
  pure (record { key = c ∷ cs; value = value })

-- The value and the vector of the row, NULL for no value or one of no bytes.
unfoldable pub encrypt_value :
    Crypto → CryptContext → Option (List ℕ) → K (Option CString × Option CString)
unfolding rand_or_fail crypto_encrypt pure
encrypt_value crypto ctx none = pure (none, none)
encrypt_value crypto ctx (some []) = pure (none, none)
encrypt_value crypto ctx (some (b ∷ bs)) = do
  iv ← rand_or_fail crypto iv_size
  enc_value ← crypto_encrypt crypto (b ∷ bs) ctx.crypto_key iv
  pure (crypto.base64_encode enc_value, crypto.base64_encode iv)

-- The id of the context as a string: strncpy has put no NUL behind one that fills the array.
unfoldable pub named : CryptContext → K CString
unfolding pure crash
named ctx = if ltb (length ctx.key_id) max_key_id_size then pure ctx.key_id else crash

unfoldable pub put_crypt_pair : Crypto → CryptContext → Option CryptPair → K (Unit {0})
unfolding encrypt_value named save_sqlite_store_entry fail
put_crypt_pair crypto ctx none = fail
put_crypt_pair crypto ctx (some pair) = elim pair.key [
  | [] ↦ fail
  | c ∷ cs ↦ (do
    (value, iv) ← encrypt_value crypto ctx pair.value
    id ← named ctx
    save_sqlite_store_entry crypto (record { key = c ∷ cs; value = value; id = some id; iv = iv }))
]
