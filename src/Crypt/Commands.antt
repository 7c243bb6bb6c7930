-- ===== src/Crypt/Commands.antt =====
-- src/supervisor/crypt_commands.c: the commands on the store of encrypted values. Text is a list of
-- bytes, as values are.
pub mod Blobs
use edgesec.Common.{
  ℕ, ◌*◌, if◌then◌else◌, Bool, true, false, Option, none, some, List, [], ◌∷◌, CString, ℤ,
}
use edgesec.Crypt.Run.{
  Crypto, CertificateMeta, CryptDb, CryptRun, K, ◌>>=◌, ◌>>◌, pure, fail, crash, or_fail, or_crash,
  rand_bytes, crypto_encrypt, crypto_decrypt,
}
use edgesec.Crypt.Service.{CryptContext, CryptPair, get_crypt_pair, put_crypt_pair}

-- put_crypt_pair of a value.
unfoldable pub put_value : Crypto → CryptContext → CString → List ℕ → K (Unit {0})
unfolding put_crypt_pair
put_value crypto ctx key value =
    put_crypt_pair crypto ctx (some (record { key = key; value = some value }))

-- The value of a pair, which is not NULL.
unfoldable pub get_value : Crypto → CryptContext → CString → K (List ℕ)
unfolding get_crypt_pair or_fail
get_value crypto ctx key = do pair ← get_crypt_pair crypto ctx (some key); or_fail pair.value

unfoldable pub put_crypt_cmd : Crypto → CryptContext → CString → CString → K (Unit {0})
unfolding or_fail put_value
put_crypt_cmd crypto ctx key value = do
  bytes ← or_fail (crypto.base64_url_decode value)
  put_value crypto ctx key bytes

unfoldable pub get_crypt_cmd : Crypto → CryptContext → CString → K CString
unfolding get_value or_fail
get_crypt_cmd crypto ctx key = do
  value ← get_value crypto ctx key
  or_fail (crypto.base64_url_encode value)

unfoldable pub is_negative : ℤ → Bool
is_negative (ℤ.pos n) = false
is_negative (ℤ.negsuc n) = true

unfoldable pub gen_randkey_cmd : Crypto → CryptContext → CString → ℕ → K (Unit {0})
unfolding rand_bytes is_negative put_value fail
gen_randkey_cmd crypto ctx keyid size = do
  (code, bytes) ← rand_bytes crypto size
  if is_negative code then fail else put_value crypto ctx keyid bytes

unfoldable pub gen_privkey_cmd : Crypto → CryptContext → CString → ℕ → K (Unit {0})
unfolding or_fail put_value
gen_privkey_cmd crypto ctx keyid size = do
  draws ← (λ s. CryptRun.done s.draws s)
  privkey ← or_fail (crypto.privkey_str draws (size * 8))
  put_value crypto ctx keyid privkey

-- NULL with the size 0.
unfoldable pub bytes_of : Option (List ℕ) → List ℕ
bytes_of none = []
bytes_of (some value) = value

-- The length of the key is taken even where it is NULL.
unfoldable pub gen_pubkey_cmd : Crypto → CryptContext → CString → CString → K (Unit {0})
unfolding get_crypt_pair or_fail or_crash bytes_of put_value
gen_pubkey_cmd crypto ctx pubid keyid = do
  pair ← get_crypt_pair crypto ctx (some keyid)
  made ← or_fail (crypto.pubkey_str (bytes_of pair.value))
  pubkey ← or_crash made
  put_value crypto ctx pubid pubkey

unfoldable pub gen_cert_cmd :
    Crypto → CryptContext → CString → CString → CertificateMeta → K (Unit {0})
unfolding get_crypt_pair or_fail bytes_of put_value
gen_cert_cmd crypto ctx certid keyid meta = do
  pair ← get_crypt_pair crypto ctx (some keyid)
  cert ← or_fail (crypto.cert_str meta (bytes_of pair.value))
  put_value crypto ctx certid cert

unfoldable pub encrypt_blob_cmd : Crypto → CryptContext → CString → CString → CString → K CString
unfolding get_value or_fail crypto_encrypt
encrypt_blob_cmd crypto ctx keyid ivid blob = do
  key ← get_value crypto ctx keyid
  iv ← get_value crypto ctx ivid
  blob_data ← or_fail (crypto.base64_url_decode blob)
  encrypted ← crypto_encrypt crypto blob_data key iv
  or_fail (crypto.base64_url_encode encrypted)

unfoldable pub decrypt_blob_cmd : Crypto → CryptContext → CString → CString → CString → K CString
unfolding get_value or_fail crypto_decrypt
decrypt_blob_cmd crypto ctx keyid ivid blob = do
  key ← get_value crypto ctx keyid
  iv ← get_value crypto ctx ivid
  blob_data ← or_fail (crypto.base64_url_decode blob)
  decrypted ← crypto_decrypt crypto blob_data key iv
  or_fail (crypto.base64_url_encode decrypted)

unfoldable pub sign_blob_cmd : Crypto → CryptContext → CString → CString → K CString
unfolding get_value or_fail
sign_blob_cmd crypto ctx keyid blob = do
  key ← get_value crypto ctx keyid
  blob_data ← or_fail (crypto.base64_url_decode blob)
  signed ← or_fail (crypto.sign_data key blob_data)
  or_fail (crypto.base64_url_encode signed)
