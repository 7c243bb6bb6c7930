-- ===== src/Crypt/Examples.antt =====
-- The theorems on the crypt service at concrete inputs: a cipher that puts a byte before the text and
-- base64 as the text itself, with none for no bytes.
use edgesec.Common.{
  ℕ, zero, suc, ◌+◌, ◌<◌, ◌≤◌, ◌≡◌, refl, ap, subst, true, false, Option, none, some, List, [], ◌∷◌,
  ◌++◌, CString, codes, ℤ, int_eq, length, replicate, str_eq, arith,
}
use edgesec.Crypt.Run.{
  Crypto, StoreRow, SecretsRow, CryptDb, CryptRun, bind_crypt, ◌>>=◌, ◌>>◌, or_fail,
}
use edgesec.Crypt.Run.Rules.{Works}
use edgesec.Crypt.Database.{find_id}
use edgesec.Crypt.Service.{CryptContext, load_crypt_service, put_crypt_pair, get_crypt_pair}
use edgesec.Crypt.Service.Pairs.{get_crypt_pair-put_crypt_pair}
use edgesec.Crypt.Service.Reload.{load_crypt_service-again}
use edgesec.Crypt.Commands.{encrypt_blob_cmd, decrypt_blob_cmd}
use edgesec.Crypt.Commands.Blobs.{decrypt_blob_cmd-encrypt_blob_cmd}

abbrev without_first : List ℕ → Option (List ℕ)
without_first [] = none
without_first (b ∷ bs) = some bs

abbrev not_empty : List ℕ → Option (List ℕ)
not_empty [] = none
not_empty (b ∷ bs) = some (b ∷ bs)

not_empty-again :
    (b : ℕ) (bytes : List ℕ) (text : CString)
    → not_empty (b ∷ bytes) ≡ some text
    → not_empty text ≡ some (b ∷ bytes)
not_empty-again b bytes text e =
    let same : b ∷ bytes ≡ text = cc e in subst (λ t. not_empty t ≡ some (b ∷ bytes)) same refl

-- The bytes count the draws before.
abbrev demo : Crypto
demo = record {
  rand_bytes = λ d n. (ℤ.pos 1, replicate n d);
  buf2key = λ secret salt. some (replicate 32 5);
  encrypt = λ input key iv. some (1 ∷ input);
  decrypt = λ input key iv. without_first input;
  base64_encode = not_empty;
  base64_decode = not_empty;
  base64_url_encode = not_empty;
  base64_url_decode = not_empty;
  privkey_str = λ d bits. some [];
  pubkey_str = λ key. some (some key);
  cert_str = λ meta key. some key;
  sign_data = λ key input. some input;
  has_hsm = false;
  hsm_key = λ d. none;
  hsm_encrypt = λ input. none;
  hsm_decrypt = λ input. none;
  sql = λ n. true;
}

length-replicate : (n d : ℕ) → length (replicate n d) ≡ n
length-replicate zero d = refl
length-replicate (suc n) d = ap suc (length-replicate n d)

demo-Works : Works demo
unfolding int_eq
demo-Works = record {
  sql = λ n. refl;
  random = λ d size. refl;
  random_length = λ d size. length-replicate size d;
  base64_total = λ b bytes. refl;
  base64 = not_empty-again;
  cipher = λ input key iv enc e.
      let same : 1 ∷ input ≡ enc = cc e in subst (λ out. without_first out ≡ some input) same refl;
  cipher_length = λ input key iv enc e.
      let same : 1 ∷ input ≡ enc = cc e in
      subst (λ out. length out ≤ length input + 16) same (omega arith);
  cipher_nonempty = λ input key iv enc e.
      let same : 1 ∷ input ≡ enc = cc e in subst (λ out. 0 < length out) same (omega arith);
  key_length = λ secret salt key e.
      let same : replicate 32 5 ≡ key = cc e in subst (λ out. length out ≡ 32) same refl;
}

abbrev main_key : CString
main_key = codes "main"

abbrev empty_db : CryptDb
empty_db = record { store = []; secrets = []; statements = 0; draws = 7 }

abbrev ctx : CryptContext
ctx = record { hcontext = false; key_id = main_key; crypto_key = replicate 48 9 }

abbrev psk_row : StoreRow
psk_row = record {
  key = codes "psk";
  value = some (1 ∷ codes "secret");
  id = some main_key;
  iv = some (replicate 16 7);
}

abbrev stored : CryptDb
stored = record { store = psk_row ∷ []; secrets = []; statements = 4; draws = 8 }

put_run :
    put_crypt_pair demo ctx
      (some (record { key = codes "psk"; value = some (codes "secret") }))
      empty_db
    ≡ CryptRun.done tt stored
unfolding put_crypt_pair ◌>>=◌ ◌>>◌ bind_crypt int_eq
put_run = refl

get_crypt_pair-put_crypt_pair_example :
    get_crypt_pair demo ctx (some (codes "psk")) stored
    ≡ CryptRun.done
        (record { key = codes "psk"; value = some (codes "secret") })
        (record stored { statements = 6 })
get_crypt_pair-put_crypt_pair_example =
    get_crypt_pair-put_crypt_pair demo demo-Works ctx 112 (codes "sk") (some (codes "secret"))
      empty_db put_run

abbrev secret_row : SecretsRow
secret_row = record {
  id = some main_key;
  value = some (1 ∷ replicate 32 7);
  salt = some (replicate 16 8);
  iv = some (replicate 16 9);
}

abbrev keyed : CryptDb
keyed = record { store = []; secrets = secret_row ∷ []; statements = 4; draws = 10 }

abbrev loaded : CryptContext
loaded = record {
  hcontext = false;
  key_id = main_key;
  crypto_key = replicate 32 7 ++ replicate 16 0;
}

load_run :
    load_crypt_service demo (some main_key) (codes "pass") empty_db ≡ CryptRun.done loaded keyed
unfolding load_crypt_service ◌>>=◌ ◌>>◌ bind_crypt int_eq
load_run = refl

load_crypt_service-again_example :
    load_crypt_service demo (some main_key) (codes "pass") keyed
    ≡ CryptRun.done loaded (record keyed { statements = 6 })
unfolding find_id
load_crypt_service-again_example =
    load_crypt_service-again demo demo-Works main_key 112 (codes "ass") empty_db keyed refl load_run
      refl

abbrev pair_row : CString → List ℕ → StoreRow
pair_row key value = record {
  key = key;
  value = some (1 ∷ value);
  id = some main_key;
  iv = some (replicate 16 7);
}

abbrev blob_keys : CryptDb
blob_keys = record {
  store = pair_row (codes "k") (replicate 32 3) ∷ pair_row (codes "iv") (replicate 16 4) ∷ [];
  secrets = [];
  statements = 0;
  draws = 0;
}

encrypt_run :
    encrypt_blob_cmd demo ctx (codes "k") (codes "iv") (codes "blob") blob_keys
    ≡ CryptRun.done (1 ∷ codes "blob") (record blob_keys { statements = 4 })
unfolding encrypt_blob_cmd ◌>>=◌ ◌>>◌ bind_crypt str_eq
encrypt_run = refl

decrypt_blob_cmd-encrypt_blob_cmd_example :
    (bytes : List ℕ) × (demo.base64_url_decode (codes "blob") ≡ some bytes)
    × (decrypt_blob_cmd demo ctx (codes "k") (codes "iv") (1 ∷ codes "blob") blob_keys
        ≡ or_fail (demo.base64_url_encode bytes) (record blob_keys { statements = 4 }))
decrypt_blob_cmd-encrypt_blob_cmd_example =
    decrypt_blob_cmd-encrypt_blob_cmd demo demo-Works not_empty-again ctx (codes "k") (codes "iv")
      (codes "blob") blob_keys blob_keys encrypt_run refl
