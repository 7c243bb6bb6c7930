-- ===== src/Crypt/Service/Reload/Entries.antt =====
-- The rows of the table of secrets of src/crypt/crypt_service.c, written and read.
use edgesec.Common.{
  ℕ, suc, ◌<◌, ◌≤◌, ◌≡◌, refl, sym, ap, subst, ltb, ◌==◌, true, false, none, some, List, [], ◌∷◌,
  ◌++◌, CString, length, str_eq_refl, Bool-cases, inl, inr, arith,
}
use edgesec.Crypt.Run.{
  Crypto, SecretsRow, CryptDb, CryptRun, bind_crypt, ◌>>=◌, pure, or_fail, statement, iv_size,
  salt_size, crypto_encrypt,
}
use edgesec.Crypt.Run.Rules.{Works, bind_crypt-done, or_fail-done, crypto_decrypt-crypto_encrypt}
use edgesec.Crypt.Database.{
  find_id, has_id, insert_secret, update_secrets, execute, save_sqlite_secrets_entry,
  secret_or_none, get_sqlite_secrets_row,
}
use edgesec.Crypt.Service.{
  key_array_size, rand_or_fail, encode_field, prepare_secret_entry, decode_field,
  extract_secret_entry, key_array, extract_user_crypto_key_entry, generate_user_crypto_key_entry,
  known_user_key, load_key,
}
use edgesec.Crypt.Service.Pairs.{drawn-length, encoded}

pub find_id-append :
    (id : CString) (rows : List SecretsRow) (row : SecretsRow)
    → find_id id rows ≡ none
    → row.id ≡ some id
    → find_id id (rows ++ row ∷ []) ≡ some row
unfolding find_id has_id
find_id-append id [] row h e = rw (e, str_eq_refl id) refl
find_id-append id (r ∷ rows) row h e = ground (arith, find_id-append id rows row)

pub insert-new :
    (row : SecretsRow) (rows : List SecretsRow) (id : CString)
    → row.id ≡ some id
    → find_id id rows ≡ none
    → insert_secret row rows ≡ rows ++ row ∷ []
unfolding insert_secret
insert-new row rows id named absent = ground arith

pub load_key-known :
    (crypto : Crypto) (key_id : CString) (b : ℕ) (bs : List ℕ) (row : SecretsRow) (t : CryptDb)
    → row.id ≡ some key_id
    → load_key crypto key_id (b ∷ bs) row t ≡ known_user_key crypto key_id (b ∷ bs) row t
unfolding load_key
load_key-known crypto key_id b bs row t named = rw named refl

-- The result of key_array does not depend on the state.
pub key_array-any :
    (bytes : List ℕ) (s t : CryptDb) {array : List ℕ} {s' : CryptDb}
    → key_array bytes s ≡ CryptRun.done array s'
    → (s ≡ s') × (key_array bytes t ≡ CryptRun.done array t)
unfolding key_array pure
key_array-any bytes s t e = elim (Bool-cases (ltb key_array_size (length bytes))) [
  | inl long ↦ absurd (cc (rw long at e))
  | inr fits ↦ (cc (rw fits at e), rw fits (ap (λ a. CryptRun.done a t) (cc (rw fits at e))))
]

module _ (crypto : Crypto) (w : Works crypto) where
  pub save-works :
      (row : SecretsRow) (s : CryptDb) {s' : CryptDb}
      → save_sqlite_secrets_entry crypto row s ≡ CryptRun.done tt s'
      → s'.secrets ≡ insert_secret row s.secrets
  unfolding save_sqlite_secrets_entry execute statement update_secrets ◌>>=◌ bind_crypt pure
  save-works row s {s'} e =
      let state : record s {
        secrets = insert_secret row s.secrets;
        statements = suc (suc s.statements);
      }
          ≡ s' =
        cc (rw (w.sql s.statements, w.sql (suc s.statements)) at e) in
      sym (ap (λ t. t.secrets) state)

  pub get-works :
      (id : CString) (s : CryptDb)
      → get_sqlite_secrets_row crypto id s
        ≡ CryptRun.done
            (secret_or_none (find_id id s.secrets))
            (record s { statements = suc (suc s.statements) })
  unfolding get_sqlite_secrets_row statement ◌>>=◌ bind_crypt
  get-works id s = rw (w.sql s.statements, w.sql (suc s.statements)) refl

  pub decoded :
      (size : ℕ) (bytes : List ℕ) (s : CryptDb)
      → length bytes ≤ size
      → 0 < length bytes
      → decode_field crypto size (crypto.base64_encode bytes) s ≡ CryptRun.done bytes s
  unfolding decode_field or_fail ◌>>=◌ bind_crypt pure
  decoded size bytes s le some_bytes =
      let (text, encodes, decodes) = encoded crypto w bytes some_bytes in
      rw (encodes, decodes, not_over) refl
    where
      not_over : ltb size (length bytes) ≡ false
      not_over = ground arith

  -- The entry of a new key holds it under the secret of the user.
  unfoldable pub Holds : CString → List ℕ → List ℕ → SecretsRow → Type 0
  Holds key_id user_secret key row =
      (row.id ≡ some key_id)
      × ((t : CryptDb)
          → extract_user_crypto_key_entry crypto row user_secret t ≡ CryptRun.done key t)

  pub extract-works :
      (key_id : CString) (user_secret key salt user_key iv enc : List ℕ) (s t : CryptDb)
      {s' : CryptDb}
      → length key ≡ 32
      → length salt ≡ salt_size
      → length iv ≡ iv_size
      → crypto.buf2key user_secret salt ≡ some user_key
      → crypto_encrypt crypto key user_key iv s ≡ CryptRun.done enc s'
      → extract_user_crypto_key_entry crypto
          (prepare_secret_entry crypto key_id enc (some salt) (some iv))
          user_secret
          t
        ≡ CryptRun.done key t
  unfolding extract_user_crypto_key_entry extract_secret_entry prepare_secret_entry encode_field
      ◌>>=◌ bind_crypt pure or_fail
  extract-works key_id user_secret key salt user_key iv enc s t lk ls li bk made =
      let (back, _, le, padded) = crypto_decrypt-crypto_encrypt crypto w key user_key iv s t made in
      let salt_fits : (length salt == salt_size) ≡ true = ground arith in
      let iv_fits : (length iv == iv_size) ≡ true = ground arith in
      rw
        (
          decoded key_array_size enc t (omega arith) padded,
          decoded salt_size salt t (omega (arith, ls)) (omega (arith, ls)),
          decoded iv_size iv t (omega (arith, li)) (omega (arith, li)),
          salt_fits,
          iv_fits,
          bk,
        )
        back

  pub generate-Holds :
      (key_id : CString) (user_secret key : List ℕ) (s : CryptDb) {row : SecretsRow} {s' : CryptDb}
      → length key ≡ 32
      → generate_user_crypto_key_entry crypto key_id user_secret key s ≡ CryptRun.done row s'
      → Holds key_id user_secret key row × (s'.secrets ≡ s.secrets)
  unfolding generate_user_crypto_key_entry ◌>>=◌ pure Holds
  generate-Holds key_id user_secret key s {row} {s'} lk e =
      let (salt, s1, drawn, e1) = bind_crypt-done (rand_or_fail crypto salt_size s) _ e in
      let (user_key, s2, derived, e2) =
        bind_crypt-done (or_fail (crypto.buf2key user_secret salt) s1) _ e1 in
      let (iv, s3, drawn', e3) = bind_crypt-done (rand_or_fail crypto iv_size s2) _ e2 in
      let (enc, s4, made, e4) = bind_crypt-done (crypto_encrypt crypto key user_key iv s3) _ e3 in
      let (bk, same) = or_fail-done (crypto.buf2key user_secret salt) s1 derived in
      let (ls, keeps) = drawn-length crypto w salt_size s drawn in
      let (li, keeps') = drawn-length crypto w iv_size s2 drawn' in
      let (_, same', _, _) = crypto_decrypt-crypto_encrypt crypto w key user_key iv s3 s3 made in
      let row_is : prepare_secret_entry crypto key_id enc (some salt) (some iv) ≡ row = cc e4 in
      let end_is : s4 ≡ s' = cc e4 in
      (
        subst (Holds key_id user_secret key) row_is (
          unfold prepare_secret_entry in refl,
          λ t. extract-works key_id user_secret key salt user_key iv enc s3 t lk ls li bk made,
        ),
        cc (
          keeps,
          keeps',
          ap (λ t. t.secrets) same,
          ap (λ t. t.secrets) same',
          ap (λ t. t.secrets) end_is,
        ),
      )
