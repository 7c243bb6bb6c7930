-- ===== src/Crypt/Service/Reload.antt =====
-- load_crypt_service of src/crypt/crypt_service.c, once to make a key and once more to find it.
pub mod Entries
use edgesec.Common.{
  ℕ, suc, ◌≤◌, ◌≡◌, refl, sym, ap, ◌∙◌, subst, ltb, ◌==◌, true, false, none, some, List, [], ◌∷◌,
  ◌++◌, CString, length, str_eq_refl, Bool-cases, inl, inr, arith,
}
use edgesec.Crypt.Run.{
  Crypto, SecretsRow, CryptDb, CryptRun, bind_crypt, ◌>>=◌, ◌>>◌, pure, or_fail, statement,
  rand_bytes, aes_key_size, iv_size, salt_size, crypto_encrypt,
}
use edgesec.Crypt.Run.Rules.{Works, bind_crypt-done, or_fail-done, crypto_decrypt-crypto_encrypt}
use edgesec.Crypt.Database.{
  find_id, has_id, insert_secret, update_secrets, execute, save_sqlite_secrets_entry,
  secret_or_none, no_secret, get_sqlite_secrets_row,
}
use edgesec.Crypt.Service.{
  CryptContext, key_array_size, rand_or_fail, encode_field, prepare_secret_entry, decode_field,
  extract_secret_entry, key_array, extract_user_crypto_key_entry, generate_user_crypto_key_entry,
  new_user_key, known_user_key, load_key, load_crypt_service,
}
use edgesec.Crypt.Service.Pairs.{drawn-length, encoded}
use edgesec.Crypt.Service.Reload.Entries.{
  find_id-append, insert-new, load_key-known, key_array-any, save-works, get-works, Holds,
  generate-Holds,
}

module _ (crypto : Crypto) (w : Works crypto) where
  -- A new key is in the table, and is found again whatever the state is then.
  new_user_key-known :
      (key_id : CString) (user_secret : List ℕ) (s : CryptDb) {ctx : CryptContext} {s' : CryptDb}
      → find_id key_id s.secrets ≡ none
      → new_user_key crypto key_id user_secret s ≡ CryptRun.done ctx s'
      → (row : SecretsRow) × (find_id key_id s'.secrets ≡ some row)
        × (row.id ≡ some key_id)
        × ((t : CryptDb) → known_user_key crypto key_id user_secret row t ≡ CryptRun.done ctx t)
  unfolding new_user_key known_user_key ◌>>=◌ ◌>>◌ bind_crypt pure Holds
  new_user_key-known key_id user_secret s {ctx} {s'} absent e =
      let (key, s1, drawn, e1) = bind_crypt-done (rand_or_fail crypto aes_key_size s) _ e in
      let (row, s2, made, e2) =
        bind_crypt-done (generate_user_crypto_key_entry crypto key_id user_secret key s1) _ e1 in
      let (_, s3, saved, e3) = bind_crypt-done (save_sqlite_secrets_entry crypto row s2) _ e2 in
      let (array, s4, copied, e4) = bind_crypt-done (key_array key s3) _ e3 in
      let (lk, keeps) = drawn-length crypto w aes_key_size s drawn in
      let ((named, holds), keeps') = generate-Holds crypto w key_id user_secret key s1 lk made in
      let (same, _) = key_array-any key s3 s3 copied in
      let end_is : s4 ≡ s' = cc e4 in
      let secrets_are : s'.secrets ≡ insert_secret row s.secrets =
        sym (ap (λ t. t.secrets) (same ∙ end_is))
        ∙ save-works crypto w row s2 saved
        ∙ ap (insert_secret row) (keeps' ∙ keeps) in
      let inserted : insert_secret row s.secrets ≡ s.secrets ++ row ∷ [] =
        insert-new row s.secrets key_id named absent in
      (
        row,
        ap (find_id key_id) (secrets_are ∙ inserted)
            ∙ find_id-append key_id s.secrets row absent named,
        named,
        λ t. rw (holds t, (key_array-any key s3 t copied).1) (ap (λ c. CryptRun.done c t) (cc e4)),
      )

  load-known :
      (key_id : CString) (b : ℕ) (bs : List ℕ) (row : SecretsRow) (t : CryptDb) {ctx : CryptContext}
      → find_id key_id t.secrets ≡ some row
      → row.id ≡ some key_id
      → ((u : CryptDb) → known_user_key crypto key_id (b ∷ bs) row u ≡ CryptRun.done ctx u)
      → load_crypt_service crypto (some key_id) (b ∷ bs) t
        ≡ CryptRun.done ctx (record t { statements = suc (suc t.statements) })
  unfolding load_crypt_service secret_or_none ◌>>=◌ bind_crypt
  load-known key_id b bs row t there named known =
      rw (get-works crypto w key_id t, there)
        (load_key-known crypto key_id b bs row (record t { statements = suc (suc t.statements) })
            named
          ∙ known (record t { statements = suc (suc t.statements) }))

  -- When load_crypt_service has made a key for a user's secret and returns, it gives the same context,
  -- with the same key, each time it is called with that secret and the table of secrets that it has
  -- left, if sqlite, the random generator, base64 of at least one byte and the cipher do what they
  -- promise.
  pub load_crypt_service-again :
      (key_id : CString) (b : ℕ) (bs : List ℕ) (s t : CryptDb) {ctx : CryptContext} {s' : CryptDb}
      → find_id key_id s.secrets ≡ none
      → load_crypt_service crypto (some key_id) (b ∷ bs) s ≡ CryptRun.done ctx s'
      → t.secrets ≡ s'.secrets
      → load_crypt_service crypto (some key_id) (b ∷ bs) t
        ≡ CryptRun.done ctx (record t { statements = suc (suc t.statements) })
  unfolding load_crypt_service load_key secret_or_none no_secret ◌>>=◌ bind_crypt
  load_crypt_service-again key_id b bs s t {ctx} {s'} absent e kept =
      let made : new_user_key crypto key_id (b ∷ bs)
            (record s { statements = suc (suc s.statements) })
          ≡ CryptRun.done ctx s' =
        rw (get-works crypto w key_id s, absent) at e in
      let (row, there, named, known) =
        new_user_key-known key_id (b ∷ bs) (record s { statements = suc (suc s.statements) }) absent
          made in
      load-known key_id b bs row t (ap (find_id key_id) kept ∙ there) named known
