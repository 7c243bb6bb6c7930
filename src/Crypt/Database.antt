-- ===== src/Crypt/Database.antt =====
-- src/crypt/sqlite_crypt_writer.c: the tables of stored values and of secrets. sqlite3_prepare_v2 and
-- the calls of sqlite3_bind_text behind it are one call that succeeds or fails; sqlite3_step is
-- another, whose result the code looks at when it reads only.
use edgesec.Common.{
  if◌then◌else◌, Bool, false, Option, none, some, List, [], ◌∷◌, ◌++◌, CString, str_eq,
}
use edgesec.Crypt.Run.{
  Crypto, StoreRow, SecretsRow, CryptRun, K, ◌>>=◌, ◌>>◌, pure, fail, statement,
}

-- DELETE FROM store WHERE key=@key
unfoldable pub delete_key : CString → List StoreRow → List StoreRow
delete_key key [] = []
delete_key key (row ∷ rows) =
    let rest = delete_key key rows in if str_eq row.key key then rest else row ∷ rest

-- SELECT value, id, iv FROM store WHERE key=?
unfoldable pub find_key : CString → List StoreRow → Option StoreRow
find_key key [] = none
find_key key (row ∷ rows) = if str_eq row.key key then some row else find_key key rows

-- SELECT value, salt, iv FROM secrets WHERE id=?
unfoldable pub has_id : Option CString → CString → Bool
has_id none id = false
has_id (some s) id = str_eq s id

unfoldable pub find_id : CString → List SecretsRow → Option SecretsRow
unfolding has_id
find_id id [] = none
find_id id (row ∷ rows) = if has_id row.id id then some row else find_id id rows

unfoldable pub update_store : (List StoreRow → List StoreRow) → K (Unit {0})
update_store f s = CryptRun.done tt (record s { store = f s.store })

unfoldable pub update_secrets : (List SecretsRow → List SecretsRow) → K (Unit {0})
update_secrets f s = CryptRun.done tt (record s { secrets = f s.secrets })

-- A statement that is prepared, and run with an effect if the step succeeds.
unfoldable pub execute : Crypto → K (Unit {0}) → K (Unit {0})
unfolding statement fail pure
execute crypto effect = do
  prepared ← statement crypto
  if prepared then (do stepped ← statement crypto; if stepped then effect else pure tt) else fail

unfoldable pub save_sqlite_store_entry : Crypto → StoreRow → K (Unit {0})
unfolding execute update_store delete_key
save_sqlite_store_entry crypto row = do
  execute crypto (update_store (delete_key row.key))
  execute crypto (update_store (λ rows. rows ++ row ∷ []))

-- The INSERT is refused by the primary key if the id is there, which the code does not see.
unfoldable pub insert_secret : SecretsRow → List SecretsRow → List SecretsRow
unfolding find_id
insert_secret row rows = elim row.id [
  | none ↦ rows
  | some id ↦ elim (find_id id rows) [ none ↦ rows ++ row ∷ [] | some old ↦ rows ]
]

unfoldable pub save_sqlite_secrets_entry : Crypto → SecretsRow → K (Unit {0})
unfolding execute update_secrets insert_secret
save_sqlite_secrets_entry crypto row = execute crypto (update_secrets (insert_secret row))

-- A row whose key is NULL, `none`, where there is no such row.
unfoldable pub get_sqlite_store_row : Crypto → CString → K (Option StoreRow)
unfolding statement fail find_key
get_sqlite_store_row crypto key = do
  prepared ← statement crypto
  if prepared
      then (do
        stepped ← statement crypto
        if stepped then (λ s. CryptRun.done (find_key key s.store) s) else fail)
      else fail

unfoldable pub no_secret : SecretsRow
no_secret = record { id = none; value = none; salt = none; iv = none }

unfoldable pub secret_or_none : Option SecretsRow → SecretsRow
unfolding no_secret
secret_or_none none = no_secret
secret_or_none (some row) = row

-- A row with no id where there is no such row.
unfoldable pub get_sqlite_secrets_row : Crypto → CString → K SecretsRow
unfolding statement fail find_id secret_or_none
get_sqlite_secrets_row crypto id = do
  prepared ← statement crypto
  if prepared
      then (do
        stepped ← statement crypto
        if stepped then (λ s. CryptRun.done (secret_or_none (find_id id s.secrets)) s) else fail)
      else fail
