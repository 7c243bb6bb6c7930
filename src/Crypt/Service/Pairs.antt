-- ===== src/Crypt/Service/Pairs.antt =====
-- put_crypt_pair and get_crypt_pair of src/crypt/crypt_service.c.
use edgesec.Common.{
  ℕ, suc, ◌<◌, ◌≡◌, refl, sym, ap, ◌∙◌, subst, true, Option, none, some, List, [], ◌∷◌, ◌++◌,
  CString, length, str_eq, str_eq_refl, Option-cases, inl, inr, arith,
}
use edgesec.Crypt.Run.{
  Crypto, StoreRow, CryptDb, CryptRun, bind_crypt, ◌>>=◌, ◌>>◌, pure, or_crash, statement,
  rand_bytes, iv_size, crypto_encrypt,
}
use edgesec.Crypt.Run.Rules.{Works, bind_crypt-done, crypto_decrypt-crypto_encrypt}
use edgesec.Crypt.Database.{
  delete_key, find_key, update_store, execute, save_sqlite_store_entry, get_sqlite_store_row,
}
use edgesec.Crypt.Service.{
  CryptContext, rand_or_fail, decrypt_row, row_value, or_free_unset, get_crypt_pair, encrypt_value,
  named, put_crypt_pair,
}

find-delete : (key : CString) (rows : List StoreRow) → find_key key (delete_key key rows) ≡ none
unfolding find_key delete_key
find-delete key [] = refl
find-delete key (row ∷ rows) = ground (arith, find-delete key rows)

find-append :
    (key : CString) (rows : List StoreRow) (row : StoreRow)
    → find_key key rows ≡ none
    → str_eq row.key key ≡ true
    → find_key key (rows ++ row ∷ []) ≡ some row
unfolding find_key
find-append key [] row h e = rw e refl
find-append key (r ∷ rows) row h e = ground (arith, find-append key rows row)

module _ (crypto : Crypto) (w : Works crypto) where
  execute-works :
      (f : List StoreRow → List StoreRow) (s : CryptDb)
      → execute crypto (update_store f) s
        ≡ CryptRun.done tt (record s { store = f s.store; statements = suc (suc s.statements) })
  unfolding execute statement ◌>>=◌ update_store pure bind_crypt
  execute-works f s = rw (w.sql s.statements, w.sql (suc s.statements)) refl

  save-works :
      (row : StoreRow) (s : CryptDb)
      → save_sqlite_store_entry crypto row s
        ≡ CryptRun.done tt (record s {
          store = delete_key row.key s.store ++ row ∷ [];
          statements = suc (suc (suc (suc s.statements)));
        })
  unfolding save_sqlite_store_entry ◌>>◌ bind_crypt
  save-works row s =
      rw (execute-works (delete_key row.key) s) (execute-works (λ rows. rows ++ row ∷ []) _)

  pub get-works :
      (key : CString) (s : CryptDb)
      → get_sqlite_store_row crypto key s
        ≡ CryptRun.done (find_key key s.store) (record s { statements = suc (suc s.statements) })
  unfolding get_sqlite_store_row statement ◌>>=◌ bind_crypt
  get-works key s = rw (w.sql s.statements, w.sql (suc s.statements)) refl

  pub drawn-length :
      (size : ℕ) (s : CryptDb) {bytes : List ℕ} {s' : CryptDb}
      → rand_or_fail crypto size s ≡ CryptRun.done bytes s'
      → (length bytes ≡ size) × (s'.secrets ≡ s.secrets)
  unfolding rand_or_fail rand_bytes ◌>>=◌ bind_crypt pure
  drawn-length size s {bytes} {s'} e =
      let run : CryptRun.done (crypto.rand_bytes s.draws size).1 (record s { draws = suc s.draws })
          ≡ CryptRun.done bytes s' =
        rw (w.random s.draws size) at e in
      let same_bytes : (crypto.rand_bytes s.draws size).1 ≡ bytes = cc run in
      let state : record s { draws = suc s.draws } ≡ s' = cc run in
      (
        subst (λ b. length b ≡ size) same_bytes (w.random_length s.draws size),
        sym (ap (λ t. t.secrets) state),
      )

  -- The text of some bytes, and that it is read back.
  pub encoded :
      (bytes : List ℕ)
      → 0 < length bytes
      → (text : CString) × (crypto.base64_encode bytes ≡ some text)
        × (crypto.base64_decode text ≡ some bytes)
  encoded [] some_bytes = absurd (omega arith)
  encoded (b ∷ bytes) some_bytes = elim (Option-cases (crypto.base64_encode (b ∷ bytes))) [
    | inl failed ↦ absurd (cc (rw failed at (w.base64_total b bytes)))
    | inr (text, e) ↦ (text, e, w.base64 b bytes text e)
  ]

  decrypt_row-works :
      (ctx : CryptContext) (value iv : List ℕ) (s t : CryptDb) {enc : List ℕ} {s' : CryptDb}
      → crypto_encrypt crypto value ctx.crypto_key iv s ≡ CryptRun.done enc s'
      → 0 < length iv
      → (row : StoreRow) → row.value ≡ crypto.base64_encode enc
      → row.iv ≡ crypto.base64_encode iv
      → row_value crypto ctx (some row) t ≡ CryptRun.done (some value) t
  unfolding row_value decrypt_row or_crash ◌>>=◌ bind_crypt pure
  decrypt_row-works ctx value iv s t {enc} made some_iv row ev ei =
      let (back, _, _, padded) =
        crypto_decrypt-crypto_encrypt crypto w value ctx.crypto_key iv s t made in
      let (text, encodes, decodes) = encoded enc padded in
      let (iv_text, encodes', decodes') = encoded iv some_iv in
      rw (ev ∙ encodes, ei ∙ encodes', decodes', decodes, back) refl

  -- A value of no bytes is stored as none.
  abbrev pub kept : Option (List ℕ) → Option (List ℕ)
  kept none = none
  kept (some []) = none
  kept (some (b ∷ bs)) = some (b ∷ bs)

  encrypt_value-works :
      (ctx : CryptContext) (o : Option (List ℕ)) (s t : CryptDb)
      {p : Option CString × Option CString} {s' : CryptDb}
      → encrypt_value crypto ctx o s ≡ CryptRun.done p s'
      → (row : StoreRow) → row.value ≡ p.0
      → row.iv ≡ p.1
      → row_value crypto ctx (some row) t ≡ CryptRun.done (kept o) t
  unfolding encrypt_value row_value ◌>>=◌ pure
  encrypt_value-works ctx none s t {p} e row ev ei =
      let absent : row.value ≡ none = cc (ev, e) in rw absent refl
  encrypt_value-works ctx (some []) s t {p} e row ev ei =
      let absent : row.value ≡ none = cc (ev, e) in rw absent refl
  encrypt_value-works ctx (some (b ∷ bs)) s t {p} e row ev ei =
      let (iv, s1, drawn, e1) = bind_crypt-done (rand_or_fail crypto iv_size s) _ e in
      let (enc, s2, made, e2) =
        bind_crypt-done (crypto_encrypt crypto (b ∷ bs) ctx.crypto_key iv s1) _ e1 in
      decrypt_row-works ctx (b ∷ bs) iv s1 t made
        (subst (λ n. 0 < n) (sym (drawn-length iv_size s drawn).0) (omega arith)) row (cc (ev, e2))
        (cc (ei, e2))

  -- When put_crypt_pair returns 0, get_crypt_pair with the same key gives the value back, if sqlite,
  -- base64 of at least one byte and the cipher do what they promise; a value of no bytes comes back as NULL.
  pub get_crypt_pair-put_crypt_pair :
      (ctx : CryptContext) (c : ℕ) (cs : CString) (value : Option (List ℕ)) (s : CryptDb)
      {s' : CryptDb}
      → put_crypt_pair crypto ctx (some (record { key = c ∷ cs; value = value })) s
        ≡ CryptRun.done tt s'
      → get_crypt_pair crypto ctx (some (c ∷ cs)) s'
        ≡ CryptRun.done
            (record { key = c ∷ cs; value = kept value })
            (record s' { statements = suc (suc s'.statements) })
  unfolding put_crypt_pair get_crypt_pair or_free_unset ◌>>=◌ bind_crypt pure
  get_crypt_pair-put_crypt_pair ctx c cs value s {s'} e =
      let (p, s1, made, e1) = bind_crypt-done (encrypt_value crypto ctx value s) _ e in
      let (id, s0, has_name, saved) = bind_crypt-done (named ctx s1) _ e1 in
      let row : StoreRow = record { key = c ∷ cs; value = p.0; id = some id; iv = p.1 } in
      let state : record s0 {
        store = delete_key (c ∷ cs) s0.store ++ row ∷ [];
        statements = suc (suc (suc (suc s0.statements)));
      }
          ≡ s' =
        cc (saved, save-works row s0) in
      let there : find_key (c ∷ cs) s'.store ≡ some row =
        subst (λ t. find_key (c ∷ cs) t.store ≡ some row) state
          (find-append (c ∷ cs) (delete_key (c ∷ cs) s0.store) row (find-delete (c ∷ cs) s0.store)
            (str_eq_refl (c ∷ cs))) in
      rw (get-works (c ∷ cs) s', there, encrypt_value-works ctx value s _ made row refl refl) refl
