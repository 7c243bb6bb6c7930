-- ===== src/Crypt/Commands/Blobs.antt =====
-- encrypt_blob_cmd and decrypt_blob_cmd of src/supervisor/crypt_commands.c with one key and vector.
use edgesec.Common.{
  ℕ, suc, ◌<◌, ◌≡◌, refl, sym, ap, ◌∙◌, subst, Option, none, some, List, [], ◌∷◌, CString, length,
  arith, Option-cases, inl, inr,
}
use edgesec.Crypt.Run.{
  Crypto, StoreRow, CryptDb, CryptRun, bind_crypt, ◌>>=◌, pure, fail, or_fail, crypto_encrypt,
  crypto_decrypt,
}
use edgesec.Crypt.Run.Rules.{Works, bind_crypt-done, or_fail-done, crypto_decrypt-crypto_encrypt}
use edgesec.Crypt.Run.Steady.{
  Steady, pure-Steady, or_crash-Steady, bind-Steady, crypto_decrypt-Steady,
}
use edgesec.Crypt.Database.{find_key}
use edgesec.Crypt.Service.{
  CryptContext, CryptPair, decrypt_row, row_value, or_free_unset, get_crypt_pair,
}
use edgesec.Crypt.Service.Pairs.{get-works}
use edgesec.Crypt.Commands.{get_value, encrypt_blob_cmd, decrypt_blob_cmd}

-- The state behind a read of the table, which is two calls of sqlite.
abbrev pub after_read : CryptDb → CryptDb
after_read s = record s { statements = suc (suc s.statements) }

decrypt_row-Steady :
    (crypto : Crypto) (ctx : CryptContext) (value : CString) (iv_text : Option CString)
    → Steady (decrypt_row crypto ctx value iv_text)
unfolding decrypt_row
decrypt_row-Steady crypto ctx value iv_text = bind-Steady _ _ (or_crash-Steady iv_text) (λ text.
    bind-Steady _ _ (or_crash-Steady (crypto.base64_decode text)) (λ iv.
      bind-Steady _ _ (or_crash-Steady (crypto.base64_decode value))
        (λ enc_value. crypto_decrypt-Steady crypto enc_value ctx.crypto_key iv)))

row_value-Steady :
    (crypto : Crypto) (ctx : CryptContext) (row : Option StoreRow)
    → Steady (row_value crypto ctx row)
unfolding row_value
row_value-Steady crypto ctx none = pure-Steady none
row_value-Steady crypto ctx (some row) = elim (Option-cases row.value) [
  | inl absent ↦ rw absent (pure-Steady none)
  | inr (text, there) ↦ rw there (
      bind-Steady _ _ (decrypt_row-Steady crypto ctx text row.iv)
        (λ value. pure-Steady (some value)))
]

module _ (crypto : Crypto) (w : Works crypto) where
  -- What is read once is read again from any state with the same store.
  get_crypt_pair-again :
      (ctx : CryptContext) (key : CString) (s t : CryptDb) {pair : CryptPair} {s' : CryptDb}
      → get_crypt_pair crypto ctx (some key) s ≡ CryptRun.done pair s'
      → t.store ≡ s.store
      → (s'.store ≡ s.store)
        × (get_crypt_pair crypto ctx (some key) t ≡ CryptRun.done pair (after_read t))
  unfolding get_crypt_pair or_free_unset ◌>>=◌ bind_crypt pure fail
  get_crypt_pair-again ctx [] s t e same = absurd (cc e)
  get_crypt_pair-again ctx (c ∷ cs) s t {pair} {s'} e same =
      let run : bind_crypt (row_value crypto ctx (find_key (c ∷ cs) s.store) (after_read s))
            (λ v. pure (record { key = c ∷ cs; value = v }))
          ≡ CryptRun.done pair s' =
        rw (get-works crypto w (c ∷ cs) s) at e in
      let (v, s2, read, ends) =
        bind_crypt-done (row_value crypto ctx (find_key (c ∷ cs) s.store) (after_read s)) _ run in
      let (kept, any) =
        (row_value-Steady crypto ctx (find_key (c ∷ cs) s.store)).steady (after_read s) read in
      let state_is : s2 ≡ s' = cc ends in
      let read_again : row_value crypto ctx (find_key (c ∷ cs) t.store) (after_read t)
          ≡ CryptRun.done v (after_read t) =
        subst
          (λ rows.
            row_value crypto ctx (find_key (c ∷ cs) rows) (after_read t)
            ≡ CryptRun.done v (after_read t))
          (sym same) (any (after_read t)) in
      (
        sym (ap (λ u. u.store) (kept ∙ state_is)),
        rw (get-works crypto w (c ∷ cs) t, read_again)
            (ap (λ p. CryptRun.done p (after_read t)) (cc ends)),
      )

  get_value-again :
      (ctx : CryptContext) (key : CString) (s t : CryptDb) {value : List ℕ} {s' : CryptDb}
      → get_value crypto ctx key s ≡ CryptRun.done value s'
      → t.store ≡ s.store
      → (s'.store ≡ s.store) × (get_value crypto ctx key t ≡ CryptRun.done value (after_read t))
  unfolding get_value ◌>>=◌ bind_crypt
  get_value-again ctx key s t {value} {s'} e same =
      let (pair, s1, got, ends) = bind_crypt-done (get_crypt_pair crypto ctx (some key) s) _ e in
      let (there, kept) = or_fail-done pair.value s1 ends in
      let (stored, again) = get_crypt_pair-again ctx key s t got same in
      (ap (λ u. u.store) (sym kept) ∙ stored, rw (again, there) (unfold or_fail pure in refl))

  -- The law of base64 for a list that is not empty.
  read_back :
      ((b : ℕ) (bytes : List ℕ) (text : CString)
        → crypto.base64_url_encode (b ∷ bytes) ≡ some text
        → crypto.base64_url_decode text ≡ some (b ∷ bytes))
      → (bytes : List ℕ) (text : CString) → 0 < length bytes
      → crypto.base64_url_encode bytes ≡ some text
      → crypto.base64_url_decode text ≡ some bytes
  read_back url [] text some_bytes e = absurd (omega arith)
  read_back url (b ∷ bytes) text some_bytes e = url b bytes text e

  decrypt_known :
      (ctx : CryptContext) (keyid ivid enc : CString) (t : CryptDb)
      {key iv cipher_text bytes : List ℕ}
      → get_value crypto ctx keyid t ≡ CryptRun.done key (after_read t)
      → get_value crypto ctx ivid (after_read t) ≡ CryptRun.done iv (after_read (after_read t))
      → crypto.base64_url_decode enc ≡ some cipher_text
      → crypto_decrypt crypto cipher_text key iv (after_read (after_read t))
        ≡ CryptRun.done bytes (after_read (after_read t))
      → decrypt_blob_cmd crypto ctx keyid ivid enc t
        ≡ or_fail (crypto.base64_url_encode bytes) (after_read (after_read t))
  unfolding decrypt_blob_cmd ◌>>=◌ bind_crypt pure
  decrypt_known ctx keyid ivid enc t got_key got_iv decodes back =
      rw (got_key, got_iv, decodes) (rw back refl)

  -- What encrypt_blob_cmd gives for a blob, decrypt_blob_cmd with the same key and vector turns back
  -- into the text of the blob's bytes, from any state whose table of values is the same, if sqlite,
  -- the cipher and base64 of at least one byte do what they promise.
  pub decrypt_blob_cmd-encrypt_blob_cmd :
      ((b : ℕ) (bytes : List ℕ) (text : CString)
        → crypto.base64_url_encode (b ∷ bytes) ≡ some text
        → crypto.base64_url_decode text ≡ some (b ∷ bytes))
      → (ctx : CryptContext) (keyid ivid blob : CString) (s t : CryptDb) {enc : CString}
        {s' : CryptDb}
      → encrypt_blob_cmd crypto ctx keyid ivid blob s ≡ CryptRun.done enc s'
      → t.store ≡ s.store
      → (bytes : List ℕ) × (crypto.base64_url_decode blob ≡ some bytes)
        × (decrypt_blob_cmd crypto ctx keyid ivid enc t
            ≡ or_fail (crypto.base64_url_encode bytes) (after_read (after_read t)))
  unfolding encrypt_blob_cmd decrypt_blob_cmd ◌>>=◌ bind_crypt
  decrypt_blob_cmd-encrypt_blob_cmd url ctx keyid ivid blob s t {enc} e same =
      let (key, s1, got_key, e1) = bind_crypt-done (get_value crypto ctx keyid s) _ e in
      let (iv, s2, got_iv, e2) = bind_crypt-done (get_value crypto ctx ivid s1) _ e1 in
      let (bytes, s3, decodes, e3) =
        bind_crypt-done (or_fail (crypto.base64_url_decode blob) s2) _ e2 in
      let (cipher_text, s4, made, e4) =
        bind_crypt-done (crypto_encrypt crypto bytes key iv s3) _ e3 in
      let (kept, key_again) = get_value-again ctx keyid s t got_key same in
      let (_, iv_again) = get_value-again ctx ivid s1 (after_read t) got_iv (same ∙ sym kept) in
      let (is_bytes, _) = or_fail-done (crypto.base64_url_decode blob) s2 decodes in
      let (is_text, _) = or_fail-done (crypto.base64_url_encode cipher_text) s4 e4 in
      let (back, _, _, padded) =
        crypto_decrypt-crypto_encrypt crypto w bytes key iv s3 (after_read (after_read t)) made in
      (
        bytes,
        is_bytes,
        decrypt_known ctx keyid ivid enc t key_again iv_again
            (read_back url cipher_text enc padded is_text) back,
      )
