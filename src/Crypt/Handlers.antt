-- ===== src/Crypt/Handlers.antt =====
-- src/supervisor/cmd_processor.c: the handlers of the build with the crypt service. A result is the
-- text that is written to the client.
use edgesec.Common.{
  ℕ, ◌%◌, ltb, if◌then◌else◌, Option, none, some, List, [], ◌∷◌, ◌++◌, CString, codes, length,
}
use edgesec.Utils.Strings.{is_number, rtrim}
use edgesec.Supervisor.Texts.{strtoul}
use edgesec.Supervisor.Replies.{ok_reply, fail_reply}
use edgesec.Crypt.Run.{Crypto, CertificateMeta, CryptRun, K, ◌>>=◌, pure, crash}
use edgesec.Crypt.Service.{CryptContext}
use edgesec.Crypt.Commands.{
  put_crypt_cmd, get_crypt_cmd, gen_randkey_cmd, gen_privkey_cmd, gen_pubkey_cmd, gen_cert_cmd,
  encrypt_blob_cmd, decrypt_blob_cmd, sign_blob_cmd,
}

-- A command and whether it succeeded.
unfoldable pub attempt_run : {A : Type 0} → CryptRun A → CryptRun (Option A)
attempt_run (CryptRun.done a s) = CryptRun.done (some a) s
attempt_run (CryptRun.failed s) = CryptRun.done none s
attempt_run CryptRun.fault = CryptRun.fault

unfoldable pub attempt : {A : Type 0} → K A → K (Option A)
unfolding attempt_run
attempt m s = attempt_run (m s)

unfoldable pub status_text : Option (Unit {0}) → CString
status_text none = fail_reply
status_text (some done) = ok_reply

-- write_newline_socket_data
unfoldable pub value_text : Option CString → CString
value_text none = fail_reply
value_text (some text) = text ++ 10 ∷ []

module _ (crypto : Crypto) (ctx : CryptContext) where
  unfoldable pub status : K (Unit {0}) → K CString
  unfolding attempt status_text pure
  status command = do done ← attempt command; pure (status_text done)

  unfoldable pub value : K CString → K CString
  unfolding attempt value_text pure
  value command = do text ← attempt command; pure (value_text text)

  unfoldable pub process_put_crypt_cmd : List CString → K CString
  unfolding status put_crypt_cmd pure
  process_put_crypt_cmd (cmd ∷ key ∷ text ∷ more) =
      if ltb 0 (length (rtrim text))
      then status (put_crypt_cmd crypto ctx key (rtrim text))
      else pure fail_reply
  process_put_crypt_cmd _ = pure fail_reply

  -- rtrim cuts the copy of the key itself.
  unfoldable pub process_get_crypt_cmd : List CString → K CString
  unfolding value get_crypt_cmd pure
  process_get_crypt_cmd (cmd ∷ key ∷ more) =
      if ltb 0 (length (rtrim key))
      then value (get_crypt_cmd crypto ctx (rtrim key))
      else pure fail_reply
  process_get_crypt_cmd _ = pure fail_reply

  -- (uint8_t) strtoul(text, NULL, 10), on a text that is a number.
  unfoldable pub with_size : CString → (ℕ → K (Unit {0})) → K CString
  unfolding status pure
  with_size text command = elim (strtoul text) [
    | none ↦ pure fail_reply
    | some n ↦ if is_number (some text) then status (command (n % 256)) else pure fail_reply
  ]

  unfoldable pub process_gen_randkey_cmd : List CString → K CString
  unfolding with_size gen_randkey_cmd pure
  process_gen_randkey_cmd (cmd ∷ keyid ∷ size ∷ more) =
      with_size size (gen_randkey_cmd crypto ctx keyid)
  process_gen_randkey_cmd _ = pure fail_reply

  unfoldable pub process_gen_privkey_cmd : List CString → K CString
  unfolding with_size gen_privkey_cmd pure
  process_gen_privkey_cmd (cmd ∷ keyid ∷ size ∷ more) =
      with_size size (gen_privkey_cmd crypto ctx keyid)
  process_gen_privkey_cmd _ = pure fail_reply

  unfoldable pub process_gen_pubkey_cmd : List CString → K CString
  unfolding status gen_pubkey_cmd pure
  process_gen_pubkey_cmd (cmd ∷ pubid ∷ keyid ∷ more) =
      if ltb 0 (length keyid)
      then status (gen_pubkey_cmd crypto ctx pubid keyid)
      else pure fail_reply
  process_gen_pubkey_cmd _ = pure fail_reply

  -- MAX_CERT_FIELD_SIZE
  abbrev pub max_cert_field_size : ℕ
  max_cert_field_size = 64

  abbrev pub certificate_for : CString → CertificateMeta
  certificate_for cn = record {
    not_before = 0;
    not_after = 31536000;
    c = codes "IE";
    o = codes "nqmcyber";
    ou = codes "R&D";
    cn = cn;
  }

  -- strcpy of the common name into the field, which a longer name runs over.
  unfoldable pub process_gen_cert_cmd : List CString → K CString
  unfolding status gen_cert_cmd pure crash
  process_gen_cert_cmd (cmd ∷ certid ∷ keyid ∷ cn ∷ more) =
      if ltb 0 (length cn)
      then (if ltb (length cn) max_cert_field_size
          then status (gen_cert_cmd crypto ctx certid keyid (certificate_for cn))
          else crash)
      else pure fail_reply
  process_gen_cert_cmd _ = pure fail_reply

  unfoldable pub process_encrypt_blob_cmd : List CString → K CString
  unfolding value encrypt_blob_cmd pure
  process_encrypt_blob_cmd (cmd ∷ keyid ∷ ivid ∷ blob ∷ more) =
      if ltb 0 (length blob)
      then value (encrypt_blob_cmd crypto ctx keyid ivid blob)
      else pure fail_reply
  process_encrypt_blob_cmd _ = pure fail_reply

  unfoldable pub process_decrypt_blob_cmd : List CString → K CString
  unfolding value decrypt_blob_cmd pure
  process_decrypt_blob_cmd (cmd ∷ keyid ∷ ivid ∷ blob ∷ more) =
      if ltb 0 (length blob)
      then value (decrypt_blob_cmd crypto ctx keyid ivid blob)
      else pure fail_reply
  process_decrypt_blob_cmd _ = pure fail_reply

  unfoldable pub process_sign_blob_cmd : List CString → K CString
  unfolding value sign_blob_cmd pure
  process_sign_blob_cmd (cmd ∷ keyid ∷ blob ∷ more) =
      if ltb 0 (length blob) then value (sign_blob_cmd crypto ctx keyid blob) else pure fail_reply
  process_sign_blob_cmd _ = pure fail_reply
