-- ===== src/Supervisor/Save/Saved.antt =====
-- What save_mac_mapper of src/supervisor/supervisor_utils.c leaves in the table of devices.
use edgesec.Common.{
  ℕ, ◌≡◌, refl, sym, ap, ◌∙◌, subst, ◌⊎◌, inl, inr, false, none, some, List, [], ◌∷◌, CString, Mac,
  mac_eq, if◌then◌else◌,
}
use edgesec.Supervisor.MacMapper.{MacConn, hash_find, put_mac_mapper}
use edgesec.Supervisor.MacMapper.Laws.{put_table, hash_find-put_mac_mapper, put_mac_mapper-new}
use edgesec.Supervisor.Context.{Context, Env, Call, ◌>>◌, must}
use edgesec.Supervisor.Context.Post.{IgnoresTrace}
use edgesec.Supervisor.Context.Triple.{
  Triple, Outcome, bind-Triple, then-Triple, get-Triple, pure-Triple, modify-Triple,
  unless_fail-Triple, call-Triple, alloc_if-Triple, must-Triple, weaken, premise,
}
use edgesec.Supervisor.Save.{fresh_id, with_id, put_conn, save_mac_mapper, without_pass}

-- The entry with some UUID in it.
abbrev pub named : MacConn → CString → MacConn
named conn id = record conn { info = record (conn.info) { id = id } }

-- The UUID that an entry is saved with: its own, or a new one where it has none.
abbrev pub kept_id : Env → List Call → CString → CString
kept_id env calls [] = env.uuid calls
kept_id env calls (x ∷ s) = x ∷ s

-- The device has the new information with the UUID `id`, and the others have theirs of the `table`.
abbrev pub SavedAs : List MacConn → MacConn → CString → Context → Type 0
SavedAs table conn id c =
    (m : Mac)
    → hash_find m c.mac_mapper
      ≡ (if mac_eq conn.mac_addr m then some (named conn id).info else hash_find m table)

-- The device has the new information with some UUID.
abbrev pub SavedIn : List MacConn → MacConn → Context → Type 0
SavedIn table conn c = (id : CString) × SavedAs table conn id c

-- The device is new, and the table is as it was.
abbrev pub Untouched : List MacConn → MacConn → Context → Type 0
Untouched table conn c =
    (hash_find conn.mac_addr table ≡ none)
    × ((m : Mac) → hash_find m c.mac_mapper ≡ hash_find m table)

-- The device is new and the table is as it was, or it has been saved.
abbrev pub NotSaved : List MacConn → MacConn → Context → Type 0
NotSaved table conn c = Untouched table conn c ⊎ SavedIn table conn c

abbrev pub Table : List MacConn → Context → Type 0
Table table c = c.mac_mapper ≡ table

pub Table-trace : (table : List MacConn) → IgnoresTrace (Table table)
Table-trace table c k p = p

pub SavedIn-trace : (table : List MacConn) (conn : MacConn) → IgnoresTrace (SavedIn table conn)
SavedIn-trace table conn c k p = p

module _ (env : Env) (table : List MacConn) where
  -- No call has been made since.
  abbrev At : List Call → Context → Type 0
  At calls c = Table table c × (c.trace ≡ calls)

  abbrev Named : List Call → MacConn → MacConn → Context → Type 0
  Named calls conn saved c = (saved ≡ named conn (kept_id env calls conn.info.id)) × Table table c

  own :
      (calls : List Call) (conn : MacConn) (x : ℕ) (s : CString)
      → conn.info.id ≡ x ∷ s
      → conn ≡ named conn (kept_id env calls conn.info.id)
  own calls conn x s e = ap (named conn) (e ∙ ap (kept_id env calls) (sym e))

  with_id-Triple :
      (calls : List Call) (conn : MacConn) (E : Context → Type 0)
      → Triple (At calls) (with_id env conn) (Named calls conn) E
  unfolding with_id
  with_id-Triple calls conn E = go conn.info.id refl
    where
      go :
          (id : CString)
          → conn.info.id ≡ id
          → Triple (At calls) (fresh_id env conn id) (Named calls conn) E
      go [] e =
          unfold fresh_id in
          get-Triple _ λ c p.
            (bind-Triple (call-Triple (Table-trace table) env _)
                λ _. pure-Triple _ (λ d q. (rw (e, p.1) refl, q))).run
              c p.0
      go (x ∷ s) e = unfold fresh_id in pure-Triple conn (λ c p. (own calls conn x s e, p.0))

  put_conn-Triple :
      (conn : MacConn)
      → Triple
          (Table table)
          (put_conn env conn)
          (λ _ c.
            (m : Mac)
            → hash_find m c.mac_mapper
              ≡ (if mac_eq conn.mac_addr m then some conn.info else hash_find m table))
          (Untouched table conn)
  unfolding put_conn
  put_conn-Triple conn = get-Triple _ λ c p.
      (bind-Triple (alloc_if-Triple (Table-trace table) env _) λ ok.
          then-Triple {R = λ _ d. d.mac_mapper ≡ put_table ok c.mac_mapper conn}
            (modify-Triple _ (λ d q. refl))
            λ _.
              unless_fail-Triple _
                (λ d q yes_put m.
                  rw (q, hash_find-put_mac_mapper ok c.mac_mapper conn m, yes_put, p) refl)
                (λ d q not_put. (
                  put_mac_mapper-new ok table conn
                      (subst (λ t. (put_mac_mapper ok (some t) conn).0 ≡ false) p not_put),
                  λ m. rw (q, hash_find-put_mac_mapper ok c.mac_mapper conn m, not_put, p) refl,
                ))).run
        c p

  named_case :
      (conn saved : MacConn) (id : CString)
      → saved ≡ named conn id
      → Triple
          (Table table)
          (put_conn env saved
            >> (must env (Call.put_crypt_pair saved.info.id saved.info.pass saved.info.pass_len)
                >> must env (Call.save_sqlite_macconn_entry (without_pass saved))))
          (λ _. SavedAs table conn id)
          (λ c. Untouched table conn c ⊎ SavedAs table conn id c)
  named_case conn saved id e = rw e (
      then-Triple {R = λ _. SavedAs table conn id} stored λ _.
        then-Triple (must-Triple (λ c k p. p) env _ (λ c p. inr p))
          λ _. must-Triple (λ c k p. p) env _ (λ c p. inr p))
    where
      stored :
          Triple
            (Table table)
            (put_conn env (named conn id))
            (λ _. SavedAs table conn id)
            (λ c. Untouched table conn c ⊎ SavedAs table conn id c)
      stored = weaken (put_conn-Triple (named conn id)) (λ _ c p. p) (λ c p. inl p)

  save_mac_mapper-exact :
      (calls : List Call) (conn : MacConn)
      → Triple
          (At calls)
          (save_mac_mapper env conn)
          (λ _. SavedAs table conn (kept_id env calls conn.info.id))
          (λ c. Untouched table conn c ⊎ SavedAs table conn (kept_id env calls conn.info.id) c)
  unfolding save_mac_mapper
  save_mac_mapper-exact calls conn =
      bind-Triple (with_id-Triple calls conn _)
        λ saved. premise λ h. named_case conn saved (kept_id env calls conn.info.id) h

  pub save_mac_mapper-Triple :
      (conn : MacConn)
      → Triple
          (Table table)
          (save_mac_mapper env conn)
          (λ _. SavedIn table conn)
          (NotSaved table conn)
  save_mac_mapper-Triple conn = record {
    run = λ c p.
        (weaken (save_mac_mapper-exact c.trace conn)
            (λ _ d q. (kept_id env c.trace conn.info.id, q))
            (λ d q. some_id (kept_id env c.trace conn.info.id) d q)).run
          c (p, refl);
  }
    where
      some_id :
          (id : CString) (d : Context)
          → Untouched table conn d ⊎ SavedAs table conn id d
          → NotSaved table conn d
      some_id id d (inl u) = inl u
      some_id id d (inr s) = inr (id, s)

-- save_mac_mapper does not fault. If it returns 0, the device has the new information, with the
-- UUID that it had, or a fresh one where it had none, and the others are as before. If it returns -1,
-- that is so too, or else the device is new and no device has changed.
pub save_mac_mapper_lem :
    (env : Env) (conn : MacConn) (c : Context)
    → Outcome
        (λ _. SavedAs c.mac_mapper conn (kept_id env c.trace conn.info.id))
        (λ d.
          Untouched c.mac_mapper conn d
          ⊎ SavedAs c.mac_mapper conn (kept_id env c.trace conn.info.id) d)
        (save_mac_mapper env conn c)
save_mac_mapper_lem env conn c =
    (save_mac_mapper-exact env c.mac_mapper c.trace conn).run c (refl, refl)
