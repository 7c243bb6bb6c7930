-- ===== src/Supervisor/Access/NoTicket.antt =====
-- A state with no ticket keeps none, and what save_and_answer of a device gives there:
-- src/supervisor/supervisor.c.
use edgesec.Common.{
  ◌==◌, ◌≡◌, refl, ◌⊎◌, inl, inr, Bool, true, false, not, some, List, [], ◌∷◌, Mac, ℤ, minus_one,
  Find, if◌then◌else◌, ℕ,
}
use edgesec.Utils.IfaceMapper.{VlanConn, get_vlan_mapper}
use edgesec.Supervisor.MacMapper.{MacConn, MacConnInfo}
use edgesec.Supervisor.Context.{Context, Env, M, Run, TicketPtr, pure, fail, succeeds?, catch_run}
use edgesec.Supervisor.Context.Post.{
  Post, Keeps, IgnoresTrace, bind-Keeps, then-Keeps, get-Keeps, pure-Keeps, fail-Keeps,
  modify-Keeps, unless_fail-Keeps, if-Keeps, call-Keeps, must-Keeps, alloc_if-Keeps,
}
use edgesec.Supervisor.Context.Triple.{
  Triple, Outcome, bind-Triple, get-Triple, pure-Triple, if-Triple, call-Triple,
}
use edgesec.Supervisor.Save.{fresh_id, with_id, put_conn, save_mac_mapper}
use edgesec.Supervisor.Access.{
  start_analyser, schedule_analyser, capture_ok, save_device_vlan, rejected, save_and_answer,
}

abbrev pub NoTicket : Context → Type 0
NoTicket c = c.ticket ≡ TicketPtr.null

NoTicket-trace : IgnoresTrace NoTicket
NoTicket-trace c k p = p

-- A call of this sort returns in any case.
succeeds?-returns :
    {A : Type 0} {P E : Context → Type 0} {m : M A} → Keeps P m → Triple P (succeeds? m) (λ _. P) E
unfolding succeeds?
succeeds?-returns {A = A} {P = P} {E = E} {m = m} k = record {
  run = λ c p. ended (m c) (k.post c p);
}
  where
    ended : (r : Run A) → Post P r → Outcome (λ _. P) E (catch_run r)
    ended (Run.done a c) h = h
    ended (Run.failed c) h = h
    ended Run.fault h = h

module _ (env : Env) where
  fresh_id-Keeps : (conn : MacConn) (id : List ℕ) → Keeps NoTicket (fresh_id env conn id)
  unfolding fresh_id
  fresh_id-Keeps conn [] =
      get-Keeps _ λ c p. (bind-Keeps (call-Keeps NoTicket-trace env _) λ _. pure-Keeps _).post c p
  fresh_id-Keeps conn (x ∷ s) = pure-Keeps conn

  put_conn-Keeps : (conn : MacConn) → Keeps NoTicket (put_conn env conn)
  unfolding put_conn
  put_conn-Keeps conn = get-Keeps _ λ c p.
      (bind-Keeps (alloc_if-Keeps NoTicket-trace env _)
          λ ok. then-Keeps (modify-Keeps _ λ d q. q) (unless_fail-Keeps _)).post
        c p

  save_mac_mapper-Keeps : (conn : MacConn) → Keeps NoTicket (save_mac_mapper env conn)
  unfolding save_mac_mapper with_id
  save_mac_mapper-Keeps conn = bind-Keeps (fresh_id-Keeps conn conn.info.id) λ saved.
      then-Keeps (put_conn-Keeps saved)
        (then-Keeps (must-Keeps NoTicket-trace env _) (must-Keeps NoTicket-trace env _))

  vlan_case :
      (f : Find VlanConn)
      → Keeps {A = Unit {0}} NoTicket (elim f [
        | Find.found vlan ↦ if vlan.capture_pid == 0 then start_analyser env vlan else pure tt
        | _ ↦ fail
      ])
  unfolding start_analyser
  vlan_case Find.bad_param = fail-Keeps
  vlan_case Find.missing = fail-Keeps
  vlan_case (Find.found vlan) =
      if-Keeps _
        (then-Keeps (must-Keeps NoTicket-trace env _) (
          get-Keeps _ λ c p. (then-Keeps (modify-Keeps _ λ d q. q) (unless_fail-Keeps _)).post c p))
        (pure-Keeps tt)

  schedule_analyser-Keeps : (vlanid : ℤ) → Keeps NoTicket (schedule_analyser env vlanid)
  unfolding schedule_analyser
  schedule_analyser-Keeps vlanid =
      get-Keeps _ λ c p. (vlan_case (get_vlan_mapper (some c.vlan_mapper) vlanid)).post c p

-- The answer has the VLAN, or is a rejection; and it has the password and the label.
abbrev pub AnswersWith : MacConnInfo → MacConnInfo → Type 0
AnswersWith info a =
    ((a.vlanid ≡ info.vlanid) ⊎ (a.vlanid ≡ minus_one))
    × (a.pass ≡ info.pass)
    × (a.pass_len ≡ info.pass_len)
    × (a.label ≡ info.label)

-- Only the time has changed.
abbrev Stamped : MacConnInfo → MacConnInfo → Type 0
Stamped info a =
    (a.vlanid ≡ info.vlanid)
    × (a.pass ≡ info.pass)
    × (a.pass_len ≡ info.pass_len)
    × (a.label ≡ info.label)

module _ (env : Env) {E : Context → Type 0} where
  capture_ok-keeps : (vlanid : ℤ) → Triple NoTicket (capture_ok env vlanid) (λ _. NoTicket) E
  unfolding capture_ok
  capture_ok-keeps vlanid = get-Triple _ λ c p.
      (if-Triple c.exec_capture (succeeds?-returns (schedule_analyser-Keeps env vlanid))
          (pure-Triple true (λ d q. q))).run
        c p

  save_device_vlan-keeps :
      (mac : Mac) (info : MacConnInfo)
      → Triple NoTicket (save_device_vlan env mac info) (λ r c. Stamped info r.1 × NoTicket c) E
  unfolding save_device_vlan
  save_device_vlan-keeps mac info = bind-Triple (capture_ok-keeps info.vlanid) λ captured.
      if-Triple (not captured) (pure-Triple _ (λ c p. ((refl, refl, refl, refl), p))) (
        get-Triple _ λ c p.
          (bind-Triple (call-Triple NoTicket-trace env _) λ time_ok.
              if-Triple (not time_ok) (pure-Triple _ (λ d q. ((refl, refl, refl, refl), q))) (
                bind-Triple (succeeds?-returns (save_mac_mapper-Keeps env _))
                  λ saved. pure-Triple _ (λ d q. ((refl, refl, refl, refl), q)))).run
            c p)

  pub save_and_answer-keeps :
      (mac : Mac) (info : MacConnInfo)
      → Triple NoTicket (save_and_answer env mac info) (λ a c. AnswersWith info a × NoTicket c) E
  unfolding save_and_answer
  save_and_answer-keeps mac info = bind-Triple (save_device_vlan-keeps mac info) λ r. last r.0 r.1
    where
      last :
          (saved : Bool) (a : MacConnInfo)
          → Triple
              (λ c. Stamped info a × NoTicket c)
              (pure (if saved then a else rejected a))
              (λ b c. AnswersWith info b × NoTicket c)
              E
      last true a = pure-Triple a (λ c p. ((inl p.0.0, p.0.1, p.0.2, p.0.3), p.1))
      last false a = pure-Triple _ (λ c p. ((inr refl, p.0.1, p.0.2, p.0.3), p.1))
