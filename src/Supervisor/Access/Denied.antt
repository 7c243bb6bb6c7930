-- ===== src/Supervisor/Access/Denied.antt =====
-- A device that has been denied does not get in: get_mac_conn_cmd of src/supervisor/supervisor.c.
use edgesec.Common.{
  ℕ, ◌<◌, ◌%◌, leb, ◌≡◌, refl, true, false, Option, none, some, is_some, List, [], ◌∷◌, zero, suc,
  length, get_elem?, Mac, ℤ, minus_one, Find, arith, Bool-cases, inl, inr,
}
use edgesec.Utils.Hash.{sdbm_hash}
use edgesec.Utils.IfaceMapper.{ConfigIfinfo}
use edgesec.Supervisor.MacMapper.{
  MacConn, MacConnInfo, hash_find, get_mac_mapper, init_default_mac_info,
}
use edgesec.Supervisor.MacMapper.Laws.{get_mac_mapper-found}
use edgesec.Supervisor.Context.{Context, Env, Call, Run, TicketPtr, pure, crash}
use edgesec.Supervisor.Context.Post.{IgnoresTrace}
use edgesec.Supervisor.Context.Triple.{
  Triple, Outcome, bind-Triple, get-Triple, pure-Triple, if-Triple, call-Triple, returns,
}
use edgesec.Supervisor.Access.{
  VlanAllocationType, mac_bytes, read_vlan, pick_vlan, allocate_from, allocate_vlan, default_vlanid,
  admit, rejected, info_after, get_mac_conn_cmd,
}

-- A read within the bounds gives the VLAN of one of the interfaces.
read_vlan_within :
    (ps : List ConfigIfinfo) (i : ℕ) → i < length ps → is_some (get_elem? ps i) ≡ true
read_vlan_within [] i h = absurd (omega arith)
read_vlan_within (p ∷ ps) zero h = refl
read_vlan_within (p ∷ ps) (suc i) h = read_vlan_within ps i (omega arith)

module _ {P E : Context → Type 0} (t : IgnoresTrace P) (env : Env) where
  read_case :
      (o : Option ConfigIfinfo)
      → is_some o ≡ true
      → Triple {A = ℤ} P (elim o [ none ↦ crash | some p ↦ pure p.vlanid ]) (λ _. P) E
  read_case none h = cc
  read_case (some p) h = pure-Triple p.vlanid (λ c p. p)

  pub allocate_from-keeps :
      (mac : Mac) (default : ℤ) (ps : List ConfigIfinfo)
      → Triple P
          (allocate_from env (some mac) VlanAllocationType.vlan_allocate_hash default ps)
          (λ _. P)
          E
  unfolding allocate_from pick_vlan read_vlan
  allocate_from-keeps mac default ps = elim (Bool-cases (leb (length ps) 1)) [
    | inl few ↦ rw few (pure-Triple default (λ c p. p))
    | inr many ↦ rw many (
        bind-Triple (call-Triple t env Call.os_malloc) λ ok.
          if-Triple ok
            (read_case (get_elem? ps (sdbm_hash (mac_bytes mac) % length ps))
              (read_vlan_within ps (sdbm_hash (mac_bytes mac) % length ps) (ground arith)))
            (pure-Triple minus_one (λ c p. p)))
  ]

-- The state that the decision reads, and keeps.
abbrev Same : List MacConn → TicketPtr → List ConfigIfinfo → Context → Type 0
Same table t ps c = (c.mac_mapper ≡ table) × (c.ticket ≡ t) × (c.config_ifinfo_array ≡ some ps)

Same-trace :
    (table : List MacConn) (t : TicketPtr) (ps : List ConfigIfinfo) → IgnoresTrace (Same table t ps)
Same-trace table t ps c k p = p

array_case :
    {P E : Context → Type 0}
    → IgnoresTrace P
    → (env : Env) (mac : Mac) (ps : List ConfigIfinfo) (default : ℤ)
      (o : Option (List ConfigIfinfo))
    → o ≡ some ps
    → Triple {A = ℤ} P
        (elim o [
          | none ↦ crash
          | some qs ↦ allocate_from env (some mac) VlanAllocationType.vlan_allocate_hash default qs
        ])
        (λ _. P)
        E
array_case t env mac ps default none h = cc
array_case t env mac ps default (some qs) h = allocate_from-keeps t env mac default qs

-- The choice of the VLAN changes nothing but the trace.
pub default_vlanid-keeps :
    {P E : Context → Type 0}
    → IgnoresTrace P
    → (env : Env) (mac : Mac) (ps : List ConfigIfinfo)
    → ((c : Context) → P c → c.config_ifinfo_array ≡ some ps)
    → Triple P (default_vlanid env (some mac)) (λ _. P) E
unfolding default_vlanid allocate_vlan
default_vlanid-keeps t env mac ps config = get-Triple _ λ c p.
    (if-Triple c.allocate_vlans
        (get-Triple _ λ d q.
          (array_case t env mac ps d.default_open_vlanid d.config_ifinfo_array (config d q)).run d
            q)
        (pure-Triple _ (λ d q. q))).run
      c p

admit-denied :
    (env : Env) (mac : Mac) (v : ℤ) (c : Context) (info : MacConnInfo)
    → info.allow_connection ≡ false
    → admit env mac v c (Find.found info) info ≡ pure (rejected info)
unfolding admit
admit-denied env mac v c info h = elim (Bool-cases c.allow_all_connections) [
  | inl all ↦ rw (all, h) refl
  | inr closed ↦ rw (closed, h) refl
]

-- A device that is known as not allowed is rejected, with the VLAN -1, by get_mac_conn_cmd,
-- whatever the settings, the ticket and the outside: the call returns, and leaves the table of
-- devices and the ticket as they were.
pub get_mac_conn_cmd-denied :
    (env : Env) (mac : Mac) (c : Context) (info : MacConnInfo) (ps : List ConfigIfinfo)
    → hash_find mac c.mac_mapper ≡ some info
    → info.allow_connection ≡ false
    → c.config_ifinfo_array ≡ some ps
    → (answer : MacConnInfo) × (c' : Context) × (get_mac_conn_cmd env (some mac) c
        ≡ Run.done answer c')
      × ((answer ≡ rejected info) × (c'.mac_mapper ≡ c.mac_mapper) × (c'.ticket ≡ c.ticket))
unfolding get_mac_conn_cmd pure
get_mac_conn_cmd-denied env mac c info ps there denied config = returns _ _ (
    (bind-Triple {R = λ _. Same c.mac_mapper c.ticket ps}
        (default_vlanid-keeps (Same-trace c.mac_mapper c.ticket ps) env mac ps (λ d q. q.2))
        λ v. get-Triple _ λ d p. answer v d p).run
      c (refl, refl, config))
  where
    found :
        (d : Context)
        → Same c.mac_mapper c.ticket ps d
        → get_mac_mapper (some d.mac_mapper) (some mac) true ≡ Find.found info
    found d p = get_mac_mapper-found mac d.mac_mapper info (rw p.0 there)

    answer :
        (v : ℤ) (d : Context)
        → Same c.mac_mapper c.ticket ps d
        → Outcome
            (λ a c'. (a ≡ rejected info) × (c'.mac_mapper ≡ c.mac_mapper) × (c'.ticket ≡ c.ticket))
            (λ c'. ⊥)
            (admit env mac v d
              (get_mac_mapper (some d.mac_mapper) (some mac) true)
              (info_after
                (init_default_mac_info v d.allow_all_nat)
                (get_mac_mapper (some d.mac_mapper) (some mac) true))
              d)
    answer v d p = rw (found d p, admit-denied env mac v d info denied) (refl, p.0, p.1)
