-- ===== src/Supervisor/Network/Accept.antt =====
-- What accept_mac_cmd of src/supervisor/network_commands.c does to a device.
use edgesec.Common.{
  ◌≡◌, refl, ap, ◌⊎◌, inl, inr, true, Option, none, some, List, Mac, ℤ, mac_eq, Find, CString,
  if◌then◌else◌,
}
use edgesec.Utils.IfaceMapper.{VlanConn, find_vlan, get_vlan_mapper}
use edgesec.Utils.IfaceMapper.Laws.{get_vlan_mapper-found, get_vlan_mapper-missing}
use edgesec.Supervisor.MacMapper.{MacConn, MacConnInfo, hash_find, get_mac_mapper}
use edgesec.Supervisor.MacMapper.Laws.{get_mac_mapper-found, get_mac_mapper-missing}
use edgesec.Supervisor.Context.{Context, Env, pure, fail}
use edgesec.Supervisor.Context.Triple.{
  Triple, Outcome, bind-Triple, then-Triple, get-Triple, pure-Triple, fail-Triple, must-Triple,
  if-Triple, call-Triple, weaken, weaken_from, premise,
}
use edgesec.Supervisor.Save.{default_info, known_info}
use edgesec.Supervisor.Save.Saved.{SavedIn, save_mac_mapper-Triple}
use edgesec.Supervisor.Network.{accept_mac_cmd, vlan_or_fail, disconnect_station}

abbrev Tables : List MacConn → List VlanConn → Context → Type 0
Tables table vlans c = (c.mac_mapper ≡ table) × (c.vlan_mapper ≡ vlans)

-- The device is allowed on the VLAN, by the interface of the VLAN, and the others are as in the
-- `table`.
abbrev pub Accepted : List MacConn → Mac → ℤ → CString → Context → Type 0
Accepted table mac vlanid ifname d =
    (info : MacConnInfo) × (info.allow_connection ≡ true)
    × (info.vlanid ≡ vlanid)
    × (info.ifname ≡ ifname)
    × ((m : Mac)
        → hash_find m d.mac_mapper ≡ (if mac_eq mac m then some info else hash_find m table))

accepted : MacConnInfo → ℤ → VlanConn → MacConnInfo
accepted info vlanid vlan = record info {
  allow_connection = true;
  vlanid = vlanid;
  ifname = vlan.ifname;
}

SavedIn-Accepted :
    (table : List MacConn) (mac : Mac) (vlanid : ℤ) (vlan : VlanConn) (info : MacConnInfo)
    (d : Context)
    → SavedIn table (record { mac_addr = mac; info = accepted info vlanid vlan }) d
    → Accepted table mac vlanid vlan.ifname d
unfolding accepted
SavedIn-Accepted table mac vlanid vlan info d (id, s) =
    (record (accepted info vlanid vlan) { id = id }, refl, refl, refl, s)

known_info-Triple :
    (mac : Mac) (table : List MacConn) (vlans : List VlanConn) (E : Context → Type 0)
    → Triple (Tables table vlans) (known_info mac) (λ _. Tables table vlans) E
unfolding known_info
known_info-Triple mac table vlans E =
    get-Triple _ λ c p. (known_case c (hash_find mac c.mac_mapper) refl).run c p
  where
    known_case :
        (c : Context) (o : Option MacConnInfo)
        → hash_find mac c.mac_mapper ≡ o
        → Triple {A = MacConnInfo}
            (Tables table vlans)
            (elim (get_mac_mapper (some c.mac_mapper) (some mac) true) [
              | Find.bad_param ↦ fail
              | Find.missing ↦ pure (default_info c)
              | Find.found info ↦ pure info
            ])
            (λ _. Tables table vlans)
            E
    known_case c none h =
        rw (get_mac_mapper-missing mac c.mac_mapper h) (pure-Triple (default_info c) (λ d q. q))
    known_case c (some info) h =
        rw (get_mac_mapper-found mac c.mac_mapper info h) (pure-Triple info (λ d q. q))

vlan_or_fail-Triple :
    (vlanid : ℤ) (table : List MacConn) (vlans : List VlanConn)
    → Triple
        (Tables table vlans)
        (vlan_or_fail vlanid)
        (λ vlan c. (find_vlan vlanid vlans ≡ some vlan) × Tables table vlans c)
        (λ c. (find_vlan vlanid vlans ≡ none) × Tables table vlans c)
unfolding vlan_or_fail
vlan_or_fail-Triple vlanid table vlans =
    get-Triple _ λ c p. (vlan_case c p (find_vlan vlanid vlans) refl).run c p
  where
    vlan_case :
        (c : Context)
        → Tables table vlans c
        → (o : Option VlanConn) → find_vlan vlanid vlans ≡ o
        → Triple {A = VlanConn}
            (Tables table vlans)
            (elim (get_vlan_mapper (some c.vlan_mapper) vlanid) [
              | Find.found vlan ↦ pure vlan
              | _ ↦ fail
            ])
            (λ vlan c. (find_vlan vlanid vlans ≡ some vlan) × Tables table vlans c)
            (λ c. (find_vlan vlanid vlans ≡ none) × Tables table vlans c)
    vlan_case c p none h =
        rw (p.1, get_vlan_mapper-missing vlanid vlans h) (fail-Triple (λ d q. (h, q)))
    vlan_case c p (some vlan) h =
        rw (p.1, get_vlan_mapper-found vlanid vlans vlan h) (pure-Triple vlan (λ d q. (h, q)))

-- The device is accepted on the VLAN's interface.
abbrev pub AcceptedOn : Mac → ℤ → Context → Context → Type 0
AcceptedOn mac vlanid c d =
    (vlan : VlanConn) × (find_vlan vlanid c.vlan_mapper ≡ some vlan)
    × Accepted c.mac_mapper mac vlanid vlan.ifname d

-- The devices are as they were.
abbrev pub Unchanged : Context → Context → Type 0
Unchanged c d = (m : Mac) → hash_find m d.mac_mapper ≡ hash_find m c.mac_mapper

accept_mac_cmd-Triple :
    (env : Env) (mac : Mac) (vlanid : ℤ) (c : Context)
    → Triple
        (Tables c.mac_mapper c.vlan_mapper)
        (accept_mac_cmd env mac vlanid)
        (λ _. AcceptedOn mac vlanid c)
        (λ d. Unchanged c d ⊎ AcceptedOn mac vlanid c d)
unfolding accept_mac_cmd disconnect_station accepted
accept_mac_cmd-Triple env mac vlanid c =
    bind-Triple (known_info-Triple mac c.mac_mapper c.vlan_mapper _) λ info.
      bind-Triple
        (weaken (vlan_or_fail-Triple vlanid c.mac_mapper c.vlan_mapper) (λ _ _ p. p)
          (λ d p. inl (λ m. ap (hash_find m) p.1.0)))
        λ vlan. premise λ h.
          then-Triple {R = λ _. AcceptedOn mac vlanid c}
            (weaken_from (λ d p. p.0) (save_mac_mapper-Triple env c.mac_mapper _)
              (λ _ d s. (vlan, h, SavedIn-Accepted c.mac_mapper mac vlanid vlan info d s))
              (λ d f. elim f [
                | inl u ↦ inl u.1
                | inr s ↦ inr (vlan, h, SavedIn-Accepted c.mac_mapper mac vlanid vlan info d s)
              ]))
            λ _. then-Triple (must-Triple (λ d k p. p) env _ (λ d p. inr p)) λ _.
              bind-Triple (call-Triple (λ d k p. p) env _) λ known.
                if-Triple known (must-Triple (λ d k p. p) env _ (λ d p. inr p))
                  (pure-Triple tt (λ d p. p))

-- accept_mac_cmd does not fault. When it returns 0, the VLAN is one of the table's, and the device
-- is allowed on it, by its interface; the other devices are as before. When it returns -1, that
-- is so too, or the devices are all as before.
pub accept_mac_cmd_lem :
    (env : Env) (mac : Mac) (vlanid : ℤ) (c : Context)
    → Outcome
        (λ _ d. AcceptedOn mac vlanid c d)
        (λ d. Unchanged c d ⊎ AcceptedOn mac vlanid c d)
        (accept_mac_cmd env mac vlanid c)
accept_mac_cmd_lem env mac vlanid c = (accept_mac_cmd-Triple env mac vlanid c).run c (refl, refl)
