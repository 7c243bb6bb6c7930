-- ===== src/Supervisor/Network/Deny.antt =====
-- What deny_mac_cmd of src/supervisor/network_commands.c does to a device.
use edgesec.Common.{
  ◌≡◌, refl, sym, ◌∙◌, ◌⊎◌, inl, inr, true, false, none, some, List, ◌∷◌, Mac, minus_one,
  mac_eq_refl, Find, Option-cases,
}
use edgesec.Supervisor.MacMapper.{MacConn, MacConnInfo, hash_find, get_mac_mapper}
use edgesec.Supervisor.Context.{Context, Env, Call, Run, pure}
use edgesec.Supervisor.Context.Triple.{
  Triple, Outcome, bind-Triple, then-Triple, get-Triple, pure-Triple, must-Triple, weaken,
  both_outcomes, weaken-Outcome,
}
use edgesec.Supervisor.Save.{default_info, info_or_default}
use edgesec.Supervisor.Save.Saved.{SavedIn, Table, save_mac_mapper-Triple}
use edgesec.Supervisor.Save.Keeps.{Inv}
use edgesec.Supervisor.Network.{deny_mac_cmd}
use edgesec.Supervisor.Access.{get_mac_conn_cmd}
use edgesec.Supervisor.Access.Denied.{get_mac_conn_cmd-denied}
use edgesec.Supervisor.Network.Keeps.{deny_mac_cmd-Inv}

-- The device is known, and not allowed.
abbrev pub Denied : Mac → Context → Type 0
Denied mac c =
    (info : MacConnInfo) × (hash_find mac c.mac_mapper ≡ some info)
    × (info.allow_connection ≡ false)

SavedIn-Denied :
    (table : List MacConn) (mac : Mac) (info : MacConnInfo) (c : Context)
    → info.allow_connection ≡ false
    → SavedIn table (record { mac_addr = mac; info = info }) c
    → Denied mac c
SavedIn-Denied table mac info c h (id, s) =
    (record info { id = id }, s mac ∙ rw (mac_eq_refl mac) refl, h)

info_or_default-Triple :
    (mac : Mac) (table : List MacConn) (E : Context → Type 0)
    → Triple (Table table) (info_or_default mac) (λ _. Table table) E
unfolding info_or_default
info_or_default-Triple mac table E =
    get-Triple _ λ c p. (info_case c (get_mac_mapper (some c.mac_mapper) (some mac) true)).run c p
  where
    info_case :
        (c : Context) (f : Find MacConnInfo)
        → Triple {A = MacConnInfo}
            (Table table)
            (elim f [ Find.found info ↦ pure info | _ ↦ pure (default_info c) ])
            (λ _. Table table)
            E
    info_case c Find.bad_param = pure-Triple _ (λ d q. q)
    info_case c Find.missing = pure-Triple _ (λ d q. q)
    info_case c (Find.found info) = pure-Triple info (λ d q. q)

-- Denied, or new and not saved.
abbrev NotDenied : List MacConn → Mac → Context → Type 0
NotDenied table mac c =
    ((hash_find mac table ≡ none) × ((m : Mac) → hash_find m c.mac_mapper ≡ hash_find m table))
    ⊎ Denied mac c

Denied-trace :
    (mac : Mac) (c : Context) (k : Call)
    → Denied mac c
    → Denied mac (record c { trace = k ∷ c.trace })
Denied-trace mac c k p = p

deny_mac_cmd-Triple :
    (env : Env) (mac : Mac) (table : List MacConn)
    → Triple (Table table) (deny_mac_cmd env mac) (λ _. Denied mac) (NotDenied table mac)
unfolding deny_mac_cmd
deny_mac_cmd-Triple env mac table = bind-Triple (info_or_default-Triple mac table _) λ info.
    then-Triple {R = λ _. Denied mac}
      (weaken (save_mac_mapper-Triple env table _)
        (λ _ c s. SavedIn-Denied table mac (record info { allow_connection = false }) c refl s)
        (λ c f. elim f [
          | inl u ↦ inl u
          | inr s ↦
              inr (SavedIn-Denied table mac (record info { allow_connection = false }) c refl s)
        ]))
      λ _. must-Triple (Denied-trace mac) env _ (λ c p. inr p)

-- get_mac_conn_cmd rejects the device, whatever the outside does: it answers with the VLAN -1.
abbrev pub LockedOut : Mac → Context → Type 0
LockedOut mac d =
    (env : Env)
    → (answer : MacConnInfo) × (d' : Context) × (get_mac_conn_cmd env (some mac) d
        ≡ Run.done answer d')
      × (answer.vlanid ≡ minus_one)

Denied-LockedOut : (mac : Mac) (d : Context) → Denied mac d → Inv d → LockedOut mac d
Denied-LockedOut mac d (info, there, denied) v env = elim (Option-cases d.config_ifinfo_array) [
  | inl absent ↦ absurd (true_not_false (sym v.configured ∙ rw absent refl))
  | inr (ps, config) ↦
      let (answer, d', e, same) = get_mac_conn_cmd-denied env mac d info ps there denied config in
      (answer, d', e, rw same.0 refl)
]
  where
    true_not_false : true ≡ false → ⊥
    true_not_false e = cc

-- deny_mac_cmd does not fault. When it returns 0, the device is locked out: get_mac_conn_cmd then
-- rejects it, whatever the outside does. When it returns -1, the device is locked out too, or it
-- was not known before and the table of devices is as it was.
pub deny_mac_cmd-LockedOut :
    (env : Env) (mac : Mac) (c : Context)
    → Inv c
    → Outcome
        (λ _ d. LockedOut mac d)
        (λ d.
          ((hash_find mac c.mac_mapper ≡ none)
            × ((m : Mac) → hash_find m d.mac_mapper ≡ hash_find m c.mac_mapper))
          ⊎ LockedOut mac d)
        (deny_mac_cmd env mac c)
deny_mac_cmd-LockedOut env mac c v =
    weaken-Outcome (deny_mac_cmd env mac c) (λ _ d p. Denied-LockedOut mac d p.0 p.1)
      (λ d p. elim p.0 [ inl u ↦ inl u | inr h ↦ inr (Denied-LockedOut mac d h p.1) ])
      (both_outcomes _ _ Inv (deny_mac_cmd env mac c)
        ((deny_mac_cmd-Triple env mac c.mac_mapper).run c refl)
        ((deny_mac_cmd-Inv env mac).post c v))
