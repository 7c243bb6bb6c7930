-- ===== src/Supervisor/Network/Unlinked.antt =====
-- What remove_bridge_cmd of src/supervisor/network_commands.c does to the graph of bridges.
use edgesec.Common.{
  ◌≡◌, refl, sym, ap, subst, ◌∙◌, inl, inr, ◌⊎◌, false, not, ◌&&◌, Option, some, Mac, All,
}
use edgesec.Supervisor.BridgeList.{Ret, nonneg, BridgeList, remove_bridge_mac}
use edgesec.Supervisor.BridgeList.Shape.{IsWellFormed}
use edgesec.Supervisor.BridgeList.Remove.{cut, remove_bridge_mac_lem}
use edgesec.Supervisor.BridgeList.Graph.{linked, same_bridge, linked-remove_bridge_mac}
use edgesec.Supervisor.MacMapper.Lookup.{FitsIps}
use edgesec.Supervisor.Context.{Context, Env, bind_run, ◌>>◌, pure, modify}
use edgesec.Supervisor.Context.Post.{IgnoresTrace, bind-KeepsWith}
use edgesec.Supervisor.Context.Triple.{
  Triple, Outcome, bind-Triple, then-Triple, get-Triple, unless_fail-Triple, weaken-Outcome,
}
use edgesec.Supervisor.Save.{delete_bridge_ip}
use edgesec.Supervisor.Save.Rules.{delete_bridge_ip-Keeps}
use edgesec.Supervisor.Save.Keeps.{Inv}
use edgesec.Supervisor.Network.{set_bridges, remove_bridge, remove_bridge_cmd}
use edgesec.Supervisor.Network.Bridges.{both_infos-Keeps, for_each_pair-Keeps}
use edgesec.Supervisor.Network.Linked.{ends_with}

-- The bridges are those of the list, but for the one between the devices.
abbrev pub Removed : BridgeList → Mac → Mac → Context → Type 0
Removed ml l r d =
    (a b : Mac) → linked d.bridge_list a b ≡ (not (same_bridge l r a b) && linked (some ml) a b)

module _ (env : Env) (ml : BridgeList) (v : IsWellFormed ml) (l r : Mac) where
  linked-cut :
      (a b : Mac)
      → linked (some (cut ml l r)) a b ≡ (not (same_bridge l r a b) && linked (some ml) a b)
  linked-cut a b = by_result (linked-remove_bridge_mac ml l r a b v)
    where
      same :
          {p q : Option BridgeList} {x : Option (Ret × Option BridgeList)}
          → x ≡ some (Ret.zero, p)
          → x ≡ some (Ret.zero, q)
          → p ≡ q
      same e f = cc

      by_result :
          ((ml' : Option BridgeList) × (remove_bridge_mac (some ml) (some l) (some r)
              ≡ some (Ret.zero, ml'))
            × (linked ml' a b ≡ (not (same_bridge l r a b) && linked (some ml) a b)))
          → linked (some (cut ml l r)) a b ≡ (not (same_bridge l r a b) && linked (some ml) a b)
      by_result (ml', e, f) = ap (λ x. linked x a b) (same (remove_bridge_mac_lem ml l r v) e) ∙ f

  abbrev Before : Context → Type 0
  Before d = (d.bridge_list ≡ some ml) × All FitsIps d.mac_mapper

  abbrev After : Context → Type 0
  After d = (d.bridge_list ≡ some (cut ml l r)) × All FitsIps d.mac_mapper

  After-trace : IgnoresTrace After
  After-trace c k p = p

  remove_bridge-Triple :
      (E : Context → Type 0)
      → Triple Before (remove_bridge l r) (λ ret d. (ret ≡ Ret.zero) × After d) E
  unfolding remove_bridge set_bridges modify pure ◌>>◌ bind_run
  remove_bridge-Triple E = get-Triple _ λ c p.
      removed c p.1
        (ap (λ x. remove_bridge_mac x (some l) (some r)) p.0 ∙ remove_bridge_mac_lem ml l r v)
    where
      removed :
          (c : Context)
          → All FitsIps c.mac_mapper
          → {x : Option (Ret × Option BridgeList)} → x ≡ some (Ret.zero, some (cut ml l r))
          → Outcome (λ ret d. (ret ≡ Ret.zero) × After d) E (set_bridges x c)
      removed c fits e =
          subst (λ y. Outcome (λ ret d. (ret ≡ Ret.zero) × After d) E (set_bridges y c)) (sym e)
            (refl, (refl, fits))

  remove_bridge_cmd-Triple :
      Triple Before (remove_bridge_cmd env l r) (λ _. Removed ml l r) (λ d. ⊥ ⊎ Removed ml l r d)
  unfolding remove_bridge_cmd
  remove_bridge_cmd-Triple = bind-Triple (remove_bridge-Triple _) λ ret.
      then-Triple {R = λ _. After}
        (unless_fail-Triple (nonneg ret) (λ d m up. m.1) (λ d m down. absurd (never m.0 down)))
        λ _.
          ends_with
            (bind-KeepsWith (both_infos-Keeps (λ c w. w.1) l r) λ infos f.
              for_each_pair-Keeps (delete_bridge_ip env) (delete_bridge_ip-Keeps After-trace env)
                infos f)
            (λ d w a b. ap (λ x. linked x a b) w.0 ∙ linked-cut a b)
    where
      never : {x : Ret} → x ≡ Ret.zero → nonneg x ≡ false → ⊥
      never e f = cc

-- remove_bridge_cmd does not fault on a well-formed list. Whether it returns 0, or -1 as a firewall
-- rule cannot be deleted, exactly the bridges from before but the one between the two devices
-- exist.
pub remove_bridge_cmd-Removed :
    (env : Env) (ml : BridgeList) (l r : Mac) (c : Context)
    → Inv c
    → IsWellFormed ml
    → c.bridge_list ≡ some ml
    → Outcome (λ _ d. Removed ml l r d) (λ d. Removed ml l r d) (remove_bridge_cmd env l r c)
remove_bridge_cmd-Removed env ml l r c i v e =
    weaken-Outcome (remove_bridge_cmd env l r c) (λ _ d h. h) (λ d h. settled h)
      ((remove_bridge_cmd-Triple env ml v l r).run c (e, i.fits))
  where
    settled : {A : Type 0} → ⊥ ⊎ A → A
    settled (inl x) = absurd x
    settled (inr h) = h
