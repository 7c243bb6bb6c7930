-- ===== src/Supervisor/Network/Linked.antt =====
-- What add_bridge_mac_cmd of src/supervisor/network_commands.c does to the graph of bridges.
use edgesec.Common.{
  ◌≡◌, sym, ap, ◌∙◌, ◌⊎◌, inl, inr, Bool, true, false, ◌||◌, some, Mac, All, arith,
}
use edgesec.Supervisor.BridgeList.{
  Ret, nonneg, BridgeList, add_bridge_mac, check_bridge_exist, get_bridge_mac,
}
use edgesec.Supervisor.BridgeList.Shape.{IsWellFormed, add_bridge_mac_lem}
use edgesec.Supervisor.BridgeList.Graph.{linked, same_bridge, linked-add_bridge_mac}
use edgesec.Supervisor.MacMapper.Lookup.{FitsIps}
use edgesec.Supervisor.Context.{Context, Env, M, Run}
use edgesec.Supervisor.Context.Post.{Post, Keeps, IgnoresTrace, bind-KeepsWith}
use edgesec.Supervisor.Context.Triple.{
  Triple, Outcome, bind-Triple, then-Triple, get-Triple, modify-Triple, pure-Triple,
  unless_fail-Triple, alloc_if-Triple,
}
use edgesec.Supervisor.Save.{add_bridge_ip}
use edgesec.Supervisor.Save.Rules.{add_bridge_ip-Keeps}
use edgesec.Supervisor.Save.Keeps.{Inv}
use edgesec.Supervisor.Network.{add_bridge, add_bridge_mac_cmd}
use edgesec.Supervisor.Network.Bridges.{both_infos-Keeps, for_each_pair-Keeps}

-- The bridges are those of the list, and the one between the devices.
abbrev pub Added : BridgeList → Mac → Mac → Context → Type 0
Added ml l r d =
    (a b : Mac) → linked d.bridge_list a b ≡ (same_bridge l r a b || linked (some ml) a b)

-- The bridges are those of the list.
abbrev pub AsBefore : BridgeList → Context → Type 0
AsBefore ml d = (a b : Mac) → linked d.bridge_list a b ≡ linked (some ml) a b

module _ (src_ok dst_ok : Bool) (ml : BridgeList) (l r : Mac) where
  failed_same :
      (a b : Mac)
      → nonneg (add_bridge_mac src_ok dst_ok (some ml) (some l) (some r)).0 ≡ false
      → linked (add_bridge_mac src_ok dst_ok (some ml) (some l) (some r)).1 a b
        ≡ linked (some ml) a b
  unfolding check_bridge_exist get_bridge_mac
  failed_same a b h = ground (arith, add_bridge_mac_lem src_ok dst_ok ml l r)

-- A part that keeps P, where P is one of the two ways to end.
pub ends_with :
    {A : Type 0} {P Q F : Context → Type 0} {m : M A}
    → Keeps P m
    → ((c : Context) → P c → Q c)
    → Triple P m (λ _. Q) (λ d. F d ⊎ Q d)
ends_with {A = A} {P = P} {Q = Q} {F = F} {m = m} k w = record {
  run = λ c p. ended (m c) (k.post c p);
}
  where
    ended : (r : Run A) → Post P r → Outcome (λ _. Q) (λ d. F d ⊎ Q d) r
    ended (Run.done a c) h = w c h
    ended (Run.failed c) h = inr (w c h)
    ended Run.fault h = absurd h

module _ (env : Env) (ml : BridgeList) (v : IsWellFormed ml) (l r : Mac) where
  abbrev Before : Context → Type 0
  Before d = (d.bridge_list ≡ some ml) × All FitsIps d.mac_mapper

  Before-trace : IgnoresTrace Before
  Before-trace c k p = p

  -- The list is what add_bridge_mac made of it.
  abbrev Made : Ret → Context → Type 0
  Made ret d =
      (src_ok : Bool) × (dst_ok : Bool) × (d.bridge_list
        ≡ (add_bridge_mac src_ok dst_ok (some ml) (some l) (some r)).1)
      × (ret ≡ (add_bridge_mac src_ok dst_ok (some ml) (some l) (some r)).0)
      × All FitsIps d.mac_mapper

  abbrev With : Context → Type 0
  With d = Added ml l r d × All FitsIps d.mac_mapper

  With-trace : IgnoresTrace With
  With-trace c k p = p

  add_bridge-Triple : (E : Context → Type 0) → Triple Before (add_bridge env l r) Made E
  unfolding add_bridge
  add_bridge-Triple E = get-Triple _ λ c p.
      (bind-Triple (alloc_if-Triple Before-trace env _) λ src_ok.
          bind-Triple (alloc_if-Triple Before-trace env _) λ dst_ok.
            then-Triple
              {R = λ _ d.
                (d.bridge_list ≡ (add_bridge_mac src_ok dst_ok (some ml) (some l) (some r)).1)
                × All FitsIps d.mac_mapper}
              (modify-Triple _
                λ d q. (ap (λ x. (add_bridge_mac src_ok dst_ok x (some l) (some r)).1) p.0, q.1))
              λ _. pure-Triple _ λ d q. (
                src_ok,
                dst_ok,
                q.0,
                ap (λ x. (add_bridge_mac src_ok dst_ok x (some l) (some r)).0) p.0,
                q.1,
              )).run
        c p

  Made-Added : (ret : Ret) (d : Context) → Made ret d → nonneg ret ≡ true → With d
  Made-Added ret d (src_ok, dst_ok, e, f, fits) up = (
    λ a b.
        ap (λ x. linked x a b) e
        ∙ linked-add_bridge_mac src_ok dst_ok ml l r a b v (ap nonneg (sym f) ∙ up),
    fits,
  )

  Made-AsBefore : (ret : Ret) (d : Context) → Made ret d → nonneg ret ≡ false → AsBefore ml d
  Made-AsBefore ret d (src_ok, dst_ok, e, f, fits) down a b =
      ap (λ x. linked x a b) e ∙ failed_same src_ok dst_ok ml l r a b (ap nonneg (sym f) ∙ down)

  add_bridge_mac_cmd-Triple :
      Triple Before
        (add_bridge_mac_cmd env l r)
        (λ _. Added ml l r)
        (λ d. AsBefore ml d ⊎ Added ml l r d)
  unfolding add_bridge_mac_cmd
  add_bridge_mac_cmd-Triple = bind-Triple (add_bridge-Triple _) λ ret.
      then-Triple {R = λ _. With}
        (unless_fail-Triple (nonneg ret) (Made-Added ret)
          (λ d m down. inl (Made-AsBefore ret d m down)))
        λ _.
          ends_with
            (bind-KeepsWith (both_infos-Keeps (λ c w. w.1) l r) λ infos f.
              for_each_pair-Keeps (add_bridge_ip env) (add_bridge_ip-Keeps With-trace env) infos f)
            (λ d w. w.0)

-- add_bridge_mac_cmd does not fault. When it returns 0, exactly the bridges from before and the one
-- between the two devices exist. When it returns -1, that is so too, or exactly the bridges from
-- before exist.
pub add_bridge_mac_cmd-Added :
    (env : Env) (ml : BridgeList) (l r : Mac) (c : Context)
    → Inv c
    → IsWellFormed ml
    → c.bridge_list ≡ some ml
    → Outcome
        (λ _ d. Added ml l r d)
        (λ d. AsBefore ml d ⊎ Added ml l r d)
        (add_bridge_mac_cmd env l r c)
add_bridge_mac_cmd-Added env ml l r c i v e =
    (add_bridge_mac_cmd-Triple env ml v l r).run c (e, i.fits)
