-- ===== src/Supervisor/BridgeList/Shape.antt =====
-- The well-formed lists of src/supervisor/bridge_list.c, and what keeps them so.
use edgesec.Common.{
  ℕ, suc, ◌<◌, ◌≤◌, if◌then◌else◌, ◌≡◌, refl, ◌⊎◌, inr, Bool, true, false, not, ◌&&◌, ◌||◌, Option,
  none, some, is_some, List, [], ◌∷◌, Mac, mac_eq, mac_eq_iff, mac_eq_refl, arith,
}
use edgesec.Supervisor.BridgeList.{
  Node, BridgeList, Ret, compare_edge, unlink, add_bridge_mac, push_edges, get_bridge_mac, no_edges,
}
use edgesec.Supervisor.BridgeList.Edges.{
  has_edge, last_edge, drop_edge, has_edge-drop_edge, last_edge_absent, drop_edge_absent,
  has_edge_same, scan_edges_lem, is_some-last_edge,
}

-- Addresses fall along the list and stay under the bound.
abbrev pub Below : ℕ → List Node → Type 0
Below n [] = Unit {0}
Below n (e ∷ es) = (e.addr < n) × Below e.addr es

-- No edge stands twice.
abbrev pub Unique : List Node → Type 0
Unique [] = Unit {0}
Unique (e ∷ es) = (has_edge e.src_addr e.dst_addr es ≡ false) × Unique es

-- Edges come in both directions, never twice, never from a device to itself, in live nodes with
-- addresses of their own.
pub record IsWellFormed (ml : BridgeList) : Type 0 where
  pub below : Below ml.fresh ml.nodes
  pub unique : Unique ml.nodes
  pub symmetric : (a b : Mac) → has_edge a b ml.nodes ≡ has_edge b a ml.nodes
  pub loopless : (a : Mac) → has_edge a a ml.nodes ≡ false

pub Below-mono : {m n : ℕ} (es : List Node) → m ≤ n → Below m es → Below n es
Below-mono [] h b = tt
Below-mono (e ∷ es) h b = (omega arith, b.1)

pub drop_edge-Below : (a b : Mac) (n : ℕ) (es : List Node) → Below n es → Below n (drop_edge a b es)
unfolding drop_edge
drop_edge-Below a b n [] h = tt
drop_edge-Below a b n (e ∷ es) h =
    ground
      (arith, drop_edge-Below a b e.addr es h.1, Below-mono {m = e.addr} {n = n} (drop_edge a b es))

pub drop_edge-Unique : (a b : Mac) (es : List Node) → Unique es → Unique (drop_edge a b es)
unfolding drop_edge
drop_edge-Unique a b [] h = tt
drop_edge-Unique a b (e ∷ es) h =
    ground (arith, drop_edge-Unique a b es h.1, has_edge-drop_edge a b e.src_addr e.dst_addr es)

-- The last edge found lies below the bound.
pub last_edge-lt :
    (a b : Mac) (n p : ℕ) (es : List Node) (d : Option ℕ)
    → Below n es
    → last_edge a b es d ≡ some p
    → (p < n) ⊎ (d ≡ some p)
unfolding last_edge
last_edge-lt a b n p [] d h e = inr e
last_edge-lt a b n p (x ∷ es) d h e =
    ground
      (arith, last_edge-lt a b x.addr p es d h.1, last_edge-lt a b x.addr p es (some x.addr) h.1)

compare_edge_self : (e : Node) → compare_edge e e.src_addr e.dst_addr ≡ true
unfolding compare_edge
compare_edge_self e = ground (arith, mac_eq_refl e.src_addr, mac_eq_refl e.dst_addr)

-- To unlink the node that the scan found is to drop its edge.
pub unlink-last_edge :
    (a b : Mac) (n p : ℕ) (es : List Node)
    → Below n es
    → Unique es
    → last_edge a b es none ≡ some p
    → unlink p es ≡ drop_edge a b es
unfolding unlink drop_edge last_edge
unlink-last_edge a b n p [] h u e = refl
unlink-last_edge a b n p (x ∷ es) h u e = ground (
  arith,
  unlink-last_edge a b x.addr p es h.1 u.1,
  last_edge-lt a b x.addr p es none h.1,
  last_edge_absent a b es (some x.addr),
  drop_edge_absent a b es,
  has_edge_same x a b es,
)

init-IsWellFormed : (start : ℕ) → IsWellFormed (record { nodes = []; fresh = start })
unfolding has_edge
init-IsWellFormed start = record {
  below = tt;
  unique = tt;
  symmetric = λ a b. refl;
  loopless = λ a. refl;
}

-- The two new edges, seen by the scan.
pub has_edge-push_edges :
    (ml : BridgeList) (l r a b : Mac)
    → has_edge a b (push_edges ml l r).nodes
      ≡ ((mac_eq r a && mac_eq l b) || ((mac_eq l a && mac_eq r b) || has_edge a b ml.nodes))
unfolding has_edge compare_edge
has_edge-push_edges ml l r a b = refl

push_edges-IsWellFormed :
    (ml : BridgeList) (l r : Mac)
    → IsWellFormed ml
    → mac_eq l r ≡ false
    → has_edge l r ml.nodes ≡ false
    → IsWellFormed (push_edges ml l r)
unfolding has_edge compare_edge
push_edges-IsWellFormed ml l r v distinct absent = record {
  below = (omega arith, (omega arith, v.below));
  unique = (ground (arith, v.symmetric l r), (absent, v.unique));
  symmetric = λ a b. ground (arith, v.symmetric a b);
  loopless = λ a. ground (arith, v.loopless a, mac_eq_iff l a, mac_eq_iff r a, mac_eq_iff l r);
}

-- NULL, or a well-formed list.
abbrev pub Valid : Option BridgeList → Type 0
Valid none = Unit {0}
Valid (some ml) = IsWellFormed ml

pub get_bridge_mac_lem :
    (ml : BridgeList) (l r : Mac)
    → get_bridge_mac (some ml) (some l) (some r)
      ≡ record { left_edge = last_edge l r ml.nodes none; right_edge = last_edge r l ml.nodes none }
unfolding get_bridge_mac
get_bridge_mac_lem ml l r = scan_edges_lem ml.nodes l r no_edges

-- The guard of add_bridge_mac: both directions are there.
pub both_edges :
    (ml : BridgeList) (l r : Mac)
    → (is_some (get_bridge_mac (some ml) (some l) (some r)).left_edge
        && is_some (get_bridge_mac (some ml) (some l) (some r)).right_edge)
      ≡ (has_edge l r ml.nodes && has_edge r l ml.nodes)
both_edges ml l r = ground (
  arith,
  get_bridge_mac_lem ml l r,
  is_some-last_edge l r ml.nodes none,
  is_some-last_edge r l ml.nodes none,
)

abbrev grown : Bool → Bool → BridgeList → Mac → Mac → Ret × Option BridgeList
grown src_ok dst_ok ml l r =
    if not src_ok
    then (Ret.failed, some ml)
    else if not dst_ok
    then (Ret.failed, some (record ml { fresh = suc ml.fresh }))
    else (Ret.positive, some (push_edges ml l r))

pub add_bridge_mac_lem :
    (src_ok dst_ok : Bool) (ml : BridgeList) (l r : Mac)
    → add_bridge_mac src_ok dst_ok (some ml) (some l) (some r) ≡ (
        if mac_eq l r
        then (Ret.failed, some ml)
        else if has_edge l r ml.nodes && has_edge r l ml.nodes
        then (Ret.zero, some ml)
        else grown src_ok dst_ok ml l r)
unfolding add_bridge_mac
add_bridge_mac_lem src_ok dst_ok ml l r = rw (both_edges ml l r)

grown-Valid :
    (src_ok dst_ok : Bool) (ml : BridgeList) (l r : Mac)
    → IsWellFormed ml
    → mac_eq l r ≡ false
    → has_edge l r ml.nodes ≡ false
    → Valid (grown src_ok dst_ok ml l r).1
grown-Valid false dst_ok ml l r v d h = v
grown-Valid true false ml l r v d h = record {
  below = Below-mono {m = ml.fresh} ml.nodes (omega arith) v.below;
  unique = v.unique;
  symmetric = v.symmetric;
  loopless = v.loopless;
}
grown-Valid true true ml l r v d h = push_edges-IsWellFormed ml l r v d h

add_edges-Valid :
    (src_ok dst_ok : Bool) (ml : BridgeList) (l r : Mac) (same present : Bool)
    → mac_eq l r ≡ same
    → has_edge l r ml.nodes ≡ present
    → IsWellFormed ml
    → Valid
        (if same
          then (Ret.failed, some ml)
          else if present && present
          then (Ret.zero, some ml)
          else grown src_ok dst_ok ml l r).1
add_edges-Valid src_ok dst_ok ml l r true present d h v = v
add_edges-Valid src_ok dst_ok ml l r false true d h v = v
add_edges-Valid src_ok dst_ok ml l r false false d h v = grown-Valid src_ok dst_ok ml l r v d h

-- add_bridge_mac keeps the list well formed, whatever it returns and whichever allocation fails.
pub add_bridge_mac-Valid :
    (src_ok dst_ok : Bool) (ml : Option BridgeList) (left right : Option Mac)
    → Valid ml
    → Valid (add_bridge_mac src_ok dst_ok ml left right).1
unfolding add_bridge_mac
add_bridge_mac-Valid src_ok dst_ok none left right v = tt
add_bridge_mac-Valid src_ok dst_ok (some ml) none right v = v
add_bridge_mac-Valid src_ok dst_ok (some ml) (some l) none v = v
add_bridge_mac-Valid src_ok dst_ok (some ml) (some l) (some r) v =
    rw (add_bridge_mac_lem src_ok dst_ok ml l r, ← v.symmetric l r)
      (add_edges-Valid src_ok dst_ok ml l r (mac_eq l r) (has_edge l r ml.nodes) refl refl v)
