-- ===== src/Supervisor/BridgeList/Remove.antt =====
-- remove_bridge_mac of src/supervisor/bridge_list.c on a well-formed list.
use edgesec.Common.{
  ℕ, if◌then◌else◌, ◌≡◌, sym, ap, inl, inr, false, ◌&&◌, ◌||◌, none, some, List, Mac, mac_eq,
  mac_eq_iff, arith, Option-cases, Bool-cases,
}
use edgesec.Supervisor.BridgeList.{Node, BridgeList, Ret, remove_bridge_mac, bridge_mac_list_free}
use edgesec.Supervisor.BridgeList.Edges.{
  has_edge, last_edge, drop_edge, has_edge-drop_edge, last_edge_absent, last_edge-drop_edge,
  drop_edge_absent, is_some-last_edge, last_edge-is_live,
}
use edgesec.Supervisor.BridgeList.Shape.{
  Below, Unique, IsWellFormed, unlink-last_edge, get_bridge_mac_lem, drop_edge-Below,
  drop_edge-Unique,
}

-- To free what the scan found for an edge is to drop that edge, with no fault.
free-last_edge :
    (a b : Mac) (n : ℕ) (es : List Node)
    → Below n es
    → Unique es
    → bridge_mac_list_free (last_edge a b es none) es ≡ some (drop_edge a b es)
unfolding bridge_mac_list_free
free-last_edge a b n es h u = elim (Option-cases (last_edge a b es none)) [
  | inl e ↦
      rw (e, bridge_mac_list_free)
        (ap some (sym (drop_edge_absent a b es (ground (arith, is_some-last_edge a b es none)))))
  | inr (p, e) ↦ ground (arith, last_edge-is_live a b es none p, unlink-last_edge a b n p es h u, e)
]

-- The list with the edges of a bridge gone.
abbrev pub cut : BridgeList → Mac → Mac → BridgeList
cut ml l r = record ml { nodes = drop_edge r l (drop_edge l r ml.nodes) }

free-right_edge :
    (ml : BridgeList) (l r : Mac)
    → IsWellFormed ml
    → bridge_mac_list_free (last_edge r l ml.nodes none) (drop_edge l r ml.nodes)
      ≡ some (cut ml l r).nodes
unfolding bridge_mac_list_free
free-right_edge ml l r v = elim (Bool-cases (mac_eq l r && mac_eq r l)) [
  | inl same ↦ ground (
    arith,
    mac_eq_iff l r,
    v.loopless l,
    last_edge_absent l l ml.nodes none,
    drop_edge_absent l l ml.nodes,
  )
  | inr other ↦ rw (← last_edge-drop_edge l r r l ml.nodes none other) (
      free-last_edge r l ml.fresh (drop_edge l r ml.nodes)
        (drop_edge-Below l r ml.fresh ml.nodes v.below) (drop_edge-Unique l r ml.nodes v.unique))
]

-- On a well-formed list remove_bridge_mac has no memory fault: it frees both nodes of the bridge,
-- each once, and nothing else, and returns 0 whether or not the bridge was there.
pub remove_bridge_mac_lem :
    (ml : BridgeList) (l r : Mac)
    → IsWellFormed ml
    → remove_bridge_mac (some ml) (some l) (some r) ≡ some (Ret.zero, some (cut ml l r))
unfolding remove_bridge_mac
remove_bridge_mac_lem ml l r v = ground (
  arith,
  get_bridge_mac_lem ml l r,
  free-last_edge l r ml.fresh ml.nodes v.below v.unique,
  free-right_edge ml l r v,
)

pub has_edge-cut :
    (ml : BridgeList) (l r a b : Mac)
    → has_edge a b (cut ml l r).nodes ≡ (
        if (mac_eq r a && mac_eq l b) || (mac_eq l a && mac_eq r b)
        then false
        else has_edge a b ml.nodes)
has_edge-cut ml l r a b = ground (
  arith,
  has_edge-drop_edge r l a b (drop_edge l r ml.nodes),
  has_edge-drop_edge l r a b ml.nodes,
)

pub cut-IsWellFormed : (ml : BridgeList) (l r : Mac) → IsWellFormed ml → IsWellFormed (cut ml l r)
cut-IsWellFormed ml l r v = record {
  below =
      drop_edge-Below r l ml.fresh (drop_edge l r ml.nodes)
        (drop_edge-Below l r ml.fresh ml.nodes v.below);
  unique = drop_edge-Unique r l (drop_edge l r ml.nodes) (drop_edge-Unique l r ml.nodes v.unique);
  symmetric =
      λ a b. ground (arith, has_edge-cut ml l r a b, has_edge-cut ml l r b a, v.symmetric a b);
  loopless = λ a. ground (arith, has_edge-cut ml l r a a, v.loopless a);
}
