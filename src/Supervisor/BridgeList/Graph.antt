-- ===== src/Supervisor/BridgeList/Graph.antt =====
-- The list of src/supervisor/bridge_list.c as an undirected graph of devices.
use edgesec.Common.{
  ◌≡◌, refl, subst, ◌∙◌, ap, Bool, true, false, not, ◌&&◌, ◌||◌, Option, some, List, [], ◌∷◌, Mac,
  mac_eq, mac_eq_iff, mac_eq_refl, arith,
}
use edgesec.Supervisor.BridgeList.{
  Node, BridgeList, Ret, push_edges, add_bridge_mac, remove_bridge_mac, check_bridge_exist,
  neighbours, nonneg, compare_edge, get_src_mac_list,
}
use edgesec.Supervisor.BridgeList.Edges.{has_edge, drop_edge, drop_edge_absent}
use edgesec.Supervisor.BridgeList.Shape.{
  IsWellFormed, Valid, add_bridge_mac-Valid, has_edge-push_edges, add_bridge_mac_lem, both_edges,
}
use edgesec.Supervisor.BridgeList.Remove.{cut, has_edge-cut, remove_bridge_mac_lem}

-- check_bridge_exist on live pointers, as a truth value.
abbrev pub linked : Option BridgeList → Mac → Mac → Bool
linked ml a b = elim (check_bridge_exist ml (some a) (some b)) [ Ret.positive ↦ true | _ ↦ false ]

-- The unordered pair {l, r} is {a, b}.
abbrev pub same_bridge : Mac → Mac → Mac → Mac → Bool
same_bridge l r a b = (mac_eq l a && mac_eq r b) || (mac_eq r a && mac_eq l b)

linked_lem :
    (ml : BridgeList) (a b : Mac)
    → linked (some ml) a b ≡ (has_edge a b ml.nodes && has_edge b a ml.nodes)
unfolding check_bridge_exist
linked_lem ml a b = ground (arith, both_edges ml a b)

-- After add_bridge_mac has returned 0 or 1 on a well-formed list, exactly the bridges from before
-- and the one between the two devices exist.
pub linked-add_bridge_mac :
    (src_ok dst_ok : Bool) (ml : BridgeList) (l r a b : Mac)
    → IsWellFormed ml
    → nonneg (add_bridge_mac src_ok dst_ok (some ml) (some l) (some r)).0 ≡ true
    → linked (add_bridge_mac src_ok dst_ok (some ml) (some l) (some r)).1 a b
      ≡ (same_bridge l r a b || linked (some ml) a b)
linked-add_bridge_mac src_ok dst_ok ml l r a b v done = ground (
  arith,
  add_bridge_mac_lem src_ok dst_ok ml l r,
  linked_lem ml a b,
  linked_lem (push_edges ml l r) a b,
  has_edge-push_edges ml l r a b,
  has_edge-push_edges ml l r b a,
  mac_eq_iff l a,
  mac_eq_iff r b,
  mac_eq_iff r a,
  mac_eq_iff l b,
)

-- After remove_bridge_mac on a well-formed list, exactly the bridges from before but the one
-- between the two devices exist.
pub linked-remove_bridge_mac :
    (ml : BridgeList) (l r a b : Mac)
    → IsWellFormed ml
    → (ml' : Option BridgeList) × (remove_bridge_mac (some ml) (some l) (some r)
        ≡ some (Ret.zero, ml'))
      × (linked ml' a b ≡ (not (same_bridge l r a b) && linked (some ml) a b))
linked-remove_bridge_mac ml l r a b v = (
  some (cut ml l r),
  remove_bridge_mac_lem ml l r v,
  ground (
    arith,
    linked_lem (cut ml l r) a b,
    linked_lem ml a b,
    has_edge-cut ml l r a b,
    has_edge-cut ml l r b a,
  ),
)

cut-push_edges :
    (ml : BridgeList) (l r : Mac)
    → mac_eq l r ≡ false
    → has_edge l r ml.nodes ≡ false
    → has_edge r l ml.nodes ≡ false
    → (cut (push_edges ml l r) l r).nodes ≡ ml.nodes
unfolding drop_edge compare_edge
cut-push_edges ml l r distinct left right = ground (
  arith,
  mac_eq_refl l,
  mac_eq_refl r,
  mac_eq_iff l r,
  mac_eq_iff r l,
  drop_edge_absent l r ml.nodes left,
  drop_edge_absent r l ml.nodes right,
)

-- To add a bridge that is not there, and to remove it again, gives back the very same nodes in the same order.
pub remove_bridge_mac-add_bridge_mac :
    (ml : BridgeList) (l r : Mac)
    → IsWellFormed ml
    → mac_eq l r ≡ false
    → linked (some ml) l r ≡ false
    → (ml' : BridgeList) × (add_bridge_mac true true (some ml) (some l) (some r)
        ≡ (Ret.positive, some ml'))
      × (remove_bridge_mac (some ml') (some l) (some r)
          ≡ some (Ret.zero, some (record ml' { nodes = ml.nodes })))
remove_bridge_mac-add_bridge_mac ml l r v distinct absent = (
  push_edges ml l r,
  added,
  rw
      (remove_bridge_mac_lem (push_edges ml l r) l r (
        subst Valid (ap (λ p. p.1) added)
          (add_bridge_mac-Valid true true (some ml) (some l) (some r) v)))
      (ap (λ es. some (Ret.zero, some (record (push_edges ml l r) { nodes = es })))
        (cut-push_edges ml l r distinct not_left (v.symmetric r l ∙ not_left))),
)
  where
    not_left : has_edge l r ml.nodes ≡ false
    not_left = ground (arith, linked_lem ml l r, v.symmetric l r)

    added :
        add_bridge_mac true true (some ml) (some l) (some r)
        ≡ (Ret.positive, some (push_edges ml l r))
    added = ground (arith, add_bridge_mac_lem true true ml l r, not_left)

-- Is the device in the array?
unfoldable pub contains_mac : Mac → List Mac → Bool
contains_mac a [] = false
contains_mac a (x ∷ xs) = mac_eq x a || contains_mac a xs

neighbours_lem : (a b : Mac) (es : List Node) → contains_mac b (neighbours a es) ≡ has_edge a b es
unfolding neighbours contains_mac has_edge compare_edge
neighbours_lem a b [] = refl
neighbours_lem a b (e ∷ es) =
    ground (arith, neighbours_lem a b es, mac_eq_iff a e.src_addr, mac_eq_iff e.src_addr a)

-- On a well-formed list get_src_mac_list gives the devices that are linked to the source, and
-- no other.
pub get_src_mac_list-linked :
    (ml : BridgeList) (a b : Mac)
    → IsWellFormed ml
    → (macs : List Mac) × (get_src_mac_list (some ml) a ≡ some macs)
      × (contains_mac b macs ≡ linked (some ml) a b)
unfolding get_src_mac_list
get_src_mac_list-linked ml a b v = (
  neighbours a ml.nodes,
  refl,
  ground (arith, neighbours_lem a b ml.nodes, linked_lem ml a b, v.symmetric a b),
)
