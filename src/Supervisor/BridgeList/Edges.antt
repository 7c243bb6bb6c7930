-- ===== src/Supervisor/BridgeList/Edges.antt =====
-- What a scan of src/supervisor/bridge_list.c finds, edge by edge.
use edgesec.Common.{
  ℕ, if◌then◌else◌, ◌≡◌, refl, ◌⊎◌, inr, Bool, true, false, ◌&&◌, ◌||◌, Option, some, is_some, List,
  [], ◌∷◌, Mac, mac_eq, mac_eq_iff, arith,
}
use edgesec.Supervisor.BridgeList.{Node, EdgeTuple, compare_edge, scan_edges, is_live}

-- Is there an edge from a to b?
unfoldable pub has_edge : Mac → Mac → List Node → Bool
has_edge a b [] = false
has_edge a b (e ∷ es) = compare_edge e a b || has_edge a b es

-- The last node with the edge from a to b.
unfoldable pub last_edge : Mac → Mac → List Node → Option ℕ → Option ℕ
last_edge a b [] d = d
last_edge a b (e ∷ es) d = last_edge a b es (if compare_edge e a b then some e.addr else d)

-- The nodes without the edges from a to b.
unfoldable pub drop_edge : Mac → Mac → List Node → List Node
drop_edge a b [] = []
drop_edge a b (e ∷ es) =
    let rest = drop_edge a b es in if compare_edge e a b then rest else e ∷ rest

pub scan_edges_lem :
    (es : List Node) (l r : Mac) (ret : EdgeTuple)
    → scan_edges es l r ret ≡ record {
      left_edge = last_edge l r es ret.left_edge;
      right_edge = last_edge r l es ret.right_edge;
    }
unfolding scan_edges last_edge
scan_edges_lem [] l r ret = refl
scan_edges_lem (e ∷ es) l r ret = scan_edges_lem es l r _

pub is_some-last_edge :
    (a b : Mac) (es : List Node) (d : Option ℕ)
    → is_some (last_edge a b es d) ≡ (has_edge a b es || is_some d)
unfolding last_edge has_edge
is_some-last_edge a b [] d = refl
is_some-last_edge a b (e ∷ es) d =
    ground (arith, is_some-last_edge a b es d, is_some-last_edge a b es (some e.addr))

pub last_edge_absent :
    (a b : Mac) (es : List Node) (d : Option ℕ) → has_edge a b es ≡ false → last_edge a b es d ≡ d
unfolding last_edge has_edge
last_edge_absent a b [] d h = refl
last_edge_absent a b (e ∷ es) d h = ground (arith, last_edge_absent a b es d)

pub drop_edge_absent :
    (a b : Mac) (es : List Node) → has_edge a b es ≡ false → drop_edge a b es ≡ es
unfolding drop_edge has_edge
drop_edge_absent a b [] h = refl
drop_edge_absent a b (e ∷ es) h = ground (arith, drop_edge_absent a b es)

-- A node carries one edge.
pub compare_edge_unique :
    (e : Node) (a b c d : Mac)
    → compare_edge e a b ≡ true
    → compare_edge e c d ≡ (mac_eq a c && mac_eq b d)
unfolding compare_edge
compare_edge_unique e a b c d h = ground (arith, mac_eq_iff e.src_addr a, mac_eq_iff e.dst_addr b)

pub has_edge_same :
    (e : Node) (a b : Mac) (es : List Node)
    → compare_edge e a b ≡ true
    → has_edge e.src_addr e.dst_addr es ≡ has_edge a b es
unfolding compare_edge
has_edge_same e a b es h = ground (arith, mac_eq_iff e.src_addr a, mac_eq_iff e.dst_addr b)

pub has_edge-drop_edge :
    (a b c d : Mac) (es : List Node)
    → has_edge c d (drop_edge a b es)
      ≡ (if mac_eq a c && mac_eq b d then false else has_edge c d es)
unfolding has_edge drop_edge
has_edge-drop_edge a b c d [] = ground arith
has_edge-drop_edge a b c d (e ∷ es) = ground (
  arith,
  has_edge-drop_edge a b c d es,
  compare_edge_unique e a b c d,
  compare_edge_unique e c d a b,
  mac_eq_iff a c,
  mac_eq_iff c a,
  mac_eq_iff b d,
  mac_eq_iff d b,
)

pub last_edge-drop_edge :
    (a b c d : Mac) (es : List Node) (o : Option ℕ)
    → (mac_eq a c && mac_eq b d) ≡ false
    → last_edge c d (drop_edge a b es) o ≡ last_edge c d es o
unfolding last_edge drop_edge
last_edge-drop_edge a b c d [] o h = refl
last_edge-drop_edge a b c d (e ∷ es) o h = ground (
  arith,
  last_edge-drop_edge a b c d es o,
  last_edge-drop_edge a b c d es (some e.addr),
  compare_edge_unique e a b c d,
)

pub last_edge-is_live :
    (a b : Mac) (es : List Node) (d : Option ℕ) (p : ℕ)
    → last_edge a b es d ≡ some p
    → (is_live p es ≡ true) ⊎ (d ≡ some p)
unfolding last_edge is_live
last_edge-is_live a b [] d p h = inr h
last_edge-is_live a b (e ∷ es) d p h =
    ground (arith, last_edge-is_live a b es d p, last_edge-is_live a b es (some e.addr) p)
