-- ===== src/Supervisor/BridgeList.antt =====
-- src/supervisor/bridge_list.c: the list of directed edges between the MAC addresses of two
-- devices that may talk to each other. A pointer is an `Option`, NULL being `none`; a list node
-- has an address, which the allocator never gives twice. os_zalloc may fail: its outcomes are
-- arguments.
pub mod Edges
pub mod Shape
pub mod Remove
pub mod Graph
use edgesec.Common.{
  ℕ, suc, ◌+◌, ◌==◌, if◌then◌else◌, Bool, true, false, not, ◌&&◌, Option, none, some, is_some, List,
  [], ◌∷◌, map, length, Mac, mac_eq,
}

-- The return values -1, 0 and 1 (or more).
pub data Ret : Type 0 where
  failed : Ret
  zero : Ret
  positive : Ret

abbrev pub nonneg : Ret → Bool
nonneg Ret.failed = false
nonneg Ret.zero = true
nonneg Ret.positive = true

pub record Node : Type 0 where
  pub addr : ℕ
  pub src_addr : Mac
  pub dst_addr : Mac

-- `fresh` is the next address that the allocator gives.
pub record BridgeList : Type 0 where
  pub nodes : List Node
  pub fresh : ℕ

pub record EdgeTuple : Type 0 where
  pub left_edge : Option ℕ
  pub right_edge : Option ℕ

unfoldable pub init_bridge_list : Bool → ℕ → Option BridgeList
init_bridge_list ok start = if ok then some (record { nodes = []; fresh = start }) else none

unfoldable pub compare_edge : Node → Mac → Mac → Bool
compare_edge e left right = mac_eq e.src_addr left && mac_eq e.dst_addr right

-- The loop of get_bridge_mac: it runs to the end, so the last match stays.
unfoldable pub scan_edges : List Node → Mac → Mac → EdgeTuple → EdgeTuple
scan_edges [] left right ret = ret
scan_edges (e ∷ es) left right ret = scan_edges es left right (record {
  left_edge = if compare_edge e left right then some e.addr else ret.left_edge;
  right_edge = if compare_edge e right left then some e.addr else ret.right_edge;
})

abbrev pub no_edges : EdgeTuple
no_edges = record { left_edge = none; right_edge = none }

unfoldable pub get_bridge_mac : Option BridgeList → Option Mac → Option Mac → EdgeTuple
get_bridge_mac (some ml) (some left) (some right) = scan_edges ml.nodes left right no_edges
get_bridge_mac _ _ _ = no_edges

unfoldable pub check_bridge_exist : Option BridgeList → Option Mac → Option Mac → Ret
check_bridge_exist ml left right =
    let ret = get_bridge_mac ml left right in
    if is_some ret.left_edge && is_some ret.right_edge then Ret.positive else Ret.zero

-- dl_list_add puts a node behind the head.
abbrev push_edges : BridgeList → Mac → Mac → BridgeList
push_edges ml left right = record {
  nodes =
      record { addr = suc ml.fresh; src_addr = right; dst_addr = left }
      ∷ record { addr = ml.fresh; src_addr = left; dst_addr = right }
      ∷ ml.nodes;
  fresh = suc (suc ml.fresh);
}

-- `src_ok` and `dst_ok`: the two allocations succeed. If the second fails, the first node leaks.
unfoldable pub add_bridge_mac :
    Bool → Bool → Option BridgeList → Option Mac → Option Mac → Ret × Option BridgeList
add_bridge_mac src_ok dst_ok (some ml) (some left) (some right) =
    let ret = get_bridge_mac (some ml) (some left) (some right) in
    if mac_eq left right
    then (Ret.failed, some ml)
    else if is_some ret.left_edge && is_some ret.right_edge
    then (Ret.zero, some ml)
    else if not src_ok
    then (Ret.failed, some ml)
    else if not dst_ok
    then (Ret.failed, some (record ml { fresh = suc ml.fresh }))
    else (Ret.positive, some (push_edges ml left right))
add_bridge_mac src_ok dst_ok ml _ _ = (Ret.failed, ml)

-- Is a live node at this address?
unfoldable pub is_live : ℕ → List Node → Bool
is_live p [] = false
is_live p (e ∷ es) = let rest = is_live p es in if e.addr == p then true else rest

-- dl_list_del.
unfoldable pub unlink : ℕ → List Node → List Node
unlink p [] = []
unlink p (e ∷ es) = if e.addr == p then es else e ∷ unlink p es

-- To free NULL does nothing; to free a node that is not live is a fault, `none`.
unfoldable pub bridge_mac_list_free : Option ℕ → List Node → Option (List Node)
bridge_mac_list_free none es = some es
bridge_mac_list_free (some p) es = if is_live p es then some (unlink p es) else none

-- A missing edge is only logged. `none` is a memory fault.
unfoldable pub remove_bridge_mac :
    Option BridgeList → Option Mac → Option Mac → Option (Ret × Option BridgeList)
unfolding bridge_mac_list_free
remove_bridge_mac (some ml) (some left) (some right) =
    let e = get_bridge_mac (some ml) (some left) (some right) in
    elim (bridge_mac_list_free e.left_edge ml.nodes) [
      | none ↦ none
      | some es ↦ elim (bridge_mac_list_free e.right_edge es) [
        | none ↦ none
        | some fs ↦ some (Ret.zero, some (record ml { nodes = fs }))
      ]
    ]
remove_bridge_mac ml _ _ = some (Ret.failed, ml)

unfoldable pub neighbours : Mac → List Node → List Mac
neighbours src [] = []
neighbours src (e ∷ es) =
    let rest = neighbours src es in if mac_eq src e.src_addr then e.dst_addr ∷ rest else rest

-- The array, and its length as the result; -1 (`none`) on NULL.
unfoldable pub get_src_mac_list : Option BridgeList → Mac → Option (List Mac)
unfolding neighbours
get_src_mac_list none src = none
get_src_mac_list (some ml) src = some (neighbours src ml.nodes)

unfoldable pub get_all_bridge_edges : Option BridgeList → Option (List (Mac × Mac))
get_all_bridge_edges none = none
get_all_bridge_edges (some ml) = some (map (λ e. (e.src_addr, e.dst_addr)) ml.nodes)
