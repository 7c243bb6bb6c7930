-- ===== src/Supervisor/Examples/Bridges.antt =====
-- The theorems on src/supervisor/bridge_list.c at concrete inputs.
use edgesec.Common.{◌≡◌, refl, true, false, some, List, [], Mac, mac_eq}
use edgesec.Common.{◌⊎◌}
use edgesec.Supervisor.Context.Triple.{Outcome}
use edgesec.Supervisor.Network.{add_bridge_mac_cmd, remove_bridge_cmd}
use edgesec.Supervisor.Network.Linked.{Added, AsBefore, add_bridge_mac_cmd-Added}
use edgesec.Supervisor.Network.Unlinked.{Removed, remove_bridge_cmd-Removed}
use edgesec.Supervisor.Examples.Data.{router, env, context, context-Inv}
use edgesec.Supervisor.BridgeList.{
  Ret, BridgeList, add_bridge_mac, remove_bridge_mac, check_bridge_exist, get_bridge_mac,
  scan_edges, compare_edge, get_src_mac_list,
}
use edgesec.Supervisor.BridgeList.Shape.{Valid, add_bridge_mac-Valid}
use edgesec.Supervisor.BridgeList.Remove.{cut, remove_bridge_mac_lem}
use edgesec.Supervisor.BridgeList.Graph.{
  linked, contains_mac, remove_bridge_mac-add_bridge_mac, get_src_mac_list-linked,
}
use edgesec.Supervisor.Examples.Data.{
  camera, lamp, no_bridges, no_bridges-IsWellFormed, one_bridge, one_bridge-IsWellFormed,
}

remove_bridge_mac_lem_example :
    remove_bridge_mac (some one_bridge) (some camera) (some lamp)
    ≡ some (Ret.zero, some (cut one_bridge camera lamp))
remove_bridge_mac_lem_example = remove_bridge_mac_lem one_bridge camera lamp one_bridge-IsWellFormed

remove_bridge_mac-add_bridge_mac_example :
    (ml' : BridgeList) × (add_bridge_mac true true (some no_bridges) (some camera) (some lamp)
      ≡ (Ret.positive, some ml'))
    × (remove_bridge_mac (some ml') (some camera) (some lamp)
        ≡ some (Ret.zero, some (record ml' { nodes = [] })))
unfolding check_bridge_exist get_bridge_mac scan_edges compare_edge mac_eq
remove_bridge_mac-add_bridge_mac_example =
    remove_bridge_mac-add_bridge_mac no_bridges camera lamp no_bridges-IsWellFormed refl refl

get_src_mac_list-linked_example :
    (macs : List Mac) × (get_src_mac_list (some one_bridge) camera ≡ some macs)
    × (contains_mac lamp macs ≡ linked (some one_bridge) camera lamp)
get_src_mac_list-linked_example =
    get_src_mac_list-linked one_bridge camera lamp one_bridge-IsWellFormed

add_bridge_mac-Valid_example :
    Valid (add_bridge_mac true false (some one_bridge) (some camera) (some camera)).1
add_bridge_mac-Valid_example =
    add_bridge_mac-Valid true false (some one_bridge) (some camera) (some camera)
      one_bridge-IsWellFormed

add_bridge_mac_cmd-Added_example :
    Outcome
      (λ _ d. Added one_bridge camera router d)
      (λ d. AsBefore one_bridge d ⊎ Added one_bridge camera router d)
      (add_bridge_mac_cmd env camera router context)
add_bridge_mac_cmd-Added_example =
    add_bridge_mac_cmd-Added env one_bridge camera router context context-Inv
      one_bridge-IsWellFormed refl

remove_bridge_cmd-Removed_example :
    Outcome
      (λ _ d. Removed one_bridge camera lamp d)
      (λ d. Removed one_bridge camera lamp d)
      (remove_bridge_cmd env camera lamp context)
remove_bridge_cmd-Removed_example =
    remove_bridge_cmd-Removed env one_bridge camera lamp context context-Inv one_bridge-IsWellFormed
      refl
