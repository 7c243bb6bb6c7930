-- ===== src/Utils/IfaceMapper.antt =====
-- src/utils/iface_mapper.c: the interfaces by subnet and by VLAN. The uthash tables are lists in
-- their order of insertion; the configured interfaces are the list of the utarray.
pub mod Laws
use edgesec.Common.{
  ℕ, ◌==◌, if◌then◌else◌, Bool, true, false, Option, none, some, is_some, List, [], ◌∷◌, ◌++◌,
  CString, os_strlcpy, ℤ, int_eq, Find,
}
use edgesec.Utils.Net.{Inet, ip_2_nbo}

-- IF_NAMESIZE
abbrev pub if_namesize : ℕ
if_namesize = 16

-- struct config_ifinfo_t
pub record ConfigIfinfo : Type 0 where
  pub vlanid : ℤ
  pub ifname : CString
  pub brname : CString
  pub ip_addr : CString
  pub brd_addr : CString
  pub subnet_mask : CString

pub record VlanConn : Type 0 where
  pub vlanid : ℤ
  pub ifname : CString
  pub capture_pid : ℕ

pub record IfConn : Type 0 where
  pub key : ℕ
  pub value : CString

-- HASH_FIND in the table of subnets.
unfoldable pub find_if : ℕ → List IfConn → Option CString
find_if subnet [] = none
find_if subnet (s ∷ hmap) = if s.key == subnet then some s.value else find_if subnet hmap

unfoldable pub get_if_mapper : Option (List IfConn) → ℕ → Bool → Find CString
get_if_mapper none subnet ifname_ok = Find.bad_param
get_if_mapper (some hmap) subnet false = Find.bad_param
get_if_mapper (some hmap) subnet true = elim (find_if subnet hmap) [
  | none ↦ Find.missing
  | some ifname ↦ Find.found (os_strlcpy ifname if_namesize)
]

unfoldable pub set_if : ℕ → CString → List IfConn → List IfConn
set_if subnet ifname [] = []
set_if subnet ifname (s ∷ hmap) =
    if s.key == subnet
    then record { key = s.key; value = os_strlcpy ifname if_namesize } ∷ hmap
    else s ∷ set_if subnet ifname hmap

unfoldable pub put_if_mapper :
    Bool → Option (List IfConn) → ℕ → Option CString → Bool × Option (List IfConn)
put_if_mapper alloc_ok none subnet ifname = (false, none)
put_if_mapper alloc_ok (some hmap) subnet none = (false, some hmap)
put_if_mapper alloc_ok (some hmap) subnet (some ifname) = elim (find_if subnet hmap) [
  | none ↦
      if alloc_ok
      then (
        true,
        some (hmap ++ record { key = subnet; value = os_strlcpy ifname if_namesize } ∷ []),
      )
      else (false, some hmap)
  | some old ↦ (true, some (set_if subnet ifname hmap))
]

-- HASH_FIND in the table of VLANs.
unfoldable pub find_vlan : ℤ → List VlanConn → Option VlanConn
find_vlan vlanid [] = none
find_vlan vlanid (s ∷ hmap) = if int_eq s.vlanid vlanid then some s else find_vlan vlanid hmap

unfoldable pub get_vlan_mapper : Option (List VlanConn) → ℤ → Find VlanConn
get_vlan_mapper none vlanid = Find.bad_param
get_vlan_mapper (some hmap) vlanid = elim (find_vlan vlanid hmap) [
  | none ↦ Find.missing
  | some conn ↦ Find.found conn
]

unfoldable pub set_vlan : VlanConn → List VlanConn → List VlanConn
set_vlan conn [] = []
set_vlan conn (s ∷ hmap) =
    if int_eq s.vlanid conn.vlanid then conn ∷ hmap else s ∷ set_vlan conn hmap

unfoldable pub put_vlan_mapper :
    Bool → Option (List VlanConn) → Option VlanConn → Bool × Option (List VlanConn)
put_vlan_mapper alloc_ok none conn = (false, none)
put_vlan_mapper alloc_ok (some hmap) none = (false, some hmap)
put_vlan_mapper alloc_ok (some hmap) (some conn) = elim (find_vlan conn.vlanid hmap) [
  | none ↦ if alloc_ok then (true, some (hmap ++ conn ∷ [])) else (false, some hmap)
  | some old ↦ (true, some (set_vlan conn hmap))
]

-- The first interface whose subnet the address is in; -1 is `bad_param`, 1 is `missing`. A mask or
-- an address that inet_network refuses ends the search.
unfoldable pub find_ifinfo : Inet → List ConfigIfinfo → CString → Find ConfigIfinfo
find_ifinfo inet [] ip = Find.missing
find_ifinfo inet (p ∷ ps) ip =
    let rest = find_ifinfo inet ps ip in
    elim (ip_2_nbo inet p.ip_addr p.subnet_mask) [
      | none ↦ Find.bad_param
      | some addr_subnet ↦ elim (ip_2_nbo inet ip p.subnet_mask) [
        | none ↦ Find.bad_param
        | some addr_ip ↦ if addr_ip == addr_subnet then Find.found p else rest
      ]
    ]

-- 0 with the name, or -1.
unfoldable pub get_brname_from_ip :
    Inet → Option (List ConfigIfinfo) → Option CString → Option CString
get_brname_from_ip inet none ip = none
get_brname_from_ip inet (some ps) none = none
get_brname_from_ip inet (some ps) (some ip) = elim (find_ifinfo inet ps ip) [
  | Find.found p ↦ some p.brname
  | _ ↦ none
]

unfoldable pub get_ifname_from_ip :
    Inet → Option (List ConfigIfinfo) → Option CString → Option CString
get_ifname_from_ip inet none ip = none
get_ifname_from_ip inet (some ps) none = none
get_ifname_from_ip inet (some ps) (some ip) = elim (find_ifinfo inet ps ip) [
  | Find.found p ↦ some p.ifname
  | _ ↦ none
]

abbrev table_or : Option (List VlanConn) → List VlanConn
table_or none = []
table_or (some hmap) = hmap

vlan_of : ConfigIfinfo → VlanConn
vlan_of p = record { vlanid = p.vlanid; ifname = p.ifname; capture_pid = 0 }

-- 0, or -1 with the table emptied. `allocs`: does the allocation for each interface succeed?
unfoldable pub create_vlan_mapper :
    List Bool → List ConfigIfinfo → List VlanConn → Bool × List VlanConn
unfolding vlan_of
create_vlan_mapper allocs [] hmap = (true, hmap)
create_vlan_mapper [] (p ∷ ps) hmap = (false, [])
create_vlan_mapper (ok ∷ allocs) (p ∷ ps) hmap =
    let next = put_vlan_mapper ok (some hmap) (some (vlan_of p)) in
    let rest = create_vlan_mapper allocs ps (table_or next.1) in
    if next.0 then rest else (false, [])
