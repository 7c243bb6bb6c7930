-- ===== src/Utils/IfaceMapper/Laws.antt =====
-- The tables of src/utils/iface_mapper.c as finite maps.
use edgesec.Common.{
  if◌then◌else◌, ◌≡◌, refl, Bool, true, ◌&&◌, none, some, is_some, List, [], ◌∷◌, ◌++◌, ℤ, int_eq,
  int_eq_iff, Find, arith,
}
use edgesec.Utils.IfaceMapper.{VlanConn, find_vlan, get_vlan_mapper, set_vlan, put_vlan_mapper}

set_vlan_lem :
    (conn : VlanConn) (v : ℤ) (hmap : List VlanConn)
    → is_some (find_vlan conn.vlanid hmap) ≡ true
    → find_vlan v (set_vlan conn hmap)
      ≡ (if int_eq conn.vlanid v then some conn else find_vlan v hmap)
unfolding find_vlan set_vlan
set_vlan_lem conn v [] h = cc
set_vlan_lem conn v (s ∷ hmap) h = ground (
  arith,
  set_vlan_lem conn v hmap,
  int_eq_iff s.vlanid conn.vlanid,
  int_eq_iff conn.vlanid v,
  int_eq_iff s.vlanid v,
)

find_vlan-append :
    (conn : VlanConn) (v : ℤ) (hmap : List VlanConn)
    → find_vlan conn.vlanid hmap ≡ none
    → find_vlan v (hmap ++ conn ∷ [])
      ≡ (if int_eq conn.vlanid v then some conn else find_vlan v hmap)
unfolding find_vlan
find_vlan-append conn v [] h = refl
find_vlan-append conn v (s ∷ hmap) h = ground (
  arith,
  find_vlan-append conn v hmap,
  int_eq_iff s.vlanid conn.vlanid,
  int_eq_iff conn.vlanid v,
  int_eq_iff s.vlanid v,
)

abbrev pub vlan_table : Bool → List VlanConn → VlanConn → List VlanConn
vlan_table ok hmap conn = elim (put_vlan_mapper ok (some hmap) (some conn)).1 [
  | none ↦ hmap
  | some table ↦ table
]

-- put_vlan_mapper binds the VLAN to the new value if it returns true, and changes nothing else.
pub find_vlan-put_vlan_mapper :
    (ok : Bool) (hmap : List VlanConn) (conn : VlanConn) (v : ℤ)
    → find_vlan v (vlan_table ok hmap conn) ≡ (
        if (put_vlan_mapper ok (some hmap) (some conn)).0 && int_eq conn.vlanid v
        then some conn
        else find_vlan v hmap)
unfolding put_vlan_mapper
find_vlan-put_vlan_mapper ok hmap conn v =
    ground (arith, find_vlan-append conn v hmap, set_vlan_lem conn v hmap)

pub get_vlan_mapper-found :
    (v : ℤ) (hmap : List VlanConn) (conn : VlanConn)
    → find_vlan v hmap ≡ some conn
    → get_vlan_mapper (some hmap) v ≡ Find.found conn
unfolding get_vlan_mapper
get_vlan_mapper-found v hmap conn h = ground arith

pub get_vlan_mapper-missing :
    (v : ℤ) (hmap : List VlanConn)
    → find_vlan v hmap ≡ none
    → get_vlan_mapper (some hmap) v ≡ Find.missing
unfolding get_vlan_mapper
get_vlan_mapper-missing v hmap h = ground arith
