-- ===== src/Supervisor/MacMapper.antt =====
-- src/supervisor/mac_mapper.c: what is known of each device, by its MAC address. The uthash table
-- is a list in its iteration order, which is the order of insertion. A pointer is an `Option`.
pub mod Laws
pub mod Lookup
use edgesec.Common.{
  ℕ, suc, if◌then◌else◌, Bool, true, false, ◌&&◌, Option, none, some, List, [], ◌∷◌, ◌++◌, CString,
  str_eq, replicate, Mac, mac_eq, ℤ, Find,
}
use edgesec.Utils.Net.{Inet, validate_ipv4_string}

-- enum AP_CONNECTION_STATUS
pub data ApConnectionStatus : Type 0 where
  ap_default_status ap_connected_status ap_disconnected_status : ApConnectionStatus

-- AP_SECRET_LEN
abbrev pub ap_secret_len : ℕ
ap_secret_len = 64

-- `pass` is the whole array, of which the first `pass_len` bytes count.
pub record MacConnInfo : Type 0 where
  pub status : ApConnectionStatus
  pub vlanid : ℤ
  pub nat : Bool
  pub allow_connection : Bool
  pub pass : List ℕ
  pub pass_len : ℕ
  pub ip_addr : CString
  pub ip_sec_addr : CString
  pub ifname : CString
  pub label : CString
  pub id : CString
  pub join_timestamp : ℕ

pub record MacConn : Type 0 where
  pub mac_addr : Mac
  pub info : MacConnInfo

-- HASH_FIND
unfoldable pub hash_find : Mac → List MacConn → Option MacConnInfo
hash_find mac [] = none
hash_find mac (s ∷ hmap) = if mac_eq s.mac_addr mac then some s.info else hash_find mac hmap

-- `info_ok`: the pointer to the result is not NULL.
unfoldable pub get_mac_mapper : Option (List MacConn) → Option Mac → Bool → Find MacConnInfo
get_mac_mapper none mac info_ok = Find.bad_param
get_mac_mapper (some hmap) none info_ok = Find.bad_param
get_mac_mapper (some hmap) (some mac) false = Find.bad_param
get_mac_mapper (some hmap) (some mac) true = elim (hash_find mac hmap) [
  | none ↦ Find.missing
  | some info ↦ Find.found info
]

-- The value of the entry that is there.
unfoldable pub set_value : Mac → MacConnInfo → List MacConn → List MacConn
set_value mac info [] = []
set_value mac info (s ∷ hmap) =
    if mac_eq s.mac_addr mac
    then record { mac_addr = s.mac_addr; info = info } ∷ hmap
    else s ∷ set_value mac info hmap

-- `alloc_ok`: os_malloc succeeds, if it is called.
unfoldable pub put_mac_mapper :
    Bool → Option (List MacConn) → MacConn → Bool × Option (List MacConn)
put_mac_mapper alloc_ok none conn = (false, none)
put_mac_mapper alloc_ok (some hmap) conn = elim (hash_find conn.mac_addr hmap) [
  | none ↦ if alloc_ok then (true, some (hmap ++ conn ∷ [])) else (false, some hmap)
  | some old ↦ (true, some (set_value conn.mac_addr conn.info hmap))
]

unfoldable pub free_mac_mapper : List MacConn → List MacConn
free_mac_mapper [] = []
free_mac_mapper (s ∷ hmap) = free_mac_mapper hmap

-- The array; NULL, with 0, for an empty table. The allocation is not checked: `none` is a fault.
unfoldable pub get_mac_list : Bool → List MacConn → Option (List MacConn)
get_mac_list alloc_ok [] = some []
get_mac_list alloc_ok (s ∷ hmap) = if alloc_ok then some (s ∷ hmap) else none

unfoldable pub init_default_mac_info : ℤ → Bool → MacConnInfo
init_default_mac_info default_open_vlanid allow_all_nat = record {
  join_timestamp = 0;
  status = ApConnectionStatus.ap_default_status;
  vlanid = default_open_vlanid;
  allow_connection = true;
  nat = allow_all_nat;
  pass_len = 0;
  pass = replicate ap_secret_len 0;
  ip_addr = [];
  ip_sec_addr = [];
  ifname = [];
  label = [];
  id = [];
}

-- One test of the loop of get_ip_mapper. `none` is a fault of validate_ipv4_string.
unfoldable pub has_ip : Inet → CString → CString → Option Bool
has_ip inet ip addr = elim (validate_ipv4_string inet addr) [
  | none ↦ none
  | some valid ↦ some (valid && str_eq ip addr)
]

-- One round: what is found, by the tests of the two addresses, or else by the `rest`.
unfoldable pub pick_ip : Mac → Option Bool → Option Bool → Option (Find Mac) → Option (Find Mac)
pick_ip mac none second rest = none
pick_ip mac (some true) second rest = some (Find.found mac)
pick_ip mac (some false) none rest = none
pick_ip mac (some false) (some true) rest = some (Find.found mac)
pick_ip mac (some false) (some false) rest = rest

unfoldable pub find_ip : Inet → CString → List MacConn → Option (Find Mac)
find_ip inet ip [] = some Find.missing
find_ip inet ip (s ∷ hmap) =
    pick_ip s.mac_addr (has_ip inet ip s.info.ip_addr) (has_ip inet ip s.info.ip_sec_addr)
      (find_ip inet ip hmap)

-- `mac_ok`: the pointer to the result is not NULL.
unfoldable pub get_ip_mapper :
    Inet → Option (List MacConn) → Option CString → Bool → Option (Find Mac)
get_ip_mapper inet (some hmap) (some ip) true = find_ip inet ip hmap
get_ip_mapper inet _ _ _ = some Find.bad_param
