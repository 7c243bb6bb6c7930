-- ===== src/Supervisor/Save.antt =====
-- What the commands share: src/supervisor/supervisor_utils.c, the NAT and bridge rules of
-- src/supervisor/network_commands.c, and src/firewall/firewall_service.c in its build with
-- iptables, where run_firewall does nothing.
pub mod Rules
pub mod Keeps
pub mod Saved
use edgesec.Common.{
  ℕ, ◌%◌, leb, if◌then◌else◌, Bool, true, false, not, ◌&&◌, Option, none, some, is_some, List, [],
  ◌∷◌, map, length, get_elem?, replicate, CString, str_eq, Mac, ℤ, minus_one, Find,
}
use edgesec.Utils.Net.{validate_ipv4_string}
use edgesec.Utils.Hash.{sdbm_hash}
use edgesec.Utils.IfaceMapper.{ConfigIfinfo, get_ifname_from_ip}
use edgesec.Supervisor.MacMapper.{
  MacConn, MacConnInfo, hash_find, get_mac_mapper, put_mac_mapper, init_default_mac_info,
  ap_secret_len,
}
use edgesec.Supervisor.MacMapper.Laws.{put_table}
use edgesec.Supervisor.Context.{
  Context, Env, Call, M, ◌>>=◌, ◌>>◌, pure, fail, crash, get, modify, unless_fail, succeeds?, call,
  must, alloc_if,
}

-- The UUID, where the device has none.
unfoldable pub fresh_id : Env → MacConn → CString → M MacConn
fresh_id env conn [] = do
  c ← get
  _ ← call env Call.uuid_generate
  pure (record conn { info = record (conn.info) { id = env.uuid c.trace } })
fresh_id env conn (x ∷ s) = pure conn

unfoldable pub with_id : Env → MacConn → M MacConn
unfolding fresh_id
with_id env conn = fresh_id env conn conn.info.id

-- put_mac_mapper on the table of the context. Only a new entry is allocated.
unfoldable pub put_conn : Env → MacConn → M (Unit {0})
put_conn env conn = do
  c ← get
  alloc_ok ← alloc_if env (not (is_some (hash_find conn.mac_addr c.mac_mapper)))
  modify (λ d. record d { mac_mapper = put_table alloc_ok c.mac_mapper conn })
  unless_fail (put_mac_mapper alloc_ok (some c.mac_mapper) conn).0

-- The entry as the database gets it, with no password.
abbrev pub without_pass : MacConn → MacConn
without_pass conn = record conn {
  info = record (conn.info) { pass_len = 0; pass = replicate ap_secret_len 0 };
}

-- save_mac_mapper, in the build with the crypto service, and save_to_crypt.
unfoldable pub save_mac_mapper : Env → MacConn → M (Unit {0})
save_mac_mapper env conn = do
  saved ← with_id env conn
  put_conn env saved
  must env (Call.put_crypt_pair saved.info.id saved.info.pass saved.info.pass_len)
  must env (Call.save_sqlite_macconn_entry (without_pass saved))

abbrev pub default_info : Context → MacConnInfo
default_info c = init_default_mac_info c.default_open_vlanid c.allow_all_nat

-- What is known of the device, or the default; -1 if get_mac_mapper fails.
unfoldable pub known_info : Mac → M MacConnInfo
known_info mac = do
  c ← get
  elim (get_mac_mapper (some c.mac_mapper) (some mac) true) [
    | Find.bad_param ↦ fail
    | Find.missing ↦ pure (default_info c)
    | Find.found info ↦ pure info
  ]

-- The same where the result of get_mac_mapper is not looked at.
unfoldable pub info_or_default : Mac → M MacConnInfo
info_or_default mac = do
  c ← get
  elim (get_mac_mapper (some c.mac_mapper) (some mac) true) [
    | Find.found info ↦ pure info
    | _ ↦ pure (default_info c)
  ]

-- The interface of an address, from the configuration; -1 if there is none.
unfoldable pub ifname_of : Env → CString → M CString
ifname_of env ip = do
  c ← get
  elim (get_ifname_from_ip env.inet c.config_ifinfo_array (some ip)) [
    | none ↦ fail
    | some ifname ↦ pure ifname
  ]

unfoldable pub fw_add_nat : Env → CString → M (Unit {0})
fw_add_nat env ip = do ifname ← ifname_of env ip; must env (Call.iptables_add_nat ip ifname)

unfoldable pub fw_remove_nat : Env → CString → M (Unit {0})
fw_remove_nat env ip = do ifname ← ifname_of env ip; must env (Call.iptables_delete_nat ip ifname)

unfoldable pub fw_add_bridge : Env → CString → CString → M (Unit {0})
fw_add_bridge env left right = do
  ifname_left ← ifname_of env left
  ifname_right ← ifname_of env right
  must env (Call.iptables_add_bridge left ifname_left right ifname_right)

unfoldable pub fw_remove_bridge : Env → CString → CString → M (Unit {0})
fw_remove_bridge env left right = do
  ifname_left ← ifname_of env left
  ifname_right ← ifname_of env right
  must env (Call.iptables_delete_bridge left ifname_left right ifname_right)

-- validate_ipv4_string, which may write out of bounds.
unfoldable pub is_ipv4 : Env → CString → M Bool
is_ipv4 env ip = elim (validate_ipv4_string env.inet ip) [ none ↦ crash | some valid ↦ pure valid ]

unfoldable pub add_nat_ip : Env → CString → M (Unit {0})
add_nat_ip env ip = do valid ← is_ipv4 env ip; if valid then fw_add_nat env ip else pure tt

unfoldable pub remove_nat_ip : Env → CString → M (Unit {0})
remove_nat_ip env ip = do valid ← is_ipv4 env ip; if valid then fw_remove_nat env ip else pure tt

-- The second address is looked at only if the first is valid.
unfoldable pub are_ipv4 : Env → CString → CString → M Bool
are_ipv4 env left right = do
  valid ← is_ipv4 env left
  if valid then is_ipv4 env right else pure false

unfoldable pub add_bridge_ip : Env → CString → CString → M (Unit {0})
add_bridge_ip env left right = do
  valid ← are_ipv4 env left right
  if valid then fw_add_bridge env left right else pure tt

unfoldable pub delete_bridge_ip : Env → CString → CString → M (Unit {0})
delete_bridge_ip env left right = do
  valid ← are_ipv4 env left right
  if valid then fw_remove_bridge env left right else pure tt
