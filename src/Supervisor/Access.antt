-- ===== src/Supervisor/Access.antt =====
-- src/supervisor/supervisor.c: whether a device that asks for the network gets in, and with which
-- password and VLAN; and allocate_vlan of src/supervisor/supervisor_utils.c.
pub mod Denied
pub mod Keeps
pub mod NoTicket
pub mod Ticket
use edgesec.Common.{
  ℕ, ◌+◌, ◌%◌, ◌==◌, leb, ltb, if◌then◌else◌, Bool, true, false, not, ◌&&◌, ◌||◌, Option, none,
  some, List, [], ◌∷◌, map, length, get_elem?, memcpy, CString, Mac, ℤ, minus_one, Find,
}
use edgesec.Utils.Hash.{sdbm_hash}
use edgesec.Utils.IfaceMapper.{ConfigIfinfo, VlanConn, get_vlan_mapper, put_vlan_mapper}
use edgesec.Utils.IfaceMapper.Laws.{vlan_table}
use edgesec.Supervisor.MacMapper.{
  MacConn, MacConnInfo, ApConnectionStatus, ap_secret_len, get_mac_mapper, init_default_mac_info,
}
use edgesec.Supervisor.Context.{
  Context, Env, Call, M, AuthTicket, TicketPtr, ◌>>=◌, ◌>>◌, pure, fail, crash, get, modify,
  unless_fail, succeeds?, call, must, alloc_if,
}
use edgesec.Supervisor.Save.{save_mac_mapper}
use edgesec.Supervisor.Network.{free_ticket}

-- enum VLAN_ALLOCATION_TYPE
pub data VlanAllocationType : Type 0 where
  vlan_allocate_random vlan_allocate_hash : VlanAllocationType

abbrev pub mac_bytes : Mac → List ℕ
mac_bytes m = m.b0 ∷ m.b1 ∷ m.b2 ∷ m.b3 ∷ m.b4 ∷ m.b5 ∷ []

-- A read of the array; out of its bounds it is a fault.
unfoldable pub read_vlan : List ConfigIfinfo → ℕ → M ℤ
read_vlan ps i = elim (get_elem? ps i) [ none ↦ crash | some p ↦ pure p.vlanid ]

-- os_get_random_int_range(0, up)
unfoldable pub os_get_random_int_range : ℕ → ℕ → ℕ
os_get_random_int_range r up = r % (up + 1)

unfoldable pub pick_vlan : Env → Option Mac → VlanAllocationType → List ConfigIfinfo → M ℤ
pick_vlan env mac VlanAllocationType.vlan_allocate_random ps = do
  c ← get
  _ ← call env Call.rand
  read_vlan ps (os_get_random_int_range (env.rand c.trace) (length ps))
pick_vlan env none VlanAllocationType.vlan_allocate_hash ps = crash
pick_vlan env (some mac) VlanAllocationType.vlan_allocate_hash ps =
    read_vlan ps (sdbm_hash (mac_bytes mac) % length ps)

unfoldable pub allocate_from : Env → Option Mac → VlanAllocationType → ℤ → List ConfigIfinfo → M ℤ
allocate_from env mac type default ps = if leb (length ps) 1 then pure default else do
  alloc_ok ← call env Call.os_malloc
  if alloc_ok then pick_vlan env mac type ps else pure minus_one

-- The result is a VLAN, or -1. The array of the configuration must be there.
unfoldable pub allocate_vlan : Env → Option Mac → VlanAllocationType → M ℤ
allocate_vlan env mac type = do
  c ← get
  elim c.config_ifinfo_array [
    | none ↦ crash
    | some ps ↦ allocate_from env mac type c.default_open_vlanid ps
  ]

-- os_memcpy of a password into `pass`, an array of AP_SECRET_LEN bytes, which a longer one runs over.
unfoldable pub copy_pass : ℕ → List ℕ → MacConnInfo → M MacConnInfo
copy_pass pass_len pass info =
    if ltb ap_secret_len pass_len
    then crash
    else pure (record info { pass_len = pass_len; pass = memcpy info.pass pass pass_len })

unfoldable pub configure_mac_info :
    MacConnInfo → Bool → ℤ → ℕ → List ℕ → Option CString → M MacConnInfo
unfolding copy_pass
configure_mac_info info allow vlanid pass_len pass none =
    copy_pass pass_len pass (record info { allow_connection = allow; vlanid = vlanid })
configure_mac_info info allow vlanid pass_len pass (some label) =
    copy_pass pass_len pass
      (record info { allow_connection = allow; vlanid = vlanid; label = label })

unfoldable pub start_analyser : Env → VlanConn → M (Unit {0})
start_analyser env vlan = do
  must env (Call.run_capture_thread vlan.ifname)
  c ← get
  modify (λ d. record d {
    vlan_mapper = vlan_table true c.vlan_mapper (record vlan { capture_pid = env.pid c.trace });
  })
  unless_fail
      (put_vlan_mapper true (some c.vlan_mapper)
        (some (record vlan { capture_pid = env.pid c.trace }))).0

unfoldable pub schedule_analyser : Env → ℤ → M (Unit {0})
schedule_analyser env vlanid = do
  c ← get
  elim (get_vlan_mapper (some c.vlan_mapper) vlanid) [
    | Find.found vlan ↦ if vlan.capture_pid == 0 then start_analyser env vlan else pure tt
    | _ ↦ fail
  ]

-- Does the capture run, where it is wanted?
unfoldable pub capture_ok : Env → ℤ → M Bool
capture_ok env vlanid = do
  c ← get
  if c.exec_capture then succeeds? (schedule_analyser env vlanid) else pure true

-- 0 or -1, and the information with the time that is written into it on the way.
unfoldable pub save_device_vlan : Env → Mac → MacConnInfo → M (Bool × MacConnInfo)
save_device_vlan env mac info = do
  captured ← capture_ok env info.vlanid
  if not captured then pure (false, info) else do
    c ← get
    time_ok ← call env Call.os_get_timestamp
    if not time_ok then pure (false, record info { join_timestamp = 0 }) else do
      let stamped = record info { join_timestamp = env.timestamp c.trace }
      saved ← succeeds? (save_mac_mapper env (record { mac_addr = mac; info = stamped }))
      pure (saved, stamped)

abbrev pub rejected : MacConnInfo → MacConnInfo
rejected info = record info { vlanid = minus_one }

-- The answer: rejected, if the device could not be saved.
unfoldable pub save_and_answer : Env → Mac → MacConnInfo → M MacConnInfo
save_and_answer env mac info = do
  r ← save_device_vlan env mac info
  pure (if r.0 then r.1 else rejected r.1)

abbrev pub is_missing : Find MacConnInfo → Bool
is_missing Find.missing = true
is_missing _ = false

abbrev pub is_found : Find MacConnInfo → Bool
is_found (Find.found info) = true
is_found _ = false

abbrev pub is_bad : Find MacConnInfo → Bool
is_bad Find.bad_param = true
is_bad _ = false

-- What get_mac_mapper leaves in `info`.
abbrev pub info_after : MacConnInfo → Find MacConnInfo → MacConnInfo
info_after base (Find.found info) = info
info_after base _ = base

-- The password of the configuration.
unfoldable pub with_wpa : Context → MacConnInfo → M MacConnInfo
unfolding copy_pass
with_wpa c info = copy_pass c.wpa_passphrase_len c.wpa_passphrase info

-- What the ticket gives a device; it is good for one.
unfoldable pub from_ticket : AuthTicket → MacConnInfo → M MacConnInfo
unfolding copy_pass
from_ticket t info =
    copy_pass t.passphrase_len t.passphrase
      (record info { vlanid = t.vlanid; label = t.device_label })

-- A device that is not assigned: by the ticket, or else to the default VLAN.
unfoldable pub assign_device : Env → Mac → ℤ → Context → MacConnInfo → TicketPtr → M MacConnInfo
assign_device env mac alloc_vlanid c info TicketPtr.null = do
  filled ← with_wpa c (record info { vlanid = alloc_vlanid })
  save_and_answer env mac filled
assign_device env mac alloc_vlanid c info (TicketPtr.live t) = do
  filled ← from_ticket t info
  free_ticket
  save_and_answer env mac filled
assign_device env mac alloc_vlanid c info TicketPtr.dangling = crash

-- The information of a device that may come while all may.
unfoldable pub open_info : ℤ → Context → Find MacConnInfo → MacConnInfo → M MacConnInfo
unfolding configure_mac_info with_wpa
open_info alloc_vlanid c find_mac info =
    if is_missing find_mac
    then configure_mac_info info true alloc_vlanid c.wpa_passphrase_len c.wpa_passphrase none
    else if is_found find_mac && (info.pass_len == 0)
    then with_wpa c info
    else pure info

-- The cases of get_mac_conn_cmd, `found` being what get_mac_mapper gives.
unfoldable pub admit : Env → Mac → ℤ → Context → Find MacConnInfo → MacConnInfo → M MacConnInfo
admit env mac alloc_vlanid c find_mac info =
    if c.allow_all_connections
      && (is_missing find_mac || (is_found find_mac && info.allow_connection))
    then (do filled ← open_info alloc_vlanid c find_mac info; save_and_answer env mac filled)
    else if not c.allow_all_connections
        && (is_found find_mac && (info.allow_connection && not (info.pass_len == 0)))
    then save_and_answer env mac info
    else if not c.allow_all_connections && is_bad find_mac
    then pure (rejected info)
    else if not c.allow_all_connections
        && (is_missing find_mac
            || (is_found find_mac && (info.allow_connection && (info.pass_len == 0))))
    then assign_device env mac alloc_vlanid c (record info { allow_connection = true }) c.ticket
    else pure (rejected info)

unfoldable pub default_vlanid : Env → Option Mac → M ℤ
default_vlanid env mac = do
  c ← get
  if c.allocate_vlans
      then allocate_vlan env mac VlanAllocationType.vlan_allocate_hash
      else pure c.default_open_vlanid

unfoldable pub get_mac_conn_cmd : Env → Option Mac → M MacConnInfo
get_mac_conn_cmd env mac = do
  alloc_vlanid ← default_vlanid env mac
  c ← get
  let base = init_default_mac_info alloc_vlanid c.allow_all_nat
  elim mac [
    | none ↦ pure (rejected base)
    | some m ↦
        let find_mac = get_mac_mapper (some c.mac_mapper) (some m) true in
        admit env m alloc_vlanid c find_mac (info_after base find_mac)
  ]
