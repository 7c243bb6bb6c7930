-- ===== src/Supervisor/Examples/Devices.antt =====
-- The theorems on src/supervisor/mac_mapper.c and supervisor_utils.c at concrete inputs.
use edgesec.Common.{
  [], ◌&&◌, if◌then◌else◌, mac_eq, false, ◌≡◌, refl, ◌⊎◌, true, some, codes, arith,
}
use edgesec.Common.{str_eq}
use edgesec.Supervisor.Context.{DhcpIpType}
use edgesec.Supervisor.System.{IpChange, ip_change, new_ip}
use edgesec.Supervisor.System.Addresses.{ip_change-undone}
use edgesec.Supervisor.MacMapper.{hash_find, put_mac_mapper, get_ip_mapper}
use edgesec.Supervisor.MacMapper.Laws.{put_table, hash_find-put_mac_mapper}
use edgesec.Supervisor.MacMapper.Lookup.{Answers, get_ip_mapper-Answers}
use edgesec.Supervisor.Context.Triple.{Outcome}
use edgesec.Supervisor.Save.{save_mac_mapper}
use edgesec.Supervisor.Save.Saved.{Untouched, SavedAs, save_mac_mapper_lem, kept_id}
use edgesec.Supervisor.Examples.Data.{
  camera_info, lamp, lamp_conn, table, table-FitsIps, inet, env, context,
}

get_ip_mapper-Answers_example :
    Answers inet
      (codes "10.0.5.2")
      table
      (get_ip_mapper inet (some table) (some (codes "10.0.5.2")) true)
get_ip_mapper-Answers_example = get_ip_mapper-Answers inet (codes "10.0.5.2") table table-FitsIps

save_mac_mapper_lem_example :
    Outcome
      (λ _. SavedAs table lamp_conn (kept_id env [] lamp_conn.info.id))
      (λ d.
        Untouched table lamp_conn d ⊎ SavedAs table lamp_conn (kept_id env [] lamp_conn.info.id) d)
      (save_mac_mapper env lamp_conn context)
save_mac_mapper_lem_example = save_mac_mapper_lem env lamp_conn context

ip_change-undone_example :
    ip_change
      (record camera_info { ip_sec_addr = codes "10.0.5.9" })
      (codes "10.0.5.9")
      DhcpIpType.dhcp_ip_del
    ≡ IpChange.change camera_info false
unfolding ip_change new_ip str_eq
ip_change-undone_example =
    ip_change-undone camera_info (record camera_info { ip_sec_addr = codes "10.0.5.9" })
      (codes "10.0.5.9") false (omega arith) refl

hash_find-put_mac_mapper_example : hash_find lamp (put_table true table lamp_conn) ≡ (
    if (put_mac_mapper true (some table) lamp_conn).0 && mac_eq lamp lamp
    then some camera_info
    else hash_find lamp table)
hash_find-put_mac_mapper_example = hash_find-put_mac_mapper true table lamp_conn lamp
