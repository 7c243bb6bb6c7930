-- ===== src/Supervisor/Save/Rules.antt =====
-- The firewall rules of src/firewall/firewall_service.c and src/supervisor/network_commands.c
-- change nothing but the trace, and do not fault on addresses that fit.
use edgesec.Common.{
  ◌<◌, ◌≡◌, subst, Bool, true, false, Option, none, some, is_some, length, CString,
}
use edgesec.Utils.Net.{os_inet_addrstrlen}
use edgesec.Supervisor.MacMapper.Lookup.{validate_ipv4_string_total}
use edgesec.Supervisor.Context.{Context, Env, pure, fail, crash}
use edgesec.Supervisor.Context.Post.{
  must-Keeps, Keeps, IgnoresTrace, bind-Keeps, get-Keeps, pure-Keeps, fail-Keeps, if-Keeps,
  must-Keeps,
}
use edgesec.Supervisor.Save.{
  ifname_of, fw_add_nat, fw_remove_nat, fw_add_bridge, fw_remove_bridge, is_ipv4, add_nat_ip,
  remove_nat_ip, are_ipv4, add_bridge_ip, delete_bridge_ip,
}

module _ {P : Context → Type 0} (t : IgnoresTrace P) (env : Env) where
  ifname_case :
      (o : Option CString)
      → Keeps {A = CString} P (elim o [ none ↦ fail | some ifname ↦ pure ifname ])
  ifname_case none = fail-Keeps
  ifname_case (some ifname) = pure-Keeps ifname

  pub ifname_of-Keeps : (ip : CString) → Keeps P (ifname_of env ip)
  unfolding ifname_of
  ifname_of-Keeps ip = get-Keeps _ λ c v. (ifname_case _).post c v

  fw_add_nat-Keeps : (ip : CString) → Keeps P (fw_add_nat env ip)
  unfolding fw_add_nat
  fw_add_nat-Keeps ip = bind-Keeps (ifname_of-Keeps ip) λ ifname. must-Keeps t env _

  fw_remove_nat-Keeps : (ip : CString) → Keeps P (fw_remove_nat env ip)
  unfolding fw_remove_nat
  fw_remove_nat-Keeps ip = bind-Keeps (ifname_of-Keeps ip) λ ifname. must-Keeps t env _

  fw_add_bridge-Keeps : (left right : CString) → Keeps P (fw_add_bridge env left right)
  unfolding fw_add_bridge
  fw_add_bridge-Keeps left right =
      bind-Keeps (ifname_of-Keeps left)
        λ l. bind-Keeps (ifname_of-Keeps right) λ r. must-Keeps t env _

  fw_remove_bridge-Keeps : (left right : CString) → Keeps P (fw_remove_bridge env left right)
  unfolding fw_remove_bridge
  fw_remove_bridge-Keeps left right =
      bind-Keeps (ifname_of-Keeps left)
        λ l. bind-Keeps (ifname_of-Keeps right) λ r. must-Keeps t env _

  valid_case :
      (o : Option Bool)
      → is_some o ≡ true
      → Keeps {A = Bool} P (elim o [ none ↦ crash | some valid ↦ pure valid ])
  valid_case none h = absurd (subst (λ b. elim b [ true ↦ ⊥ | false ↦ Unit {0} ]) h tt)
  valid_case (some valid) h = pure-Keeps valid

  pub is_ipv4-Keeps : (ip : CString) → length ip < os_inet_addrstrlen → Keeps P (is_ipv4 env ip)
  unfolding is_ipv4
  is_ipv4-Keeps ip h = valid_case _ (validate_ipv4_string_total env.inet ip h)

  pub add_nat_ip-Keeps :
      (ip : CString) → length ip < os_inet_addrstrlen → Keeps P (add_nat_ip env ip)
  unfolding add_nat_ip
  add_nat_ip-Keeps ip h =
      bind-Keeps (is_ipv4-Keeps ip h) λ valid. if-Keeps valid (fw_add_nat-Keeps ip) (pure-Keeps tt)

  pub remove_nat_ip-Keeps :
      (ip : CString) → length ip < os_inet_addrstrlen → Keeps P (remove_nat_ip env ip)
  unfolding remove_nat_ip
  remove_nat_ip-Keeps ip h =
      bind-Keeps (is_ipv4-Keeps ip h)
        λ valid. if-Keeps valid (fw_remove_nat-Keeps ip) (pure-Keeps tt)

  module _ (left right : CString) (h : length left < os_inet_addrstrlen)
      (k : length right < os_inet_addrstrlen) where
    are_ipv4-Keeps : Keeps P (are_ipv4 env left right)
    unfolding are_ipv4
    are_ipv4-Keeps =
        bind-Keeps (is_ipv4-Keeps left h)
          λ valid. if-Keeps valid (is_ipv4-Keeps right k) (pure-Keeps false)

    pub add_bridge_ip-Keeps : Keeps P (add_bridge_ip env left right)
    unfolding add_bridge_ip
    add_bridge_ip-Keeps =
        bind-Keeps are_ipv4-Keeps
          λ valid. if-Keeps valid (fw_add_bridge-Keeps left right) (pure-Keeps tt)

    pub delete_bridge_ip-Keeps : Keeps P (delete_bridge_ip env left right)
    unfolding delete_bridge_ip
    delete_bridge_ip-Keeps =
        bind-Keeps are_ipv4-Keeps
          λ valid. if-Keeps valid (fw_remove_bridge-Keeps left right) (pure-Keeps tt)
