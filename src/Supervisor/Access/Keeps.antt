-- ===== src/Supervisor/Access/Keeps.antt =====
-- get_mac_conn_cmd of src/supervisor/supervisor.c keeps the invariant, and does not fault.
use edgesec.Common.{
  ℕ, ◌≤◌, ltb, ◌==◌, ◌≡◌, refl, Bool, true, false, not, Option, none, some, is_some, List, Mac, ℤ,
  Find, if◌then◌else◌, arith,
}
use edgesec.Utils.IfaceMapper.{ConfigIfinfo, VlanConn, get_vlan_mapper}
use edgesec.Supervisor.MacMapper.{MacConnInfo, ap_secret_len, init_default_mac_info}
use edgesec.Supervisor.Context.{Context, Env, Run, TicketPtr, pure, fail, crash}
use edgesec.Supervisor.Context.Post.{
  Post, Keeps, KeepsWith, bind-KeepsWith, pure-KeepsWith, bind-Keeps, then-Keeps, get-Keeps,
  pure-Keeps, fail-Keeps, modify-Keeps, unless_fail-Keeps, if-Keeps, call-Keeps, succeeds?-Keeps,
}
use edgesec.Supervisor.Context.Triple.{Outcome}
use edgesec.Supervisor.Save.Keeps.{
  Inv, Inv-trace, TicketOk, FitsInfo, must-Inv, save_mac_mapper-Inv, get_mac_mapper-FitsInfo,
}
use edgesec.Supervisor.Network.Keeps.{free_ticket-Inv}
use edgesec.Supervisor.Access.{
  VlanAllocationType, allocate_from, allocate_vlan, configure_mac_info, start_analyser,
  schedule_analyser, capture_ok, save_device_vlan, save_and_answer, info_after, copy_pass, with_wpa,
  from_ticket, open_info, assign_device, admit, default_vlanid, get_mac_conn_cmd,
}
use edgesec.Supervisor.Access.Denied.{allocate_from-keeps}

keeps_run : {A : Type 0} (P : Context → Type 0) (r : Run A) → Outcome (λ _. P) P r → Post P r
keeps_run P (Run.done a c) h = h
keeps_run P (Run.failed c) h = h
keeps_run P Run.fault h = h

array-Inv :
    (env : Env) (mac : Mac) (default : ℤ) (o : Option (List ConfigIfinfo))
    → is_some o ≡ true
    → Keeps {A = ℤ} Inv (elim o [
      | none ↦ crash
      | some ps ↦ allocate_from env (some mac) VlanAllocationType.vlan_allocate_hash default ps
    ])
array-Inv env mac default none h = cc
array-Inv env mac default (some ps) h = record {
  post = λ c v.
      keeps_run Inv _
        ((allocate_from-keeps {P = Inv} {E = Inv} Inv-trace env mac default ps).run c v);
}

module _ (env : Env) where
  default_vlanid-Inv : (mac : Mac) → Keeps Inv (default_vlanid env (some mac))
  unfolding default_vlanid allocate_vlan
  default_vlanid-Inv mac = get-Keeps _ λ c v.
      (if-Keeps c.allocate_vlans
          (get-Keeps _ λ d w.
            (array-Inv env mac d.default_open_vlanid d.config_ifinfo_array w.configured).post d w)
          (pure-Keeps _)).post
        c v

  start_analyser-Inv : (vlan : VlanConn) → Keeps Inv (start_analyser env vlan)
  unfolding start_analyser
  start_analyser-Inv vlan = then-Keeps (must-Inv env _) (
      get-Keeps _ λ c v.
        (then-Keeps
            (modify-Keeps _ λ d w. record {
              distinct = w.distinct;
              fits = w.fits;
              bridges = w.bridges;
              ticket_ok = w.ticket_ok;
              configured = w.configured;
              pass_fits = w.pass_fits;
              subscribed = w.subscribed;
            })
            (unless_fail-Keeps _)).post
          c v)

  vlan_case :
      (f : Find VlanConn)
      → Keeps {A = Unit {0}} Inv (elim f [
        | Find.found vlan ↦ if vlan.capture_pid == 0 then start_analyser env vlan else pure tt
        | _ ↦ fail
      ])
  vlan_case Find.bad_param = fail-Keeps
  vlan_case Find.missing = fail-Keeps
  vlan_case (Find.found vlan) = if-Keeps _ (start_analyser-Inv vlan) (pure-Keeps tt)

  schedule_analyser-Inv : (vlanid : ℤ) → Keeps Inv (schedule_analyser env vlanid)
  unfolding schedule_analyser
  schedule_analyser-Inv vlanid =
      get-Keeps _ λ c v. (vlan_case (get_vlan_mapper (some c.vlan_mapper) vlanid)).post c v

  capture_ok-Inv : (vlanid : ℤ) → Keeps Inv (capture_ok env vlanid)
  unfolding capture_ok
  capture_ok-Inv vlanid = get-Keeps _ λ c v.
      (if-Keeps c.exec_capture (succeeds?-Keeps (schedule_analyser-Inv vlanid))
          (pure-Keeps true)).post
        c v

  save_device_vlan-Inv :
      (mac : Mac) (info : MacConnInfo) → FitsInfo info → Keeps Inv (save_device_vlan env mac info)
  unfolding save_device_vlan
  save_device_vlan-Inv mac info f = bind-Keeps (capture_ok-Inv info.vlanid) λ captured.
      if-Keeps (not captured) (pure-Keeps _) (
        get-Keeps _ λ c v.
          (bind-Keeps (call-Keeps Inv-trace env _) λ time_ok.
              if-Keeps (not time_ok) (pure-Keeps _) (
                bind-Keeps (succeeds?-Keeps (save_mac_mapper-Inv env _ f))
                  λ saved. pure-Keeps _)).post
            c v)

  save_and_answer-Inv :
      (mac : Mac) (info : MacConnInfo) → FitsInfo info → Keeps Inv (save_and_answer env mac info)
  unfolding save_and_answer
  save_and_answer-Inv mac info f = bind-Keeps (save_device_vlan-Inv mac info f) λ r. pure-Keeps _

  copy_pass-Inv :
      (pass_len : ℕ) (pass : List ℕ) (info : MacConnInfo)
      → FitsInfo info
      → pass_len ≤ ap_secret_len
      → KeepsWith FitsInfo Inv (copy_pass pass_len pass info)
  unfolding copy_pass
  copy_pass-Inv pass_len pass info f h = rw fits (pure-KeepsWith _ f)
    where
      fits : ltb ap_secret_len pass_len ≡ false
      fits = ground arith

  assign_device-Inv :
      (mac : Mac) (v : ℤ) (c : Context) (info : MacConnInfo) (t : TicketPtr)
      → FitsInfo info
      → c.wpa_passphrase_len ≤ ap_secret_len
      → TicketOk t
      → Keeps Inv (assign_device env mac v c info t)
  unfolding assign_device with_wpa from_ticket
  assign_device-Inv mac v c info TicketPtr.null f wpa k =
      bind-KeepsWith
        (copy_pass-Inv c.wpa_passphrase_len c.wpa_passphrase (record info { vlanid = v }) f wpa)
        λ filled g. save_and_answer-Inv mac filled g
  assign_device-Inv mac v c info (TicketPtr.live t) f wpa k =
      bind-KeepsWith
        (copy_pass-Inv t.passphrase_len t.passphrase
          (record info { vlanid = t.vlanid; label = t.device_label }) f k)
        λ filled g. then-Keeps free_ticket-Inv (save_and_answer-Inv mac filled g)
  assign_device-Inv mac v c info TicketPtr.dangling f wpa k = absurd k

  chosen-Inv :
      (c : Context) (v : ℤ) (missing found : Bool) (info : MacConnInfo)
      → FitsInfo info
      → c.wpa_passphrase_len ≤ ap_secret_len
      → KeepsWith FitsInfo Inv (
          if missing
          then configure_mac_info info true v c.wpa_passphrase_len c.wpa_passphrase none
          else if found
          then with_wpa c info
          else pure info)
  unfolding configure_mac_info with_wpa
  chosen-Inv c v true found info f wpa =
      copy_pass-Inv c.wpa_passphrase_len c.wpa_passphrase
        (record info { allow_connection = true; vlanid = v }) f wpa
  chosen-Inv c v false true info f wpa =
      copy_pass-Inv c.wpa_passphrase_len c.wpa_passphrase info f wpa
  chosen-Inv c v false false info f wpa = pure-KeepsWith info f

  admit-Inv :
      (mac : Mac) (v : ℤ) (c : Context) (find_mac : Find MacConnInfo) (info : MacConnInfo)
      → FitsInfo info
      → c.wpa_passphrase_len ≤ ap_secret_len
      → TicketOk c.ticket
      → Keeps Inv (admit env mac v c find_mac info)
  unfolding admit open_info
  admit-Inv mac v c find_mac info f wpa k =
      if-Keeps _
        (bind-KeepsWith (chosen-Inv c v _ _ info f wpa)
          λ filled g. save_and_answer-Inv mac filled g)
        (if-Keeps _ (save_and_answer-Inv mac info f) (
          if-Keeps _ (pure-Keeps _)
            (if-Keeps _ (assign_device-Inv mac v c _ c.ticket f wpa k) (pure-Keeps _))))

  base-Fits :
      (c : Context) (v : ℤ) (f : Find MacConnInfo)
      → ((info : MacConnInfo) → f ≡ Find.found info → FitsInfo info)
      → FitsInfo (info_after (init_default_mac_info v c.allow_all_nat) f)
  unfolding init_default_mac_info
  base-Fits c v Find.bad_param h = ground arith
  base-Fits c v Find.missing h = ground arith
  base-Fits c v (Find.found info) h = h info refl

  pub get_mac_conn_cmd-Inv : (mac : Mac) → Keeps Inv (get_mac_conn_cmd env (some mac))
  unfolding get_mac_conn_cmd
  get_mac_conn_cmd-Inv mac = bind-Keeps (default_vlanid-Inv mac) λ v. get-Keeps _ λ c w.
      (admit-Inv mac v c _ _ (base-Fits c v _ (get_mac_mapper-FitsInfo c mac w)) w.pass_fits
          w.ticket_ok).post
        c w

-- get_mac_conn_cmd, which hostapd's RADIUS server asks for each device that connects, keeps the
-- invariant and touches no memory that is not its own, whatever the settings and the outside.
pub get_mac_conn_cmd_safe :
    (env : Env) (mac : Mac) (c : Context) → Inv c → Post Inv (get_mac_conn_cmd env (some mac) c)
get_mac_conn_cmd_safe env mac c v = (get_mac_conn_cmd-Inv env mac).post c v
