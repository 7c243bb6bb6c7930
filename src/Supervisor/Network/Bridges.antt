-- ===== src/Supervisor/Network/Bridges.antt =====
-- The commands on bridges of src/supervisor/network_commands.c keep the invariant and do not fault.
use edgesec.Common.{
  ◌≡◌, refl, ◌<◌, Bool, true, false, Option, none, some, List, [], ◌∷◌, CString, length, Mac, Find,
}
use edgesec.Utils.Net.{os_inet_addrstrlen}
use edgesec.Supervisor.BridgeList.{Ret, BridgeList, remove_bridge_mac}
use edgesec.Supervisor.BridgeList.Shape.{Valid, add_bridge_mac-Valid}
use edgesec.Supervisor.BridgeList.Remove.{remove_bridge_mac_lem, cut-IsWellFormed, cut}
use edgesec.Supervisor.MacMapper.{MacConn, MacConnInfo, get_mac_list}
use edgesec.Common.{All}
use edgesec.Supervisor.Context.{Context}
use edgesec.Supervisor.MacMapper.Lookup.{FitsIps, Answers, get_ip_mapper-Answers}
use edgesec.Supervisor.Context.{Context, Env, Call, M, pure, crash, call, alloc_if}
use edgesec.Supervisor.Context.Post.{
  Keeps, KeepsWith, bind-Keeps, then-Keeps, get-Keeps, pure-Keeps, fail-Keeps, modify-Keeps,
  unless_fail-Keeps, if-Keeps, alloc_if-Keeps, succeeds?-Keeps, pure-KeepsWith, get-KeepsWith,
  bind-KeepsWith,
}
use edgesec.Supervisor.Save.{add_bridge_ip, delete_bridge_ip}
use edgesec.Supervisor.Save.Keeps.{
  Inv, Inv-trace, FitsInfo, add_bridge_ip-Inv, delete_bridge_ip-Inv, get_mac_mapper-Fits,
}
use edgesec.Supervisor.Network.{
  add_bridge, set_bridges, remove_bridge, both_infos, for_each_pair, add_bridge_mac_cmd,
  remove_bridge_cmd, mac_or_fail, mac_of_ip, add_bridge_ip_cmd, clear_each, list_devices,
  clear_bridges_cmd,
}

-- The addresses of the information about both devices fit.
abbrev pub FitsBoth : Option (MacConnInfo × MacConnInfo) → Type 0
FitsBoth none = Unit {0}
FitsBoth (some (l, r)) = FitsInfo l × FitsInfo r

both_case :
    {P : Context → Type 0} (f g : Find MacConnInfo)
    → ((info : MacConnInfo) → f ≡ Find.found info → FitsInfo info)
    → ((info : MacConnInfo) → g ≡ Find.found info → FitsInfo info)
    → KeepsWith {A = Option (MacConnInfo × MacConnInfo)} FitsBoth P (elim f [
      | Find.found l ↦ elim g [ Find.found r ↦ pure (some (l, r)) | _ ↦ pure none ]
      | _ ↦ pure none
    ])
both_case Find.bad_param g hf hg = pure-KeepsWith none tt
both_case Find.missing g hf hg = pure-KeepsWith none tt
both_case (Find.found l) Find.bad_param hf hg = pure-KeepsWith none tt
both_case (Find.found l) Find.missing hf hg = pure-KeepsWith none tt
both_case (Find.found l) (Find.found r) hf hg = pure-KeepsWith (some (l, r)) (hf l refl, hg r refl)

pub both_infos-Keeps :
    {P : Context → Type 0}
    → ((c : Context) → P c → All FitsIps c.mac_mapper)
    → (left right : Mac) → KeepsWith FitsBoth P (both_infos left right)
unfolding both_infos
both_infos-Keeps fits left right = get-KeepsWith _ λ c v.
    (both_case _ _ (get_mac_mapper-Fits c left (fits c v))
        (get_mac_mapper-Fits c right (fits c v))).post
      c v

pub for_each_pair-Keeps :
    {P : Context → Type 0} (rule : CString → CString → M (Unit {0}))
    → ((l r : CString)
        → length l < os_inet_addrstrlen
        → length r < os_inet_addrstrlen
        → Keeps P (rule l r))
    → (infos : Option (MacConnInfo × MacConnInfo)) → FitsBoth infos
    → Keeps P (for_each_pair rule infos)
unfolding for_each_pair
for_each_pair-Keeps rule h none f = pure-Keeps tt
for_each_pair-Keeps rule h (some (l, r)) f = then-Keeps (h l.ip_addr r.ip_addr f.0.0 f.1.0) (
    then-Keeps (h l.ip_addr r.ip_sec_addr f.0.0 f.1.1) (
      then-Keeps (h l.ip_sec_addr r.ip_addr f.0.1 f.1.0)
        (h l.ip_sec_addr r.ip_sec_addr f.0.1 f.1.1)))

set_bridges-Inv :
    (ret : Ret) (ml : Option BridgeList) → Valid ml → Keeps Inv (set_bridges (some (ret, ml)))
unfolding set_bridges
set_bridges-Inv ret ml h =
    then-Keeps
      (modify-Keeps _ λ c v. record {
        distinct = v.distinct;
        fits = v.fits;
        bridges = h;
        ticket_ok = v.ticket_ok;
        configured = v.configured;
        pass_fits = v.pass_fits;
        subscribed = v.subscribed;
      })
      (pure-Keeps ret)

remove_bridge_case :
    (ml : Option BridgeList) (left right : Mac)
    → Valid ml
    → Keeps Inv (set_bridges (remove_bridge_mac ml (some left) (some right)))
remove_bridge_case none left right v =
    unfold remove_bridge_mac in set_bridges-Inv Ret.failed none tt
remove_bridge_case (some ml) left right v =
    rw (remove_bridge_mac_lem ml left right v)
      (set_bridges-Inv Ret.zero (some (cut ml left right)) (cut-IsWellFormed ml left right v))

remove_bridge-Inv : (left right : Mac) → Keeps Inv (remove_bridge left right)
unfolding remove_bridge
remove_bridge-Inv left right =
    get-Keeps _ λ c v. (remove_bridge_case c.bridge_list left right v.bridges).post c v

module _ (env : Env) where
  add_bridge-Inv : (left right : Mac) → Keeps Inv (add_bridge env left right)
  unfolding add_bridge
  add_bridge-Inv left right = get-Keeps _ λ c v.
      (bind-Keeps (alloc_if-Keeps Inv-trace env _) λ src_ok.
          bind-Keeps (alloc_if-Keeps Inv-trace env _) λ dst_ok.
            then-Keeps
              (modify-Keeps _ λ d w. record {
                distinct = w.distinct;
                fits = w.fits;
                bridges =
                    add_bridge_mac-Valid src_ok dst_ok c.bridge_list (some left) (some right)
                      v.bridges;
                ticket_ok = w.ticket_ok;
                configured = w.configured;
                pass_fits = w.pass_fits;
                subscribed = w.subscribed;
              })
              (pure-Keeps _)).post
        c v

  pub add_bridge_mac_cmd-Inv : (left right : Mac) → Keeps Inv (add_bridge_mac_cmd env left right)
  unfolding add_bridge_mac_cmd
  add_bridge_mac_cmd-Inv left right = bind-Keeps (add_bridge-Inv left right) λ ret.
      then-Keeps (unless_fail-Keeps _) (
        bind-KeepsWith (both_infos-Keeps (λ c v. v.fits) left right) λ infos f.
          for_each_pair-Keeps (add_bridge_ip env) (λ l r h k. add_bridge_ip-Inv env l r h k) infos
            f)

  pub remove_bridge_cmd-Inv : (left right : Mac) → Keeps Inv (remove_bridge_cmd env left right)
  unfolding remove_bridge_cmd
  remove_bridge_cmd-Inv left right = bind-Keeps (remove_bridge-Inv left right) λ ret.
      then-Keeps (unless_fail-Keeps _) (
        bind-KeepsWith (both_infos-Keeps (λ c v. v.fits) left right) λ infos f.
          for_each_pair-Keeps (delete_bridge_ip env) (λ l r h k. delete_bridge_ip-Inv env l r h k)
            infos f)

  mac_case :
      (c : Context) (r : Option (Find Mac)) (ip : CString)
      → Answers env.inet ip c.mac_mapper r
      → Keeps Inv (mac_or_fail r)
  unfolding mac_or_fail
  mac_case c none ip h = absurd h
  mac_case c (some Find.bad_param) ip h = fail-Keeps
  mac_case c (some Find.missing) ip h = fail-Keeps
  mac_case c (some (Find.found mac)) ip h = pure-Keeps mac

  mac_of_ip-Inv : (ip : CString) → Keeps Inv (mac_of_ip env ip)
  unfolding mac_of_ip
  mac_of_ip-Inv ip =
      get-Keeps _
        λ c v. (mac_case c _ ip (get_ip_mapper-Answers env.inet ip c.mac_mapper v.fits)).post c v

  pub add_bridge_ip_cmd-Inv : (l r : CString) → Keeps Inv (add_bridge_ip_cmd env l r)
  unfolding add_bridge_ip_cmd
  add_bridge_ip_cmd-Inv l r = bind-Keeps (mac_of_ip-Inv l) λ left.
      bind-Keeps (mac_of_ip-Inv r) λ right.
        get-Keeps _ λ c v. (if-Keeps _ (pure-Keeps tt) (add_bridge_mac_cmd-Inv left right)).post c v

  clear_each-Inv : (mac : Mac) (els : List MacConn) → Keeps Inv (clear_each env mac els)
  unfolding clear_each
  clear_each-Inv mac [] = pure-Keeps tt
  clear_each-Inv mac (el ∷ els) =
      bind-Keeps (succeeds?-Keeps (remove_bridge_cmd-Inv mac el.mac_addr))
        λ _. clear_each-Inv mac els

-- The allocator never fails. clear_bridges_cmd does not look at what it gives.
abbrev pub Allocates : Env → Type 0
Allocates env = (t : List Call) → env.succeeds t Call.os_malloc ≡ true

alloc_if_ok :
    (env : Env) → Allocates env → (b : Bool) → KeepsWith (λ ok. ok ≡ true) Inv (alloc_if env b)
unfolding alloc_if call pure
alloc_if_ok env a true = record { post = λ c v. (a c.trace, Inv-trace c Call.os_malloc v) }
alloc_if_ok env a false = record { post = λ c v. (refl, v) }

list_case :
    (ok : Bool) (els : List MacConn)
    → ok ≡ true
    → Keeps {A = List MacConn} Inv (elim (get_mac_list ok els) [ none ↦ crash | some l ↦ pure l ])
unfolding get_mac_list
list_case ok [] h = pure-Keeps []
list_case ok (s ∷ els) h = rw h (pure-Keeps (s ∷ els))

module _ (env : Env) (a : Allocates env) where
  pub list_devices-Inv : Keeps Inv (list_devices env)
  unfolding list_devices
  list_devices-Inv =
      get-Keeps _
        λ c v. (bind-KeepsWith (alloc_if_ok env a _) λ ok h. list_case ok c.mac_mapper h).post c v

  pub clear_bridges_cmd-Inv : (mac : Mac) → Keeps Inv (clear_bridges_cmd env mac)
  unfolding clear_bridges_cmd
  clear_bridges_cmd-Inv mac = bind-Keeps list_devices-Inv λ els. clear_each-Inv env mac els
