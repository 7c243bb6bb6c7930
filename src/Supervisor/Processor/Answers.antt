-- ===== src/Supervisor/Processor/Answers.antt =====
-- The parts that the handlers of src/supervisor/cmd_processor.c share keep the invariant.
use edgesec.Common.{◌<◌, inl, inr, Bool, List, [], ◌∷◌, length, CString, Mac, ℤ, Option-cases}
use edgesec.Utils.Net.{hwaddr_aton2, os_inet_addrstrlen}
use edgesec.Supervisor.Context.{Env, M, ClientAddress, ◌>>=◌}
use edgesec.Supervisor.Context.Post.{Keeps, bind-Keeps, if-Keeps, succeeds?-Keeps}
use edgesec.Supervisor.Save.{is_ipv4}
use edgesec.Supervisor.Save.Keeps.{Inv, must-Inv, is_ipv4-Inv}
use edgesec.Supervisor.Texts.{read_vlanid}
use edgesec.Supervisor.Replies.{reply, answer, with_mac, with_vlanid, on_mac, second_mac}

module _ (env : Env) (addr : ClientAddress) where
  pub reply-Inv : (text : CString) → Keeps Inv (reply env addr text)
  unfolding reply
  reply-Inv text = must-Inv env _

  pub answer-Inv : {m : M (Unit {0})} → Keeps Inv m → Keeps Inv (answer env addr m)
  unfolding answer
  answer-Inv k = bind-Keeps (succeeds?-Keeps k) λ ok. if-Keeps ok (reply-Inv _) (reply-Inv _)

  pub with_mac-Inv :
      (text : CString) {f : Mac → M (Unit {0})}
      → ((mac : Mac) → Keeps Inv (f mac))
      → Keeps Inv (with_mac env addr text f)
  unfolding with_mac
  with_mac-Inv text k = elim (Option-cases (hwaddr_aton2 text)) [
    | inl e ↦ rw (with_mac, e) (reply-Inv _)
    | inr ((mac, used), e) ↦ rw (with_mac, e) (k mac)
  ]

  pub with_vlanid-Inv :
      (text : CString) {f : ℤ → M (Unit {0})}
      → ((vlanid : ℤ) → Keeps Inv (f vlanid))
      → Keeps Inv (with_vlanid env addr text f)
  unfolding with_vlanid
  with_vlanid-Inv text k = elim (Option-cases (read_vlanid text)) [
    | inl e ↦ rw (with_vlanid, e) (reply-Inv _)
    | inr (vlanid, e) ↦ rw (with_vlanid, e) (k vlanid)
  ]

  pub on_mac-Inv :
      {f : Mac → M (Unit {0})}
      → ((mac : Mac) → Keeps Inv (f mac))
      → (args : List CString) → Keeps Inv (on_mac env addr f args)
  unfolding on_mac
  on_mac-Inv k [] = reply-Inv _
  on_mac-Inv k (cmd ∷ []) = reply-Inv _
  on_mac-Inv k (cmd ∷ text ∷ more) = with_mac-Inv text λ mac. answer-Inv (k mac)

  pub second_mac-Inv :
      {f : Mac → Mac → M (Unit {0})}
      → ((left right : Mac) → Keeps Inv (f left right))
      → (left : Mac) (args : List CString) → Keeps Inv (second_mac env addr f left args)
  unfolding second_mac
  second_mac-Inv k left [] = reply-Inv _
  second_mac-Inv k left (text ∷ more) = with_mac-Inv text λ right. answer-Inv (k left right)

  -- A check of a short text does not fault.
  pub is_ipv4-short :
      (text : CString) {f : Bool → M (Unit {0})}
      → length text < os_inet_addrstrlen
      → ((valid : Bool) → Keeps Inv (f valid))
      → Keeps Inv (is_ipv4 env text >>= f)
  is_ipv4-short text h k = bind-Keeps (is_ipv4-Inv env text h) k
