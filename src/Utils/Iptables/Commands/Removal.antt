-- ===== src/Utils/Iptables/Commands/Removal.antt =====
-- iptables_delete_bridge of src/utils/iptables.c, with a kernel that deletes rules by their number.
use edgesec.Common.{
  ℕ, suc, ◌+◌, ◌≤◌, ◌<◌, ◌≡◌, refl, sym, ap, ◌∙◌, subst, inl, inr, Bool, true, false, some, List,
  [], ◌∷◌, CString, length, Bool-cases, arith,
}
use edgesec.Utils.Iptables.{IptablesColumns}
use edgesec.Utils.Iptables.Commands.{
  Tool, Tables, delete_filter, run_iptables, or_return, delete_bridge_rule, iptables_delete_bridge,
}
use edgesec.Utils.Iptables.Commands.Chain.{accepts, remove_at, remove_first}
use edgesec.Utils.Iptables.Commands.Bridges.{Listed, listed, delete_bridge_rule-Listed}
use edgesec.Supervisor.Texts.{decimal}

-- `chain` is what the kernel holds: iptables lists a chain of at most `piece` rules in one piece of
-- output, which is how much the code reads of it, and deletes the rule with a number.
pub record Removes {ℓ} {W : Type ℓ} (tool : Tool W) (chain : W → List IptablesColumns) (piece : ℕ)
    : Type ℓ where
  pub listing :
      (t : Tables W)
      → t.exec_iptables ≡ true
      → 0 < length (chain t.world)
      → length (chain t.world) ≤ piece
      → Listed tool t (chain t.world) t.world
  pub deleting :
      (w : W) (k : ℕ)
      → k < length (chain w)
      → (w' : W) × (tool.exec (delete_filter (decimal (1 + k))) w ≡ ((true, []), w'))
        × (chain w' ≡ remove_at k (chain w))

length-remove_first :
    {A : Type 0} (p : A → Bool) (xs : List A)
    → (length xs ≤ suc (length (remove_first p xs))) × (length (remove_first p xs) ≤ length xs)
length-remove_first p [] = (omega arith, omega arith)
length-remove_first p (x ∷ xs) = elim (Bool-cases (p x)) [
  | inl hit ↦ rw hit (omega arith, omega arith)
  | inr miss ↦
      let (more, not_more) = length-remove_first p xs in
      rw miss (omega (arith, more), omega (arith, not_more))
]

module _ {ℓ} {W : Type ℓ} (tool : Tool W) (chain : W → List IptablesColumns) (piece : ℕ)
    (h : Removes tool chain piece) where
  run_delete :
      (k : ℕ) (rules : List IptablesColumns) (w w' : W)
      → tool.exec (delete_filter (decimal (1 + k))) w ≡ ((true, []), w')
      → run_iptables tool false (delete_filter (decimal (1 + k))) (listed tool rules w)
        ≡ (true, listed tool rules w')
  unfolding run_iptables
  run_delete k rules w w' e = ap (λ r. (r.0.0, record (listed tool rules w) { world = r.1 })) e

  delete_bridge_rule-removes :
      (sip sif dip dif : CString) (s : Tables W)
      → s.exec_iptables ≡ true
      → 0 < length (chain s.world)
      → length (chain s.world) ≤ piece
      → (s' : Tables W) × (delete_bridge_rule tool sip sif dip dif s ≡ some (true, s'))
        × (s'.exec_iptables ≡ true)
        × (chain s'.world ≡ remove_first (accepts sip sif dip dif) (chain s.world))
  delete_bridge_rule-removes sip sif dip dif s runs some_rules one_piece =
      let rules = chain s.world in
      elim (delete_bridge_rule-Listed tool sip sif dip dif s rules s.world
        (h.listing s runs some_rules one_piece)) [
          | inl (same, e) ↦ (listed tool rules s.world, e, refl, sym same)
          | inr (k, removed, below, e) ↦
              let (w', ran, left) = h.deleting s.world k below in
              (
                listed tool rules w',
                e ∙ ap (λ r. some r) (run_delete k rules s.world w' ran),
                refl,
                left ∙ removed,
              )
        ]

  -- On a chain of two rules or more, and of no more than iptables lists in one piece of output,
  -- iptables_delete_bridge returns 0, and the chain is then without the first rule for each direction
  -- of the bridge, if iptables lists such a chain in one piece and deletes a rule by its number.
  pub iptables_delete_bridge-removes :
      (sip sif dip dif : CString) (s : Tables W)
      → s.exec_iptables ≡ true
      → 1 < length (chain s.world)
      → length (chain s.world) ≤ piece
      → (s' : Tables W) × (iptables_delete_bridge tool sip sif dip dif s ≡ some (true, s'))
        × (chain s'.world
            ≡ remove_first
                (accepts dip dif sip sif)
                (remove_first (accepts sip sif dip dif) (chain s.world)))
  unfolding iptables_delete_bridge or_return
  iptables_delete_bridge-removes sip sif dip dif s runs two_rules one_piece =
      let (s1, e1, runs1, left1) =
        delete_bridge_rule-removes sip sif dip dif s runs (omega arith) one_piece in
      let (more, not_more) = length-remove_first (accepts sip sif dip dif) (chain s.world) in
      let (s2, e2, _, left2) =
        delete_bridge_rule-removes dip dif sip sif s1 runs1
          (subst (λ rules. 0 < length rules) (sym left1) (omega (arith, more)))
          (subst (λ rules. length rules ≤ piece) (sym left1)
            (omega (arith, not_more, one_piece))) in
      (s2, rw e1 e2, left2 ∙ ap (remove_first (accepts dip dif sip sif)) left1)
