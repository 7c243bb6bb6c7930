-- ===== src/Utils/Iptables/Commands/Bridges.antt =====
-- delete_bridge_rule and add_bridge_rule of src/utils/iptables.c, where iptables lists the rules in one piece.
use edgesec.Common.{
  ℕ, suc, ◌+◌, ◌<◌, ◌^◌, ◌≡◌, refl, ap, ◌∙◌, ◌⊎◌, inl, inr, ltb, if◌then◌else◌, true, false, ◌&&◌,
  none, some, List, [], ◌∷◌, CString, codes, ℤ, int_eq, length, take, get_elem?, All, Option-cases,
  arith,
}
use edgesec.Utils.Net.{validate_ipv4_string}
use edgesec.Utils.Iptables.{IptablesColumns, read_command_output}
use edgesec.Utils.Iptables.Listing.{numbered, Listing, list_rule_cb-Listing}
use edgesec.Utils.Iptables.Commands.{
  Tool, Tables, find_rule, find_baseif_rulenum, num_text, list_filter, delete_filter, insert_filter,
  run_iptables, get_rules, get_filter_rules, run_numbered, delete_bridge_rule, add_bridge_rule,
}
use edgesec.Utils.Iptables.Commands.Chain.{
  accepts, rejects, remove_at, remove_first, position, remove_at-position, remove_first-absent,
  position-before, position-none, position-hit, length-numbered, place_number, find_rule-numbered,
  find_baseif_rulenum-numbered,
}
use edgesec.Supervisor.Texts.{decimal}

place_number-none : (n : ℕ) → place_number n none ≡ ℤ.pos 0
unfolding place_number
place_number-none n = refl

place_number-some : (n k : ℕ) → place_number n (some k) ≡ ℤ.pos (n + k)
unfolding place_number
place_number-some n k = refl

nonzero : (k : ℕ) → int_eq (ℤ.pos (1 + k)) (ℤ.pos 0) ≡ false
unfolding int_eq
nonzero k = ground arith

at_head : (if int_eq (ℤ.pos 0) (ℤ.pos 0) && true then ℤ.pos 1 else ℤ.pos 0) ≡ ℤ.pos 1
unfolding int_eq
at_head = refl

-- The place where the rule of a bridge goes in: that of the first rule that rejects what comes from
-- its interface, or the head of the list where no rule does.
abbrev pub FirstReject : CString → List IptablesColumns → ℕ → Type 0
FirstReject sif rules k =
    (All (λ rule. rejects sif rule ≡ false) rules × (k ≡ 0))
    ⊎ (All (λ rule. rejects sif rule ≡ false) (take k rules)
        × ((rule : IptablesColumns) × (get_elem? rules k ≡ some rule) × (rejects sif rule ≡ true)))

module _ {ℓ} {W : Type ℓ} (tool : Tool W) where
  -- In the state `s` iptables runs, and lists `rules` in one piece.
  pub record Listed (s : Tables W) (rules : List IptablesColumns) (w : W) : Type ℓ where
    pub runs : s.exec_iptables ≡ true
    pub text : CString
    pub listing : Listing rules text
    pub printed : tool.exec list_filter s.world ≡ ((true, text ∷ []), w)
    pub some_rules : 0 < length rules
    pub few_rules : suc (length rules) < 10 ^ 9

  -- The state behind the listing.
  abbrev pub listed : List IptablesColumns → W → Tables W
  listed rules w = record { rule_list = numbered 1 rules; exec_iptables = true; world = w }

  get_filter_rules-Listed :
      (s : Tables W) (rules : List IptablesColumns) (w : W)
      → Listed s rules w
      → get_filter_rules tool s ≡ (true, listed rules w)
  unfolding get_filter_rules get_rules run_iptables read_command_output
  get_filter_rules-Listed s rules w h =
      rw
        (
          h.runs,
          h.printed,
          list_rule_cb-Listing s.rule_list rules h.text h.listing,
          length-numbered 1 rules,
          there,
        )
        refl
    where
      there : ltb 0 (length rules) ≡ true
      there = ground (arith, h.some_rules)

  num_text-pos : (n : ℕ) → n < 10 ^ 9 → num_text (ℤ.pos n) ≡ some (decimal n)
  unfolding num_text
  num_text-pos n lt = rw below refl
    where
      below : ltb n (10 ^ 9) ≡ true
      below = ground (arith, lt)

  run_numbered-text :
      (command : CString → List CString) (num : ℤ) (num_buf : CString) (s : Tables W)
      → num_text num ≡ some num_buf
      → run_numbered tool command num s ≡ some (run_iptables tool false (command num_buf) s)
  unfolding run_numbered
  run_numbered-text command num num_buf s h = rw (run_numbered, h) refl

  run_numbered-pos :
      (command : CString → List CString) (n : ℕ) (s : Tables W)
      → n < 10 ^ 9
      → run_numbered tool command (ℤ.pos n) s
        ≡ some (run_iptables tool false (command (decimal n)) s)
  run_numbered-pos command n s lt =
      run_numbered-text command (ℤ.pos n) (decimal n) s (num_text-pos n lt)

  delete_bridge_rule-absent :
      (sip sif dip dif : CString) (s t : Tables W)
      → get_filter_rules tool s ≡ (true, t)
      → t.exec_iptables ≡ true
      → find_rule t.rule_list sip sif dip dif (codes "ACCEPT") ≡ ℤ.pos 0
      → delete_bridge_rule tool sip sif dip dif s ≡ some (true, t)
  unfolding delete_bridge_rule int_eq
  delete_bridge_rule-absent sip sif dip dif s t got runs found = rw (got, runs, found) refl

  delete_bridge_rule-found :
      (sip sif dip dif : CString) (num : ℤ) (s t : Tables W)
      → get_filter_rules tool s ≡ (true, t)
      → t.exec_iptables ≡ true
      → find_rule t.rule_list sip sif dip dif (codes "ACCEPT") ≡ num
      → int_eq num (ℤ.pos 0) ≡ false
      → delete_bridge_rule tool sip sif dip dif s ≡ run_numbered tool delete_filter num t
  unfolding delete_bridge_rule
  delete_bridge_rule-found sip sif dip dif num s t got runs found some_num =
      rw (got, runs, found, some_num) refl

  add_bridge_rule-numbered :
      (sip sif dip dif : CString) (num : ℤ) (s t : Tables W)
      → validate_ipv4_string tool.inet sip ≡ some true
      → validate_ipv4_string tool.inet dip ≡ some true
      → get_filter_rules tool s ≡ (true, t)
      → (if int_eq (find_baseif_rulenum t.rule_list sif) (ℤ.pos 0) && t.exec_iptables
          then ℤ.pos 1
          else find_baseif_rulenum t.rule_list sif)
        ≡ num
      → add_bridge_rule tool sip sif dip dif s
        ≡ run_numbered tool (λ num_buf. insert_filter num_buf sip sif dip dif) num t
  unfolding add_bridge_rule
  add_bridge_rule-numbered sip sif dip dif num s t valid valid' got at_number =
      rw (add_bridge_rule, valid, valid', got, at_number) refl

  -- Where iptables lists the rules in one piece, delete_bridge_rule either finds none for the bridge and does
  -- nothing, or runs the command that deletes the rule with the number of the first one, so that
  -- just this one is missing from the list.
  pub delete_bridge_rule-Listed :
      (sip sif dip dif : CString) (s : Tables W) (rules : List IptablesColumns) (w : W)
      → Listed s rules w
      → ((remove_first (accepts sip sif dip dif) rules ≡ rules)
          × (delete_bridge_rule tool sip sif dip dif s ≡ some (true, listed rules w)))
        ⊎ ((k : ℕ) × (remove_at k rules ≡ remove_first (accepts sip sif dip dif) rules)
            × (k < length rules)
            × (delete_bridge_rule tool sip sif dip dif s
                ≡ some
                    (run_iptables tool false (delete_filter (decimal (1 + k))) (listed rules w))))
  delete_bridge_rule-Listed sip sif dip dif s rules w h =
      elim (Option-cases (position (accepts sip sif dip dif) rules)) [
        | inl absent ↦ inl (
          remove_first-absent (accepts sip sif dip dif) rules absent,
          delete_bridge_rule-absent sip sif dip dif s (listed rules w)
              (get_filter_rules-Listed s rules w h) refl
              (find_rule-numbered 1 rules sip sif dip dif
                ∙ ap (place_number 1) absent
                ∙ place_number-none 1),
        )
        | inr (k, there) ↦
            let (removed, below) = remove_at-position (accepts sip sif dip dif) rules there in
            inr (
              k,
              removed,
              below,
              delete_bridge_rule-found sip sif dip dif (ℤ.pos (1 + k)) s (listed rules w)
                    (get_filter_rules-Listed s rules w h) refl
                    (find_rule-numbered 1 rules sip sif dip dif
                      ∙ ap (place_number 1) there
                      ∙ place_number-some 1 k)
                    (nonzero k)
                  ∙ run_numbered-pos delete_filter (1 + k) (listed rules w)
                      (omega (arith, below, h.few_rules)),
            )
      ]

  -- Where iptables lists the rules in one piece of output and both addresses are valid,
  -- add_bridge_rule runs the command that inserts the rule at the number of the first rule that
  -- rejects what comes from its interface, and at 1 where there is no such rule.
  pub add_bridge_rule-Listed :
      (sip sif dip dif : CString) (s : Tables W) (rules : List IptablesColumns) (w : W)
      → Listed s rules w
      → validate_ipv4_string tool.inet sip ≡ some true
      → validate_ipv4_string tool.inet dip ≡ some true
      → (k : ℕ) × FirstReject sif rules k
        × (add_bridge_rule tool sip sif dip dif s
            ≡ some (
                run_iptables tool false
                  (insert_filter (decimal (1 + k)) sip sif dip dif)
                  (listed rules w)))
  add_bridge_rule-Listed sip sif dip dif s rules w h valid valid' =
      elim (Option-cases (position (rejects sif) rules)) [
        | inl absent ↦ (
          0,
          inl (position-none (rejects sif) rules absent, refl),
          add_bridge_rule-numbered sip sif dip dif (ℤ.pos 1) s (listed rules w) valid valid'
                (get_filter_rules-Listed s rules w h)
                (ap (λ z. if int_eq z (ℤ.pos 0) && true then ℤ.pos 1 else z)
                    (find_baseif_rulenum-numbered 1 rules sif
                      ∙ ap (place_number 1) absent
                      ∙ place_number-none 1)
                  ∙ at_head)
              ∙ run_numbered-pos (λ num_buf. insert_filter num_buf sip sif dip dif) 1
                  (listed rules w) (omega arith),
        )
        | inr (k, there) ↦
            let (_, below) = remove_at-position (rejects sif) rules there in
            (
              k,
              inr (
                position-before (rejects sif) rules there,
                position-hit (rejects sif) rules there,
              ),
              add_bridge_rule-numbered sip sif dip dif (ℤ.pos (1 + k)) s (listed rules w) valid
                    valid' (get_filter_rules-Listed s rules w h)
                    (ap (λ z. if int_eq z (ℤ.pos 0) && true then ℤ.pos 1 else z)
                        (find_baseif_rulenum-numbered 1 rules sif
                          ∙ ap (place_number 1) there
                          ∙ place_number-some 1 k)
                      ∙ rw (nonzero k) refl)
                  ∙ run_numbered-pos (λ num_buf. insert_filter num_buf sip sif dip dif) (1 + k)
                      (listed rules w) (omega (arith, below, h.few_rules)),
            )
      ]
