-- ===== src/Utils/Iptables/Commands.antt =====
-- src/utils/iptables.c: the commands for the rules of a bridge and of the network behind it.
pub mod Chain
pub mod Bridges
pub mod Removal
use edgesec.Common.{
  ℕ, zero, suc, ◌^◌, ltb, if◌then◌else◌, Bool, true, false, not, ◌&&◌, Option, none, some, List, [],
  ◌∷◌, ◌++◌, CString, codes, ℤ, int_eq, length, str_eq, map,
}
use edgesec.Utils.Net.{Inet, validate_ipv4_string}
use edgesec.Utils.Iptables.{IptablesColumns, read_command_output}
use edgesec.Supervisor.Texts.{decimal}

-- What iptables does with arguments: whether its status is 0, and the pieces of its output.
pub record Tool {ℓ} (W : Type ℓ) : Type ℓ where
  pub exec : List CString → W → (Bool × List CString) × W
  pub inet : Inet

-- struct iptables_context and what the kernel holds
pub record Tables {ℓ} (W : Type ℓ) : Type ℓ where
  pub rule_list : List IptablesColumns
  pub exec_iptables : Bool
  pub world : W

-- Whether a call returns 0, and the state then; `none` is a write out of bounds.
abbrev pub Status {ℓ} : Type ℓ → Type ℓ
Status W = Option (Bool × Tables W)

-- find_rule, 0 where there is none
unfoldable pub find_rule :
    List IptablesColumns → CString → CString → CString → CString → CString → ℤ
find_rule [] sip sif dip dif target = ℤ.pos 0
find_rule (el ∷ rlist) sip sif dip dif target =
    if str_eq el.in_if sif
      && (str_eq el.out_if dif
          && (str_eq el.source sip && (str_eq el.destination dip && str_eq el.target target)))
    then el.num
    else find_rule rlist sip sif dip dif target

unfoldable pub find_baseif_rulenum : List IptablesColumns → CString → ℤ
find_baseif_rulenum [] ifname = ℤ.pos 0
find_baseif_rulenum (el ∷ rlist) ifname =
    if str_eq el.in_if ifname && (str_eq el.out_if (codes "*") && str_eq el.target (codes "REJECT"))
    then el.num
    else find_baseif_rulenum rlist ifname

-- %ld, as far as it fits the array of 10 bytes
unfoldable pub num_text : ℤ → Option CString
unfolding decimal
num_text (ℤ.pos n) = if ltb n (10 ^ 9) then some (decimal n) else none
num_text (ℤ.negsuc n) = if ltb (suc n) (10 ^ 8) then some (b'-' ∷ decimal (suc n)) else none

abbrev pub list_filter : List CString
list_filter = map codes ("-L" ∷ "FORWARD" ∷ "-t" ∷ "filter" ∷ "--line-numbers" ∷ "-n" ∷ "-v" ∷ [])

abbrev pub list_nat : List CString
list_nat = map codes ("-L" ∷ "POSTROUTING" ∷ "-t" ∷ "nat" ∷ "--line-numbers" ∷ "-n" ∷ "-v" ∷ [])

abbrev pub delete_filter : CString → List CString
delete_filter num = codes "-D" ∷ codes "FORWARD" ∷ num ∷ codes "-t" ∷ codes "filter" ∷ []

abbrev pub delete_postrouting : CString → List CString
delete_postrouting num = codes "-D" ∷ codes "POSTROUTING" ∷ num ∷ codes "-t" ∷ codes "nat" ∷ []

abbrev pub insert_filter : CString → CString → CString → CString → CString → List CString
insert_filter num sip sif dip dif =
    codes "-I"
    ∷ codes "FORWARD"
    ∷ num
    ∷ codes "-t"
    ∷ codes "filter"
    ∷ codes "--src"
    ∷ sip
    ∷ codes "--dst"
    ∷ dip
    ∷ codes "-i"
    ∷ sif
    ∷ codes "-o"
    ∷ dif
    ∷ codes "-j"
    ∷ codes "ACCEPT"
    ∷ []

abbrev pub insert_nat : CString → CString → List CString
insert_nat sip nif =
    codes "-I"
    ∷ codes "POSTROUTING"
    ∷ codes "1"
    ∷ codes "-t"
    ∷ codes "nat"
    ∷ codes "--src"
    ∷ sip
    ∷ codes "--dst"
    ∷ codes "0.0.0.0/0"
    ∷ codes "-o"
    ∷ nif
    ∷ codes "-j"
    ∷ codes "MASQUERADE"
    ∷ []

module _ {ℓ} {W : Type ℓ} (tool : Tool W) where
  -- With the output handled by list_rule_cb, or not at all.
  unfoldable pub run_iptables : Bool → List CString → Tables W → Bool × Tables W
  unfolding read_command_output
  run_iptables reads argv s =
      if s.exec_iptables
      then (
        (tool.exec argv s.world).0.0,
        record s {
          rule_list =
              if reads
              then read_command_output s.rule_list (tool.exec argv s.world).0.1
              else s.rule_list;
          world = (tool.exec argv s.world).1;
        },
      )
      else (true, s)

  -- if (... < 0) return -1;
  unfoldable pub or_return : Status W → (Tables W → Status W) → Status W
  or_return none rest = none
  or_return (some (true, s)) rest = rest s
  or_return (some (false, s)) rest = some (false, s)

  -- Whatever is returned, on.
  unfoldable pub and_go_on : Status W → (Tables W → Status W) → Status W
  and_go_on none rest = none
  and_go_on (some (ok, s)) rest = rest s

  -- if (... < 0) { undo; return -1; }
  unfoldable pub undo_on_failure : Status W → (Tables W → Status W) → Status W
  unfolding and_go_on
  undo_on_failure none undo = none
  undo_on_failure (some (true, s)) undo = some (true, s)
  undo_on_failure (some (false, s)) undo = and_go_on (undo s) (λ s1. some (false, s1))

  unfoldable pub get_rules : List CString → Tables W → Bool × Tables W
  unfolding run_iptables
  get_rules list_rule s =
      let ran = run_iptables true list_rule s in
      if ran.0 then (ltb 0 (length ran.1.rule_list), ran.1) else (false, ran.1)

  unfoldable pub get_filter_rules : Tables W → Bool × Tables W
  unfolding get_rules
  get_filter_rules = get_rules list_filter

  unfoldable pub get_nat_rules : Tables W → Bool × Tables W
  unfolding get_rules
  get_nat_rules = get_rules list_nat

  -- The command with a rule's number.
  unfoldable pub run_numbered : (CString → List CString) → ℤ → Tables W → Status W
  unfolding num_text run_iptables
  run_numbered command num s = elim (num_text num) [
    | none ↦ none
    | some num_buf ↦ some (run_iptables false (command num_buf) s)
  ]

  unfoldable pub delete_bridge_rule : CString → CString → CString → CString → Tables W → Status W
  unfolding get_filter_rules find_rule run_numbered
  delete_bridge_rule sip sif dip dif s =
      let got = get_filter_rules s in
      let num = find_rule got.1.rule_list sip sif dip dif (codes "ACCEPT") in
      if not got.0 && got.1.exec_iptables
      then some (false, got.1)
      else if int_eq num (ℤ.pos 0) && got.1.exec_iptables
      then some (true, got.1)
      else run_numbered delete_filter num got.1

  unfoldable pub iptables_delete_bridge :
      CString → CString → CString → CString → Tables W → Status W
  unfolding or_return delete_bridge_rule
  iptables_delete_bridge sip sif dip dif s =
      or_return (delete_bridge_rule sip sif dip dif s) (delete_bridge_rule dip dif sip sif)

  unfoldable pub add_bridge_rule : CString → CString → CString → CString → Tables W → Status W
  unfolding validate_ipv4_string get_filter_rules find_baseif_rulenum run_numbered
  add_bridge_rule sip sif dip dif s = elim (validate_ipv4_string tool.inet sip) [
    | none ↦ none
    | some valid ↦
        if not valid then some (false, s) else elim (validate_ipv4_string tool.inet dip) [
          | none ↦ none
          | some valid' ↦
              let got = get_filter_rules s in
              let num = find_baseif_rulenum got.1.rule_list sif in
              if not valid'
              then some (false, s)
              else if not got.0 && got.1.exec_iptables
              then some (false, got.1)
              else run_numbered (λ num_buf. insert_filter num_buf sip sif dip dif)
                  (if int_eq num (ℤ.pos 0) && got.1.exec_iptables then ℤ.pos 1 else num) got.1
        ]
  ]

  unfoldable pub iptables_add_bridge : CString → CString → CString → CString → Tables W → Status W
  unfolding iptables_delete_bridge and_go_on or_return undo_on_failure add_bridge_rule
      delete_bridge_rule
  iptables_add_bridge sip sif dip dif s =
      and_go_on (iptables_delete_bridge sip sif dip dif s) (λ s1.
        or_return (add_bridge_rule sip sif dip dif s1) (λ s2.
          undo_on_failure (add_bridge_rule dip dif sip sif s2)
            (delete_bridge_rule sip sif dip dif)))

  -- "No bridge rule found" is success, and an empty table too.
  unfoldable pub delete_nat_rule : CString → CString → Tables W → Status W
  unfolding get_nat_rules find_rule run_numbered
  delete_nat_rule sip nif s =
      let got = get_nat_rules s in
      let num =
        find_rule got.1.rule_list sip (codes "*") (codes "0.0.0.0/0") nif (codes "MASQUERADE") in
      if not got.0 && got.1.exec_iptables
      then some (true, got.1)
      else if int_eq num (ℤ.pos 0) && got.1.exec_iptables
      then some (true, got.1)
      else run_numbered delete_postrouting num got.1

  unfoldable pub iptables_delete_nat : CString → CString → CString → Tables W → Status W
  unfolding or_return iptables_delete_bridge delete_nat_rule
  iptables_delete_nat sip sif nif s =
      or_return (iptables_delete_bridge sip sif (codes "0.0.0.0/0") nif s) (delete_nat_rule sip nif)

  unfoldable pub iptables_add_nat : CString → CString → CString → Tables W → Status W
  unfolding or_return iptables_delete_nat add_bridge_rule undo_on_failure iptables_delete_bridge
      run_iptables
  iptables_add_nat sip sif nif s =
      let undo = iptables_delete_bridge sip sif (codes "0.0.0.0/0") nif in
      or_return (iptables_delete_nat sip sif nif s) (λ s1.
        or_return (add_bridge_rule sip sif (codes "0.0.0.0/0") nif s1) (λ s2.
          or_return
            (undo_on_failure
              (some
                (run_iptables false (insert_filter (codes "1") (codes "0.0.0.0/0") nif sip sif) s2))
              undo)
            (λ s3. undo_on_failure (some (run_iptables false (insert_nat sip nif) s3)) undo)))

  -- The rules that flush_iptables runs, to the first that fails.
  unfoldable pub run_all : List (List CString) → Tables W → Bool × Tables W
  unfolding run_iptables
  run_all [] s = (true, s)
  run_all (rule ∷ rules) s =
      let ran = run_iptables false rule s in
      let rest = run_all rules ran.1 in if ran.0 then rest else (false, ran.1)

  abbrev pub basic_flush_rules : List (List CString)
  basic_flush_rules = map (map codes) (
      ("-P" ∷ "INPUT" ∷ "ACCEPT" ∷ [])
      ∷ ("-P" ∷ "FORWARD" ∷ "ACCEPT" ∷ [])
      ∷ ("-P" ∷ "OUTPUT" ∷ "ACCEPT" ∷ [])
      ∷ ("-F" ∷ "-t" ∷ "nat" ∷ [])
      ∷ ("-F" ∷ "-t" ∷ "mangle" ∷ [])
      ∷ ("-F" ∷ [])
      ∷ ("-X" ∷ [])
      ∷ ("-A" ∷ "FORWARD" ∷ "-t" ∷ "filter" ∷ "--src" ∷ "224.0.0.0/4" ∷ "--dst" ∷ "224.0.0.0/4"
          ∷ "-j" ∷ "ACCEPT" ∷ [])
      ∷ [])

  unfoldable pub flush_iptables : Tables W → Bool × Tables W
  unfolding run_all
  flush_iptables = run_all basic_flush_rules

  abbrev pub reject_rule : CString → List CString
  reject_rule ifname =
      codes "-A"
      ∷ codes "FORWARD"
      ∷ codes "-t"
      ∷ codes "filter"
      ∷ codes "-i"
      ∷ ifname
      ∷ codes "-j"
      ∷ codes "REJECT"
      ∷ []

  -- The array is not NULL; its elements are the names.
  unfoldable pub add_baseif_rules : List CString → Tables W → Bool × Tables W
  unfolding run_all
  add_baseif_rules ifnames = run_all (map reject_rule ifnames)

  -- A NULL path, `none`, an empty one, or a rule that fails gives NULL.
  unfoldable pub iptables_init : Option CString → List CString → Bool → W → Option (Tables W) × W
  unfolding flush_iptables add_baseif_rules
  iptables_init none ifnames exec_iptables world = (none, world)
  iptables_init (some []) ifnames exec_iptables world = (none, world)
  iptables_init (some (c ∷ path)) ifnames exec_iptables world =
      let flushed =
        flush_iptables (record { rule_list = []; exec_iptables = exec_iptables; world = world }) in
      let based = add_baseif_rules ifnames flushed.1 in
      if flushed.0
      then (if based.0 then (some based.1, based.1.world) else (none, based.1.world))
      else (none, flushed.1.world)
