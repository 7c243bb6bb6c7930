-- ===== src/Utils/Iptables.antt =====
-- src/utils/iptables.c: the rules that iptables lists, and the commands that change them. A listing
-- comes in the pieces that read_command_output of src/utils/os.c reads from the pipe.
pub mod Listing
pub mod Commands
mod Examples
use edgesec.Common.{
  ℕ, zero, suc, ◌+◌, ◌-◌, ◌*◌, ◌^◌, ltb, leb, ◌==◌, if◌then◌else◌, Bool, true, false, not, ◌&&◌,
  ◌||◌, Option, none, some, List, [], ◌∷◌, ◌++◌, CString, codes, ℤ, int_eq, length, str_eq,
  os_strlcpy,
}
use edgesec.Utils.Strings.{split_string_array, is_digit}
use edgesec.Utils.Net.{digits_value, os_inet_addrstrlen}
use edgesec.Utils.IfaceMapper.{if_namesize}

-- struct iptables_columns, with the names of its fields `in` and `out` made longer
pub record IptablesColumns : Type 0 where
  pub num : ℤ
  pub target : CString
  pub in_if : CString
  pub out_if : CString
  pub source : CString
  pub destination : CString

abbrev pub no_columns : IptablesColumns
no_columns = record {
  num = ℤ.pos 0;
  target = [];
  in_if = [];
  out_if = [];
  source = [];
  destination = [];
}

abbrev pub target_size : ℕ
target_size = 20

-- LONG_MAX
abbrev pub long_max : ℕ
long_max = 2 ^ 63 - 1

-- The value of strtol(s, &endptr, 10), and whether it stands and has a digit.
unfoldable pub number_or_end : Bool → CString → ℤ × Bool
number_or_end negative [] = (ℤ.pos 0, false)
number_or_end negative (c ∷ s) =
    let v = digits_value 0 (c ∷ s) in
    if not (is_digit c)
    then (ℤ.pos 0, false)
    else if negative
    then (if ltb (long_max + 1) v
        then (ℤ.negsuc long_max, false)
        else (if v == 0 then ℤ.pos 0 else ℤ.negsuc (v - 1), true))
    else (if ltb long_max v then (ℤ.pos long_max, false) else (ℤ.pos v, true))

unfoldable pub is_space : ℕ → Bool
is_space c = (c == 32) || (leb 9 c && leb c 13)

unfoldable pub strtol : CString → ℤ × Bool
unfolding number_or_end is_space
strtol [] = (ℤ.pos 0, false)
strtol (c ∷ s) =
    let rest = strtol s in
    if is_space c
    then rest
    else if c == b'-'
    then number_or_end true s
    else if c == b'+'
    then number_or_end false s
    else number_or_end false (c ∷ s)

-- One word in the state of the switch.
unfoldable pub process_word : ℕ → CString → IptablesColumns → ℕ × IptablesColumns
unfolding strtol
process_word state p row =
    if state == 0
    then (if (strtol p).1 then 1 else 10, record row { num = (strtol p).0 })
    else if state == 3
    then (4, record row { target = os_strlcpy p target_size })
    else if state == 6
    then (7, record row { in_if = os_strlcpy p if_namesize })
    else if state == 7
    then (8, record row { out_if = os_strlcpy p if_namesize })
    else if state == 8
    then (9, record row { source = os_strlcpy p os_inet_addrstrlen })
    else if state == 9
    then (10, record row { destination = os_strlcpy p os_inet_addrstrlen })
    else if state == 10
    then (10, row)
    else (suc state, row)

unfoldable pub process_words : ℕ → IptablesColumns → List CString → IptablesColumns
unfolding process_word
process_words state row [] = row
process_words state row ([] ∷ ps) = process_words state row ps
process_words state row ((c ∷ p) ∷ ps) =
    process_words (process_word state (c ∷ p) row).0 (process_word state (c ∷ p) row).1 ps

unfoldable pub process_rule_column : CString → IptablesColumns
unfolding process_words
process_rule_column column = process_words 0 no_columns (split_string_array column 0x20)

-- The lines behind the header; the rows that were read before a failure, and whether there was none.
unfoldable pub process_lines : List IptablesColumns → List CString → List IptablesColumns × Bool
unfolding process_rule_column
process_lines rule_list [] = (rule_list, true)
process_lines rule_list (p ∷ ps) =
    let rest = process_lines rule_list ps in
    let more = process_lines (rule_list ++ process_rule_column p ∷ []) ps in
    if ltb 1 (length p)
    then (if int_eq (process_rule_column p).num (ℤ.pos 0) then (rule_list, false) else more)
    else rest

unfoldable pub process_rule_lines : List IptablesColumns → CString → List IptablesColumns × Bool
unfolding process_lines
process_rule_lines rule_list rule_str = elim (split_string_array rule_str 10) [
  | [] ↦ (rule_list, true)
  | first ∷ more ↦ elim more [
    | [] ↦ (rule_list, true)
    | second ∷ lines ↦ process_lines rule_list lines
  ]
]

-- The piece, which has no NUL byte, takes the place of what was read before.
unfoldable pub list_rule_cb : List IptablesColumns → CString → List IptablesColumns
unfolding process_rule_lines
list_rule_cb rule_list buf =
    if (process_rule_lines [] buf).1 then (process_rule_lines [] buf).0 else []

-- read_command_output
unfoldable pub read_command_output : List IptablesColumns → List CString → List IptablesColumns
unfolding list_rule_cb
read_command_output rule_list [] = rule_list
read_command_output rule_list (buf ∷ bufs) = read_command_output (list_rule_cb rule_list buf) bufs
