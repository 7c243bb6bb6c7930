-- ===== src/Utils/Iptables/Listing.antt =====
-- What process_rule_lines of src/utils/iptables.c reads from a listing.
use edgesec.Common.{
  ℕ, zero, suc, ◌≤◌, ◌<◌, ◌≡◌, refl, sym, ap, ◌∙◌, ltb, ◌==◌, true, false, List, [], ◌∷◌, ◌++◌,
  CString, ℤ, int_eq, length, take, arith,
}
use mathlib.Core.List.{append_assoc, append-nil}
use edgesec.Utils.Strings.{split_string_array}
use edgesec.Utils.Strings.Split.{join, Separated, split_string_array-join}
use edgesec.Utils.Iptables.{
  IptablesColumns, no_columns, target_size, strtol, process_word, process_words,
  process_rule_column, process_lines, process_rule_lines, list_rule_cb, read_command_output,
}

-- Rules with the numbers of their places.
abbrev pub numbered : ℕ → List IptablesColumns → List IptablesColumns
numbered n [] = []
numbered n (rule ∷ rules) = record rule { num = ℤ.pos n } ∷ numbered (suc n) rules

-- The words of a line: blanks may stand in any number.
abbrev pub words : List CString → List CString
words [] = []
words ([] ∷ ps) = words ps
words ((c ∷ p) ∷ ps) = (c ∷ p) ∷ words ps

-- A word of at most `size - 1` bytes and at least one.
abbrev pub Fits : ℕ → CString → Type 0
Fits size s = (0 < length s) × (length s < size)

-- The line of a rule: its number, the counts of packets and bytes, and the columns.
pub record Line (n : ℕ) (rule : IptablesColumns) (line : CString) : Type 0 where
  pub numeral : CString
  pub packets : CString
  pub bytes : CString
  pub protocol : CString
  pub option : CString
  pub more : List CString
  pub layout :
      words (split_string_array line 0x20)
      ≡ numeral ∷ packets ∷ bytes ∷ rule.target ∷ protocol ∷ option ∷ rule.in_if ∷ rule.out_if
        ∷ rule.source ∷ rule.destination ∷ more
  pub value : strtol numeral ≡ (ℤ.pos n, true)
  pub fits_target : length rule.target < target_size
  pub fits_in_if : length rule.in_if < 16
  pub fits_out_if : length rule.out_if < 16
  pub fits_source : length rule.source < 22
  pub fits_destination : length rule.destination < 22

abbrev pub Lines : ℕ → List IptablesColumns → List CString → Type 0
Lines n [] [] = Unit
Lines n [] (line ∷ lines) = ⊥
Lines n (rule ∷ rules) [] = ⊥
Lines n (rule ∷ rules) (line ∷ lines) =
    Line n rule line × (1 < length line) × Lines (suc n) rules lines

-- Two lines of header, the lines of the rules, and a newline behind each.
pub record Listing (rules : List IptablesColumns) (text : CString) : Type 0 where
  pub title : CString
  pub heading : CString
  pub lines : List CString
  pub layout : text ≡ join 10 (title ∷ heading ∷ (lines ++ [] ∷ []))
  pub separated : Separated 10 (title ∷ heading ∷ (lines ++ [] ∷ []))
  pub rows : Lines 1 rules lines

take-all : (n : ℕ) (s : CString) → length s ≤ n → take n s ≡ s
take-all zero [] h = refl
take-all zero (c ∷ s) h = absurd (omega arith)
take-all (suc n) [] h = refl
take-all (suc n) (c ∷ s) h = ap (λ t. c ∷ t) (take-all n s (omega arith))

each_word : ℕ → IptablesColumns → List CString → IptablesColumns
each_word state row [] = row
each_word state row (p ∷ ps) =
    each_word (process_word state p row).0 (process_word state p row).1 ps

process_words-words :
    (state : ℕ) (row : IptablesColumns) (ps : List CString)
    → process_words state row ps ≡ each_word state row (words ps)
unfolding process_words each_word
process_words-words state row [] = refl
process_words-words state row ([] ∷ ps) = process_words-words state row ps
process_words-words state row ((c ∷ p) ∷ ps) =
    process_words-words (process_word state (c ∷ p) row).0 (process_word state (c ∷ p) row).1 ps

each_word-behind : (row : IptablesColumns) (ps : List CString) → each_word 10 row ps ≡ row
unfolding each_word process_word
each_word-behind row [] = refl
each_word-behind row (p ∷ ps) = each_word-behind row ps

each_word-columns :
    (numeral packets bytes target protocol option in_if out_if source destination : CString)
    (more : List CString) (num : ℤ)
    → strtol numeral ≡ (num, true)
    → each_word 0 no_columns (
        numeral ∷ packets ∷ bytes ∷ target ∷ protocol ∷ option ∷ in_if ∷ out_if ∷ source
        ∷ destination ∷ more)
      ≡ record {
        num = num;
        target = take 19 target;
        in_if = take 15 in_if;
        out_if = take 15 out_if;
        source = take 21 source;
        destination = take 21 destination;
      }
unfolding each_word process_word
each_word-columns numeral packets bytes target protocol option in_if out_if source destination more
      num value =
    rw value (each_word-behind _ more)

process_rule_column-Line :
    (n : ℕ) (rule : IptablesColumns) (line : CString)
    → Line n rule line
    → process_rule_column line ≡ record rule { num = ℤ.pos n }
unfolding process_rule_column
process_rule_column-Line n rule line h =
    process_words-words 0 no_columns (split_string_array line 0x20)
    ∙ ap (each_word 0 no_columns) h.layout
    ∙ each_word-columns h.numeral h.packets h.bytes rule.target h.protocol h.option rule.in_if
        rule.out_if rule.source rule.destination h.more (ℤ.pos n) h.value
    ∙ rw
        (
          take-all 19 rule.target (omega (arith, h.fits_target)),
          take-all 15 rule.in_if (omega (arith, h.fits_in_if)),
          take-all 15 rule.out_if (omega (arith, h.fits_out_if)),
          take-all 21 rule.source (omega (arith, h.fits_source)),
          take-all 21 rule.destination (omega (arith, h.fits_destination)),
        )
        refl

process_lines-Lines :
    (n : ℕ) (acc rules : List IptablesColumns) (lines : List CString)
    → 0 < n
    → Lines n rules lines
    → process_lines acc (lines ++ [] ∷ []) ≡ (acc ++ numbered n rules, true)
unfolding process_lines int_eq
process_lines-Lines n acc [] [] pos h = ap (λ rows. (rows, true)) (sym (append-nil acc))
process_lines-Lines n acc [] (line ∷ lines) pos h = absurd h
process_lines-Lines n acc (rule ∷ rules) [] pos h = absurd h
process_lines-Lines n acc (rule ∷ rules) (line ∷ lines) pos (row, long, rest) =
    rw (long_line, process_rule_column-Line n rule line row, not_zero)
      (process_lines-Lines (suc n) (acc ++ record rule { num = ℤ.pos n } ∷ []) rules lines
          (omega arith) rest
        ∙ ap (λ rows. (rows, true))
            (append_assoc acc (record rule { num = ℤ.pos n } ∷ []) (numbered (suc n) rules)))
  where
    long_line : ltb 1 (length line) ≡ true
    long_line = ground (arith, long)

    not_zero : (n == 0) ≡ false
    not_zero = ground (arith, pos)

process_rule_lines-behind :
    (acc : List IptablesColumns) (text title heading : CString) (lines : List CString)
    → split_string_array text 10 ≡ title ∷ heading ∷ lines
    → process_rule_lines acc text ≡ process_lines acc lines
unfolding process_rule_lines
process_rule_lines-behind acc text title heading lines h = rw (process_rule_lines, h) refl

-- A listing that comes in one piece is read as its rules in their order, with their numbers.
pub list_rule_cb-Listing :
    (old rules : List IptablesColumns) (text : CString)
    → Listing rules text
    → list_rule_cb old text ≡ numbered 1 rules
unfolding list_rule_cb
list_rule_cb-Listing old rules text h =
    let split : split_string_array text 10 ≡ h.title ∷ h.heading ∷ (h.lines ++ [] ∷ []) =
      ap (λ t. split_string_array t 10) h.layout
      ∙ split_string_array-join h.title (h.heading ∷ (h.lines ++ [] ∷ [])) 10 h.separated in
    let read : process_rule_lines [] text ≡ (numbered 1 rules, true) =
      process_rule_lines-behind [] text h.title h.heading (h.lines ++ [] ∷ []) split
      ∙ process_lines-Lines 1 [] rules h.lines (omega arith) h.rows in
    rw read refl

-- The rules in all pieces of the output but the last are forgotten.
pub read_command_output-last :
    (rule_list : List IptablesColumns) (bufs : List CString) (buf : CString)
    → read_command_output rule_list (bufs ++ buf ∷ []) ≡ list_rule_cb [] buf
unfolding read_command_output list_rule_cb
read_command_output-last rule_list [] buf = refl
read_command_output-last rule_list (b ∷ bufs) buf =
    read_command_output-last (list_rule_cb rule_list b) bufs buf
