-- ===== src/Supervisor/Texts.antt =====
-- The numbers and lines in the texts of src/supervisor/cmd_processor.c: strtoul as it is used
-- there, and what snprintf writes.
use edgesec.Common.{
  ℕ, zero, suc, ◌+◌, ◌-◌, ◌/◌, ◌%◌, ◌^◌, ltb, leb, ◌==◌, if◌then◌else◌, Bool, true, false, Option,
  none, some, [], ◌∷◌, ◌++◌, CString, Mac, ℤ, take,
}
use edgesec.Utils.Strings.{is_blank, is_number}
use edgesec.Utils.Net.{digits_value, mac_str}
use edgesec.Supervisor.MacMapper.{ApConnectionStatus, MacConnInfo}

-- The white space that strtoul passes over.
skip_blanks : CString → CString
skip_blanks [] = []
skip_blanks (c ∷ s) = let rest = skip_blanks s in if is_blank c then rest else c ∷ s

-- The value, negated where the text has a '-'; ERANGE, `none`, where it does not fit 64 bits.
in_range : Bool → ℕ → Option ℕ
in_range negative v =
    if leb (2 ^ 64) v then none else if negative then some ((2 ^ 64 - v) % 2 ^ 64) else some v

strtoul_signed : CString → Option ℕ
unfolding in_range
strtoul_signed [] = some 0
strtoul_signed (c ∷ s) =
    if c == b'-'
    then in_range true (digits_value 0 s)
    else if c == b'+'
    then in_range false (digits_value 0 s)
    else in_range false (digits_value 0 (c ∷ s))

-- strtoul(s, NULL, 10)
unfoldable pub strtoul : CString → Option ℕ
unfolding skip_blanks strtoul_signed
strtoul s = strtoul_signed (skip_blanks s)

-- The conversion to int keeps the lower 32 bits.
unfoldable pub to_int : ℕ → ℤ
to_int n = let m = n % 2 ^ 32 in if ltb m (2 ^ 31) then ℤ.pos m else ℤ.negsuc (2 ^ 32 - 1 - m)

-- The VLAN in the text: (int) strtoul, refused on ERANGE and where is_number is false.
unfoldable pub read_vlanid : CString → Option ℤ
unfolding strtoul to_int
read_vlanid s = elim (strtoul s) [
  | none ↦ none
  | some n ↦ if is_number (some s) then some (to_int n) else none
]

-- The decimal digits; 20 rounds are enough for 64 bits.
decimal_upto : ℕ → ℕ → CString
decimal_upto zero n = []
decimal_upto (suc fuel) n =
    let more = decimal_upto fuel (n / 10) in
    if ltb n 10 then (b'0' + n) ∷ [] else more ++ (b'0' + n % 10) ∷ []

unfoldable pub decimal : ℕ → CString
unfolding decimal_upto
decimal n = decimal_upto 20 n

int_text : ℤ → CString
unfolding decimal
int_text (ℤ.pos n) = decimal n
int_text (ℤ.negsuc n) = b'-' ∷ decimal (suc n)

flag_text : Bool → CString
flag_text b = if b then b'1' ∷ [] else b'0' ∷ []

status_text : ApConnectionStatus → CString
status_text ApConnectionStatus.ap_default_status = b'0' ∷ []
status_text ApConnectionStatus.ap_connected_status = b'1' ∷ []
status_text ApConnectionStatus.ap_disconnected_status = b'2' ∷ []

-- The line of a device, as the format in GET_MAP and GET_ALL has it, in full.
unfoldable pub device_line : Mac → MacConnInfo → CString
unfolding int_text flag_text status_text decimal
device_line mac info =
    (if info.allow_connection then b'a' ∷ [] else b'd' ∷ [])
    ++ b',' ∷ mac_str mac
    ++ b',' ∷ info.ip_addr
    ++ b',' ∷ info.ip_sec_addr
    ++ b',' ∷ int_text info.vlanid
    ++ b',' ∷ flag_text info.nat
    ++ b',' ∷ info.label
    ++ b',' ∷ info.id
    ++ b',' ∷ flag_text (ltb 0 info.pass_len)
    ++ b',' ∷ decimal info.join_timestamp
    ++ b',' ∷ status_text info.status
    ++ 10 ∷ []

-- The size of `temp`, in which snprintf puts a line.
abbrev pub line_max : ℕ
line_max = 255

-- snprintf keeps what fits, with the NUL.
unfoldable pub cut_line : CString → CString
cut_line line = take (line_max - 1) line

unfoldable pub bridge_line : Mac × Mac → CString
bridge_line (src_addr, dst_addr) = mac_str src_addr ++ b',' ∷ mac_str dst_addr ++ 10 ∷ []
