-- ===== src/Utils/Net.antt =====
-- src/utils/net.c: IP addresses and MAC addresses as text. inet_pton and inet_network belong to
-- the C library, and are parameters.
pub mod MacText
pub mod Address
use edgesec.Common.{
  ℕ, zero, suc, ◌+◌, ◌-◌, ◌*◌, ◌/◌, ◌%◌, ◌^◌, ltb, leb, ◌==◌, if◌then◌else◌, Bool, true, false, not,
  ◌&&◌, ◌||◌, Option, none, some, List, [], ◌∷◌, ◌++◌, CString, codes, length, take, os_strlcpy,
  Mac, ℤ,
}
use mathlib.Core.Option
use Prim.Native.Nat.{bit_and}
use edgesec.Utils.Strings.{is_number, hex2num, is_sign, is_digit}

-- `pton` gives the address if the text is one; `network` gives INADDR_NONE if it is not.
pub record Inet : Type 0 where
  pub pton : CString → Option ℕ
  pub network : CString → ℕ

-- OS_INET_ADDRSTRLEN
abbrev pub os_inet_addrstrlen : ℕ
os_inet_addrstrlen = 22

-- The text behind the first '/', as strchr gives it, and the number of bytes before.
unfoldable pub find_slash : CString → Option (ℕ × CString)
find_slash [] = none
find_slash (c ∷ s) =
    if c == b'/' then some (0, s) else Option.map (λ p. (suc p.0, p.1)) (find_slash s)

unfoldable pub digits_value : ℕ → CString → ℕ
digits_value acc [] = acc
digits_value acc (c ∷ s) =
    let more = digits_value (acc * 10 + (c - b'0')) s in if is_digit c then more else acc

-- strtol(s, NULL, 10) > 32, on a text that is_number accepts: a sign, then digits.
unfoldable pub strtol_above_32 : CString → Bool
unfolding digits_value
strtol_above_32 [] = false
strtol_above_32 (c ∷ s) =
    if c == b'-'
    then false
    else if c == b'+'
    then ltb 32 (digits_value 0 s)
    else ltb 32 (digits_value 0 (c ∷ s))

is_address : Inet → CString → Bool
is_address inet s = elim (inet.pton s) [ none ↦ false | some a ↦ true ]

-- `none`: the bytes before the '/' do not fit `proc_ip`, which is on the stack, so that
-- os_strlcpy, told to copy that many, writes behind it.
unfoldable pub validate_ipv4_string : Inet → CString → Option Bool
unfolding is_address
validate_ipv4_string inet ip = elim (find_slash ip) [
  | none ↦ some (is_address inet (os_strlcpy ip os_inet_addrstrlen))
  | some (ip_len, mask) ↦
      if ltb os_inet_addrstrlen (ip_len + 1)
      then none
      else if ltb 2 (length mask) || ltb (length mask) 1
      then some false
      else if not (is_number (some mask))
      then some false
      else if strtol_above_32 mask
      then some false
      else some (is_address inet (os_strlcpy ip (ip_len + 1)))
]

-- INADDR_NONE
abbrev pub inaddr_none : ℕ
inaddr_none = 0xffffffff

-- -1 is `none`.
unfoldable pub ip_2_nbo : Inet → CString → CString → Option ℕ
ip_2_nbo inet ip subnet_mask =
    if inet.network subnet_mask == inaddr_none
    then none
    else if inet.network ip == inaddr_none
    then none
    else some (bit_and (inet.network ip) (inet.network subnet_mask))

-- The loop of get_short_subnet, with the rounds that are left: `shift` is a power of two, so
-- `addr & shift` tests one bit.
unfoldable pub count_mask : ℕ → ℕ → ℕ → ℕ → ℕ
count_mask zero addr shift short_mask = short_mask
count_mask (suc i) addr shift short_mask =
    count_mask i addr (shift / 2)
      (if addr / shift % 2 == 1 then (short_mask + 1) % 256 else short_mask)

-- A uint8_t, so -1 is 255.
unfoldable pub get_short_subnet : Inet → CString → ℕ
unfolding count_mask
get_short_subnet inet subnet_mask =
    let addr = inet.network subnet_mask in
    if addr == inaddr_none then 255 else count_mask 31 addr 0x80000000 0

abbrev is_separator : ℕ → Bool
is_separator c = (c == b':') || ((c == b'.') || (c == b'-'))

unfoldable pub skip_separators : CString → CString
skip_separators [] = []
skip_separators (c ∷ s) = let rest = skip_separators s in if is_separator c then rest else c ∷ s

-- One round of the loop of edge_hwaddr_aton2: a byte, and the text behind it.
unfoldable pub aton_pair : CString → Option (ℕ × CString)
aton_pair [] = none
aton_pair (c ∷ []) = none
aton_pair (c ∷ d ∷ s) = elim (hex2num c) [
  | none ↦ none
  | some a ↦ elim (hex2num d) [ none ↦ none | some b ↦ some (a * 16 + b, s) ]
]

unfoldable pub aton_bytes : ℕ → CString → Option (List ℕ × CString)
unfolding aton_pair skip_separators
aton_bytes zero s = some ([], s)
aton_bytes (suc n) s = elim (aton_pair (skip_separators s)) [
  | none ↦ none
  | some (b, rest) ↦ elim (aton_bytes n rest) [ none ↦ none | some (bs, end) ↦ some (b ∷ bs, end) ]
]

to_mac : List ℕ → Option Mac
to_mac (a ∷ b ∷ c ∷ d ∷ e ∷ f ∷ []) =
    some (record { b0 = a; b1 = b; b2 = c; b3 = d; b4 = e; b5 = f })
to_mac _ = none

-- The address and the number of bytes read; -1 is `none`.
unfoldable pub hwaddr_aton2 : CString → Option (Mac × ℕ)
unfolding to_mac
hwaddr_aton2 txt = elim (aton_bytes 6 txt) [
  | none ↦ none
  | some (bytes, end) ↦ Option.map (λ m. (m, length txt - length end)) (to_mac bytes)
]

-- printf's %02x of a byte.
abbrev pub hex_digit : ℕ → ℕ
hex_digit n = if ltb n 10 then b'0' + n else b'a' + (n - 10)

abbrev pub hex_byte : ℕ → CString
hex_byte n = hex_digit (n / 16) ∷ hex_digit (n % 16) ∷ []

-- ":%02x" for each byte.
unfoldable pub colon_bytes : List ℕ → CString
colon_bytes [] = []
colon_bytes (b ∷ bs) = b':' ∷ hex_byte b ++ colon_bytes bs

-- sprintf(mac_str, MACSTR, MAC2STR(mac)).
unfoldable pub mac_str : Mac → CString
mac_str m = hex_byte m.b0 ++ colon_bytes (m.b1 ∷ m.b2 ∷ m.b3 ∷ m.b4 ∷ m.b5 ∷ [])
