-- ===== src/Utils/Strings.antt =====
-- src/utils/os.c: the string helpers.
pub mod Split
pub mod Trim
use edgesec.Common.{
  ℕ, zero, suc, ◌+◌, ◌-◌, ◌%◌, leb, ◌==◌, if◌then◌else◌, Bool, true, false, ◌&&◌, ◌||◌, Option,
  none, some, List, [], ◌∷◌, ◌++◌, map, CString,
}

-- MAX_64BIT_DIGITS
abbrev pub max_64bit_digits : ℕ
max_64bit_digits = 19

abbrev pub is_digit : ℕ → Bool
is_digit c = leb b'0' c && leb c b'9'

abbrev pub is_sign : ℕ → Bool
is_sign c = (c == b'-') || (c == b'+')

-- The loop of is_number, with the rounds that are left.
unfoldable pub digits_upto : ℕ → CString → Bool
digits_upto zero s = true
digits_upto (suc n) [] = true
digits_upto (suc n) (c ∷ s) = is_digit c && digits_upto n s

unfoldable pub is_number : Option CString → Bool
unfolding digits_upto
is_number none = false
is_number (some []) = false
is_number (some (c ∷ [])) = if is_sign c then false else digits_upto max_64bit_digits (c ∷ [])
is_number (some (c ∷ d ∷ s)) =
    if is_sign c
    then digits_upto (max_64bit_digits - 1) (d ∷ s)
    else digits_upto max_64bit_digits (c ∷ d ∷ s)

-- -1 is `none`.
unfoldable pub hex2num : ℕ → Option ℕ
hex2num c =
    if leb b'0' c && leb c b'9'
    then some (c - b'0')
    else if leb b'a' c && leb c b'f'
    then some (c - b'a' + 10)
    else if leb b'A' c && leb c b'F'
    then some (c - b'A' + 10)
    else none

-- The separators that rtrim takes when it is given none.
abbrev pub is_blank : ℕ → Bool
is_blank c = (c == 9) || ((c == 10) || ((c == 11) || ((c == 12) || ((c == 13) || (c == 32)))))

trim_before : ℕ → CString → CString
trim_before c [] = if is_blank c then [] else c ∷ []
trim_before c (d ∷ t) = c ∷ d ∷ t

-- rtrim(str, NULL): a byte goes if it is blank and all behind it have gone.
unfoldable pub rtrim : CString → CString
unfolding trim_before
rtrim [] = []
rtrim (c ∷ s) = trim_before c (rtrim s)

-- string_append_char, where the allocation succeeds.
unfoldable pub string_append_char : CString → ℕ → CString
string_append_char s c = s ++ c ∷ []

-- What os_get_random_number_s makes of random bytes.
unfoldable pub os_get_random_number_s : List ℕ → CString
os_get_random_number_s bytes = map (λ b. b % 10 + b'0') bytes

-- The loop of split_string with fn_split_string_array: `word` holds the bytes from `start` up to
-- `stop`.
unfoldable pub split_from : ℕ → CString → CString → List CString
split_from sep word [] = word ∷ []
split_from sep word (c ∷ s) =
    let next = split_from sep [] s in
    let longer = split_from sep (word ++ c ∷ []) s in if c == sep then word ∷ next else longer

unfoldable pub split_string_array : CString → ℕ → List CString
unfolding split_from
split_string_array s sep = split_from sep [] s
