-- ===== src/Utils/Net/MacText.antt =====
-- Printing and reading a MAC address: MACSTR and edge_hwaddr_aton2 of src/utils/net.c.
use edgesec.Common.{
  ℕ, ◌/◌, ◌%◌, ◌<◌, ◌≡◌, refl, some, List, [], ◌∷◌, ◌++◌, CString, Mac, All, length, arith,
}
use edgesec.Utils.Strings.{hex2num}
use edgesec.Utils.Net.{
  hex_digit, hex_byte, colon_bytes, mac_str, hwaddr_aton2, aton_bytes, aton_pair, skip_separators,
}

-- The six bytes fit.
pub record IsBytes (m : Mac) : Type 0 where
  pub fit0 : m.b0 < 256
  pub fit1 : m.b1 < 256
  pub fit2 : m.b2 < 256
  pub fit3 : m.b3 < 256
  pub fit4 : m.b4 < 256
  pub fit5 : m.b5 < 256

hex2num-hex_digit : (n : ℕ) → n < 16 → hex2num (hex_digit n) ≡ some n
unfolding hex2num
hex2num-hex_digit n h = ground arith

aton_pair-hex_byte :
    (n : ℕ) (rest : CString)
    → n < 256
    → aton_pair (skip_separators (hex_byte n ++ rest)) ≡ some (n, rest)
unfolding aton_pair skip_separators
aton_pair-hex_byte n rest h = ground (arith, hex2num-hex_digit (n / 16), hex2num-hex_digit (n % 16))

aton_bytes-colon_bytes :
    (bs : List ℕ) → All (λ b. b < 256) bs → aton_bytes (length bs) (colon_bytes bs) ≡ some (bs, [])
unfolding aton_bytes colon_bytes
aton_bytes-colon_bytes [] h = refl
aton_bytes-colon_bytes (b ∷ bs) h = ground (
  arith,
  colon_lem (hex_byte b ++ colon_bytes bs),
  aton_pair-hex_byte b (colon_bytes bs) h.0,
  aton_bytes-colon_bytes bs h.1,
)
  where
    colon_lem : (s : CString) → skip_separators (b':' ∷ s) ≡ skip_separators s
    colon_lem s = unfold skip_separators in refl

aton_bytes-mac_str :
    (m : Mac)
    → IsBytes m
    → aton_bytes 6 (mac_str m) ≡ some (m.b0 ∷ m.b1 ∷ m.b2 ∷ m.b3 ∷ m.b4 ∷ m.b5 ∷ [], [])
unfolding aton_bytes mac_str
aton_bytes-mac_str m h = ground (
  arith,
  aton_pair-hex_byte m.b0 (colon_bytes (m.b1 ∷ m.b2 ∷ m.b3 ∷ m.b4 ∷ m.b5 ∷ [])) h.fit0,
  aton_bytes-colon_bytes (m.b1 ∷ m.b2 ∷ m.b3 ∷ m.b4 ∷ m.b5 ∷ [])
      (h.fit1, (h.fit2, (h.fit3, (h.fit4, (h.fit5, tt))))),
)

length-mac_str : (m : Mac) → length (mac_str m) ≡ 17
unfolding mac_str colon_bytes
length-mac_str m = refl

-- hwaddr_aton2 reads back the address that MACSTR prints, all its 17 bytes.
pub hwaddr_aton2-mac_str : (m : Mac) → IsBytes m → hwaddr_aton2 (mac_str m) ≡ some (m, 17)
unfolding hwaddr_aton2
hwaddr_aton2-mac_str m h = ground (arith, aton_bytes-mac_str m h, length-mac_str m)
