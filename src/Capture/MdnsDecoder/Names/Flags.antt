-- ===== src/Capture/MdnsDecoder/Names/Flags.antt =====
-- The flags and the offset of a compression pointer in plain arithmetic, for the bit operations of
-- src/capture/middlewares/header_middleware/mdns_decoder.c.
use edgesec.Common.{
  ℕ, ◌+◌, ◌-◌, ◌*◌, ◌<◌, ◌==◌, ◌≡◌, refl, ap, true, false, not, arith, for_all_below,
  for_all_below_lem,
}
use native.Mathlib.Decide.{dec_lt}
use edgesec.Capture.MdnsDecoder.{is_compressed, get_mdns_query_offset, pointer_offset}

-- The tests of every byte.
plain-all : for_all_below 192 (λ b. not (is_compressed b)) ≡ true
unfolding is_compressed
plain-all = refl

compressed-all : for_all_below 64 (λ b. is_compressed (192 + b)) ≡ true
unfolding is_compressed
compressed-all = refl

offset-all :
    for_all_below 64
      (λ high. for_all_below 256 (λ low. pointer_offset (192 + high) low == high * 256 + low))
    ≡ true
unfolding pointer_offset get_mdns_query_offset
offset-all = refl

pub is_plain : (b : ℕ) → b < 192 → is_compressed b ≡ false
is_plain b lt = ground (arith, for_all_below_lem 192 (λ n. not (is_compressed n)) plain-all b lt)

pub is_pointer : (high : ℕ) → high < 64 → is_compressed (192 + high) ≡ true
is_pointer high lt = for_all_below_lem 64 (λ n. is_compressed (192 + n)) compressed-all high lt

pub offset_is :
    (high low : ℕ) → high < 64 → low < 256 → pointer_offset (192 + high) low ≡ high * 256 + low
offset_is high low lt lt' =
    let same : (pointer_offset (192 + high) low == high * 256 + low) ≡ true =
      for_all_below_lem 256 (λ l. pointer_offset (192 + high) l == high * 256 + l)
        (for_all_below_lem 64
          (λ h. for_all_below 256 (λ l. pointer_offset (192 + h) l == h * 256 + l)) offset-all high
          lt)
        low lt' in
    ground arith

-- A byte without both flags is below 192, and one with them is not.
pub short : (b : ℕ) → b < 256 → is_compressed b ≡ false → b < 192
short b lt plain = elim (dec_lt b 192) [
  | yes below ↦ below
  | no above ↦
      let (high, is_b) : (high : ℕ) × (b ≡ 192 + high) = (b - 192, omega arith) in
      absurd (cc (plain, ap is_compressed is_b, is_pointer high (omega arith)))
]

pub flagged : (b : ℕ) → is_compressed b ≡ true → (high : ℕ) × (b ≡ 192 + high)
flagged b flags = elim (dec_lt b 192) [
  | yes below ↦ absurd (cc (flags, is_plain b below))
  | no above ↦ (b - 192, omega arith)
]
