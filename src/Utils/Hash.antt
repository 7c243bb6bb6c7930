-- ===== src/Utils/Hash.antt =====
-- src/utils/hash.c: the hash that spreads the devices over the VLANs, and the one that tells the
-- commands of the mDNS service apart.
use Prim.Native.Nat.{bit_xor}
use edgesec.Common.{ℕ, ◌+◌, ◌-◌, ◌*◌, ◌/◌, ◌%◌, ◌^◌, ◌<◌, ◌≡◌, List, [], ◌∷◌, arith}

-- One round, in uint32_t arithmetic: each shift and the difference wrap around.
unfoldable pub sdbm_round : ℕ → ℕ → ℕ
sdbm_round hash byte =
    (byte + hash * 2 ^ 6 % 2 ^ 32 + hash * 2 ^ 16 % 2 ^ 32 + (2 ^ 32 - hash)) % 2 ^ 32

unfoldable pub sdbm_from : ℕ → List ℕ → ℕ
unfolding sdbm_round
sdbm_from hash [] = hash
sdbm_from hash (b ∷ bs) = sdbm_from (sdbm_round hash b) bs

unfoldable pub sdbm_hash : List ℕ → ℕ
unfolding sdbm_from
sdbm_hash msg = sdbm_from 0 msg

sdbm_from-lt : (hash : ℕ) (bs : List ℕ) → hash < 2 ^ 32 → sdbm_from hash bs < 2 ^ 32
unfolding sdbm_from sdbm_round
sdbm_from-lt hash [] h = h
sdbm_from-lt hash (b ∷ bs) h = sdbm_from-lt (sdbm_round hash b) bs (omega arith)

-- The hash without wrapping: a polynomial in 65599.
unfoldable pub sdbm_polynomial : ℕ → List ℕ → ℕ
sdbm_polynomial acc [] = acc
sdbm_polynomial acc (b ∷ bs) = sdbm_polynomial (acc * 65599 + b) bs

sdbm_from-polynomial :
    (hash acc : ℕ) (bs : List ℕ)
    → hash < 2 ^ 32
    → hash ≡ acc % 2 ^ 32
    → sdbm_from hash bs ≡ sdbm_polynomial acc bs % 2 ^ 32
unfolding sdbm_from sdbm_round sdbm_polynomial
sdbm_from-polynomial hash acc [] h e = e
sdbm_from-polynomial hash acc (b ∷ bs) h e =
    sdbm_from-polynomial (sdbm_round hash b) (acc * 65599 + b) bs (omega arith) (omega arith)

-- sdbm_hash computes, by shifts that wrap around, the polynomial in 65599 with the bytes as its
-- coefficients, modulo 2 ^ 32.
pub sdbm_hash-polynomial : (bs : List ℕ) → sdbm_hash bs ≡ sdbm_polynomial 0 bs % 2 ^ 32
unfolding sdbm_hash
sdbm_hash-polynomial bs = sdbm_from-polynomial 0 0 bs (omega arith) (omega arith)

unfoldable pub md_mix : ℕ → ℕ → ℕ
md_mix block state =
    bit_xor (state * block % 2 ^ 32) ((state * 2 ^ 3 % 2 ^ 32 + block / 2 ^ 2) % 2 ^ 32)

-- memcpy(&block, msg, length) on a little-endian machine, for up to four bytes: the lower bytes of
-- the block are replaced.
unfoldable pub overlay : List ℕ → ℕ → ℕ
overlay [] block = block
overlay (b ∷ bs) block = b + 2 ^ 8 * overlay bs (block / 2 ^ 8)

unfoldable pub md_from : ℕ → ℕ → List ℕ → ℕ
unfolding md_mix overlay
md_from state block (a ∷ b ∷ c ∷ d ∷ msg) =
    let next = overlay (a ∷ b ∷ c ∷ d ∷ []) block in md_from (md_mix next state) next msg
md_from state block [] = state
md_from state block msg = md_mix (overlay msg block) state

unfoldable pub md_hash : List ℕ → ℕ
unfolding md_from
md_hash msg = md_from 0xa5a5a5a5 0 msg
