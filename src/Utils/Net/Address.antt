-- ===== src/Utils/Net/Address.antt =====
-- src/utils/net.c: the bytes of an IPv4 address, and the host in it. What inet_pton gives is
-- s_addr, whose lowest byte is the first of the text.
use edgesec.Common.{
  ℕ, ◌+◌, ◌-◌, ◌*◌, ◌/◌, ◌%◌, ◌^◌, true, false, Option, none, some, List, [], ◌∷◌, CString,
}
use edgesec.Common.Results.{Result, ◌>>=◌}
use edgesec.Utils.Net.{Inet, validate_ipv4_string}
use Prim.Native.Nat.{bit_and}

unfoldable pub addr_bytes : ℕ → List ℕ
addr_bytes s_addr =
    s_addr % 256 ∷ s_addr / 2 ^ 8 % 256 ∷ s_addr / 2 ^ 16 % 256 ∷ s_addr / 2 ^ 24 % 256 ∷ []

-- A text with a mask is valid, but inet_pton refuses it with 0, which is not tested for: the bytes
-- are then those of a variable that was never written.
unfoldable pub pton_bytes : Inet → CString → Result (List ℕ)
unfolding addr_bytes
pton_bytes inet ip = elim (inet.pton ip) [
  | none ↦ Result.fault
  | some s_addr ↦ Result.ok (addr_bytes s_addr)
]

unfoldable pub ip4_2_buf : Inet → Option CString → Result (List ℕ)
unfolding pton_bytes
ip4_2_buf inet none = Result.err
ip4_2_buf inet (some ip) = elim (validate_ipv4_string inet ip) [
  | none ↦ Result.fault
  | some false ↦ Result.err
  | some true ↦ pton_bytes inet ip
]

-- (b[0] << 24) + (b[1] << 16) + (b[2] << 8) + b[3]
unfoldable pub host_order : List ℕ → ℕ
host_order (a ∷ b ∷ c ∷ d ∷ more) = a * 2 ^ 24 + b * 2 ^ 16 + c * 2 ^ 8 + d
host_order _ = 0

-- x & ~mask, in uint32_t.
unfoldable pub get_ip_host : Inet → CString → CString → Result ℕ
unfolding ip4_2_buf host_order
get_ip_host inet ip subnet_mask = do
  ipbuf ← ip4_2_buf inet (some ip)
  mbuf ← ip4_2_buf inet (some subnet_mask)
  Result.ok (bit_and (host_order ipbuf) (2 ^ 32 - 1 - host_order mbuf))
