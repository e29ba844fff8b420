-- ===== src/Ipam/Broadcast.antt =====
-- `broadcastAddr` of operator/pkg/ipam/allocator.go, which the other two copies of pkg/ipam share.
pub mod Laws
use iml.Common.{ℕ, zero, suc, ◌+◌, ◌-◌, ◌/◌, ◌%◌, ◌^◌, ◌==◌, if◌then◌else◌}
use iml.Ipam.Netip.{Addr, ip, v6, Prefix, no_prefix, prefix, bit_len, as16, unmap}

-- `ip[byteIndex] |= 1 << bitIndex`: bit `i` of the 16 bytes read as one big-endian number.
pub set_bit : ℕ → ℕ → ℕ
set_bit i n = if n / 2 ^ i % 2 == 1 then n else n + 2 ^ i

-- The loop over the host bits, `i` from 0 to `k - 1`.
pub set_bits : ℕ → ℕ → ℕ
set_bits zero n = n
set_bits (suc i) n = set_bit i (set_bits i n)

-- The zero prefix has 0 - (-1) host bits.
unfoldable pub broadcast_addr : Prefix → Addr
unfolding set_bit set_bits
broadcast_addr no_prefix = unmap (ip v6 (set_bits 1 0))
broadcast_addr (prefix f n k) = unmap (ip v6 (set_bits (bit_len f - k) (as16 (ip f n))))
