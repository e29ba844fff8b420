-- ===== src/Ipam/Netip.antt =====
-- What pkg/ipam uses of Go's net/netip. An address is its family and its value, a number below
-- 2 ^ 32 or 2 ^ 128; zones are left out. `no_addr` and `no_prefix` are the zero values.
use iml.Common.{
  ℕ, ◌+◌, ◌-◌, ◌*◌, ◌/◌, ◌%◌, ◌^◌, Bool, true, false, ◌&&◌, ◌==◌, ltb, leb, if◌then◌else◌,
  ℕ_discrete,
}

pub data Family : Type 0 where
  v4 v6 : Family

pub data Addr : Type 0 where
  no_addr : Addr
  ip : Family → ℕ → Addr

pub data Prefix : Type 0 where
  no_prefix : Prefix
  prefix : Family → ℕ → ℕ → Prefix

unfoldable pub Addr-discrete : Discrete Addr
unfolding ℕ_discrete
Addr-discrete = hlevel ℕ_discrete

-- `Addr.BitLen` of an address of the family.
abbrev pub bit_len : Family → ℕ
bit_len v4 = 32
bit_len v6 = 128

abbrev pub family_eq : Family → Family → Bool
family_eq v4 v4 = true
family_eq v6 v6 = true
family_eq _ _ = false

-- `a == b`.
abbrev pub addr_eq : Addr → Addr → Bool
addr_eq no_addr no_addr = true
addr_eq no_addr (ip g m) = false
addr_eq (ip f n) no_addr = false
addr_eq (ip f n) (ip g m) = family_eq f g && n == m

abbrev pub prefix_eq : Prefix → Prefix → Bool
prefix_eq no_prefix no_prefix = true
prefix_eq no_prefix (prefix g m j) = false
prefix_eq (prefix f n k) no_prefix = false
prefix_eq (prefix f n k) (prefix g m j) = family_eq f g && n == m && k == j

abbrev pub is4 : Addr → Bool
is4 (ip v4 n) = true
is4 _ = false

abbrev pub addr_is_valid : Addr → Bool
addr_is_valid no_addr = false
addr_is_valid (ip f n) = true

-- `Addr.Next`: the zero address past the last one.
abbrev pub next_addr : Addr → Addr
next_addr no_addr = no_addr
next_addr (ip f n) = if n + 1 == 2 ^ bit_len f then no_addr else ip f (n + 1)

-- `Addr.As16`, as a big-endian number.
abbrev pub as16 : Addr → ℕ
as16 no_addr = 0
as16 (ip v4 n) = 0xffff * 2 ^ 32 + n
as16 (ip v6 n) = n

-- `Addr.Unmap`: an IPv4-mapped address becomes the IPv4 address.
abbrev pub unmap : Addr → Addr
unmap no_addr = no_addr
unmap (ip v4 n) = ip v4 n
unmap (ip v6 n) = if n / 2 ^ 32 == 0xffff then ip v4 (n % 2 ^ 32) else ip v6 n

abbrev pub prefix_addr : Prefix → Addr
prefix_addr no_prefix = no_addr
prefix_addr (prefix f n k) = ip f n

-- The number of addresses in a prefix.
abbrev pub block : Family → ℕ → ℕ
block f k = 2 ^ (bit_len f - k)

-- `Prefix.IsValid`: only values in range are prefixes.
abbrev pub prefix_is_valid : Prefix → Bool
prefix_is_valid no_prefix = false
prefix_is_valid (prefix f n k) = leb k (bit_len f) && ltb n (2 ^ bit_len f)

abbrev pub masked : Prefix → Prefix
masked no_prefix = no_prefix
masked (prefix f n k) = prefix f (n / block f k * block f k) k

-- `Prefix.Contains`: the families agree, and so do the leading bits.
abbrev pub prefix_contains : Prefix → Addr → Bool
prefix_contains no_prefix a = false
prefix_contains (prefix f n k) no_addr = false
prefix_contains (prefix f n k) (ip g m) = family_eq f g && n / block f k == m / block f k
