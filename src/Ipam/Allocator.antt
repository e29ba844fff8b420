-- ===== src/Ipam/Allocator.antt =====
-- operator/pkg/ipam/allocator.go: the two allocators that only go forward. daemon/pkg/ipam and
-- targets/bmv2/pkg/ipam hold the same code with other type names.
pub mod Laws
use iml.Common.{ℕ, ◌-◌, ◌*◌, ◌/◌, ◌^◌, Bool, not, ◌||◌, ltb, leb, if◌then◌else◌}
use iml.Common.Results.{Result, ok, err}
use iml.Ipam.Netip.{
  Addr, no_addr, ip, Prefix, no_prefix, prefix, bit_len, block, prefix_eq, next_addr, prefix_addr,
  prefix_is_valid, masked, prefix_contains,
}
use iml.Ipam.Broadcast.{broadcast_addr}

pub data AllocError : Type 0 where
  invalid_base not_masked invalid_length bad_prefix exhausted : AllocError

pub record AddrAllocator : Type 0 where
  pub base_network : Prefix
  pub last_assigned_ip : Addr

unfoldable pub new_addr_allocator : Prefix → Result AllocError AddrAllocator
new_addr_allocator base =
    if not (prefix_is_valid base)
    then err invalid_base
    else if not (prefix_eq base (masked base))
    then err not_masked
    else ok (record { base_network = base; last_assigned_ip = prefix_addr base })

unfoldable pub next_ip : AddrAllocator → AddrAllocator × Result AllocError Addr
next_ip a =
    let next = next_addr a.last_assigned_ip in
    let out_of_range = not (prefix_contains a.base_network next) in
    let broadcast = not (prefix_contains a.base_network (next_addr next)) in
    if out_of_range || broadcast
    then (a, err exhausted)
    else (record a { last_assigned_ip = next }, ok next)

pub record PrefixAllocator : Type 0 where
  pub base_network : Prefix
  pub last_assigned : Prefix
  pub prefix_len : ℕ

abbrev pub prefix_bits : Prefix → ℕ
prefix_bits no_prefix = 0
prefix_bits (prefix f n k) = k

abbrev pub prefix_bit_len : Prefix → ℕ
prefix_bit_len no_prefix = 0
prefix_bit_len (prefix f n k) = bit_len f

-- A negative length is refused by the first test, so that lengths are numbers here.
unfoldable pub new_prefix_allocator : Prefix → ℕ → Result AllocError PrefixAllocator
new_prefix_allocator base len =
    if not (prefix_is_valid base)
    then err invalid_base
    else if not (prefix_eq base (masked base))
    then err not_masked
    else if leb len (prefix_bits base) || ltb (prefix_bit_len base) len
    then err invalid_length
    else ok (record { base_network = base; last_assigned = no_prefix; prefix_len = len })

-- `Addr.Prefix` of net/netip: the zero address gives the zero prefix.
abbrev pub addr_prefix : Addr → ℕ → Result AllocError Prefix
addr_prefix no_addr len = ok no_prefix
addr_prefix (ip f n) len =
    if ltb (bit_len f) len
    then err bad_prefix
    else ok (prefix f (n / block f len * block f len) len)

-- `LastAssigned` is valid but for the zero prefix.
abbrev pub next_net : Prefix → Prefix → Addr
next_net base no_prefix = prefix_addr base
next_net base (prefix f n k) = next_addr (broadcast_addr (prefix f n k))

abbrev pub finish_prefix :
    PrefixAllocator → Result AllocError Prefix → PrefixAllocator × Result AllocError Prefix
finish_prefix a (err e) = (a, err e)
finish_prefix a (ok p) =
    if not (prefix_contains a.base_network (prefix_addr p))
    then (a, err exhausted)
    else (record a { last_assigned = p }, ok p)

unfoldable pub next_prefix : PrefixAllocator → PrefixAllocator × Result AllocError Prefix
next_prefix a = finish_prefix a (addr_prefix (next_net a.base_network a.last_assigned) a.prefix_len)
