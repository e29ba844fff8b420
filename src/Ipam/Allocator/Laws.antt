-- ===== src/Ipam/Allocator/Laws.antt =====
-- operator/pkg/ipam/allocator.go: the allocators walk the network in order, and stop at its end.
use iml.Common.{
  ℕ, ◌+◌, ◌-◌, ◌*◌, ◌/◌, ◌%◌, ◌^◌, ◌≤◌, ◌<◌, ◌≡◌, ap, ◌∙◌, arith, ltb, Bool-cases, inl, inr,
  if◌then◌else◌,
}
use iml.Common.Powers.{pow-two-split, lt_of_mul-lt, mul_suc_le}
use iml.Common.Results.{ok, err}
use native.Mathlib.Nat.{div-add-mod', div-eq_of_lt-le}
use iml.Ipam.Netip.{Family, v4, v6, ip, prefix, block, bit_len, unmap, next_addr, prefix_contains}
use iml.Ipam.Network.{IsNetwork, contains_range, block_pos}
use iml.Ipam.Broadcast.{broadcast_addr}
use iml.Ipam.Broadcast.Laws.{broadcast_v4, broadcast_v6}
use iml.Ipam.Allocator.{AddrAllocator, next_ip, PrefixAllocator, next_prefix, exhausted}

module _ (f : Family) (n k : ℕ) (w : IsNetwork (prefix f n k)) where
  next_inside : (m : ℕ) → m + 1 < n + block f k → next_addr (ip f m) ≡ ip f (m + 1)
  next_inside m h = ground (arith, w.2)

  -- Whether the next address still lies in the network.
  contains-next :
      (m : ℕ)
      → n ≤ m
      → m < n + block f k
      → prefix_contains (prefix f n k) (next_addr (ip f m)) ≡ ltb (m + 1) (n + block f k)
  contains-next m lo hi = ground (arith, w.2, contains_range f n k w (m + 1))

-- The allocator over a network that has handed out `i` addresses.
abbrev pub addrs_after : Family → ℕ → ℕ → ℕ → AddrAllocator
addrs_after f n k i = record { base_network = prefix f n k; last_assigned_ip = ip f (n + i) }

-- `Next` hands out the addresses of the network one after the other, never its first and never
-- its last: with `i` addresses handed out it returns address `i + 1` if that is not the last of the
-- network, and otherwise the error, with the allocator unchanged.
pub next_ip_lem :
    (f : Family) (n k i : ℕ)
    → IsNetwork (prefix f n k)
    → i < block f k
    → next_ip (addrs_after f n k i) ≡ (
        if ltb (i + 2) (block f k)
        then (addrs_after f n k (i + 1), ok (ip f (n + (i + 1))))
        else (addrs_after f n k i, err exhausted))
unfolding next_ip
next_ip_lem f n k i w h =
    let first : prefix_contains (prefix f n k) (next_addr (ip f (n + i)))
        ≡ ltb (n + i + 1) (n + block f k) =
      contains-next f n k w (n + i) (omega arith) (omega arith) in
    let regroup : n + i + 1 ≡ n + (i + 1) = omega arith in
    elim (Bool-cases (ltb (i + 1) (block f k))) [
      | inl more ↦
          let at : next_addr (ip f (n + i)) ≡ ip f (n + (i + 1)) =
            rw (next_inside f n k w (n + i) (ground arith), regroup) in
          let second : prefix_contains (prefix f n k) (next_addr (ip f (n + (i + 1))))
              ≡ ltb (n + (i + 1) + 1) (n + block f k) =
            contains-next f n k w (n + (i + 1)) (omega arith) (ground arith) in
          rw at (ground (arith, at, first, second))
      | inr last ↦ ground (arith, first)
    ]

-- The allocator of prefixes of length `len` that has handed out `i + 1` of them.
abbrev pub prefixes_after : Family → ℕ → ℕ → ℕ → ℕ → PrefixAllocator
prefixes_after f n k len i = record {
  base_network = prefix f n k;
  last_assigned = prefix f (n + i * block f len) len;
  prefix_len = len;
}

broadcast_network :
    (f : Family) (n k : ℕ)
    → IsNetwork (prefix f n k)
    → unmap (ip f (n + block f k - 1)) ≡ ip f (n + block f k - 1)
    → broadcast_addr (prefix f n k) ≡ ip f (n + block f k - 1)
broadcast_network v4 n k w u = broadcast_v4 n k w
broadcast_network v6 n k w u = broadcast_v6 n k w ∙ u

multiple-mod : (s a : ℕ) → 0 < s → a * s % s ≡ 0
multiple-mod s a h =
    let q : a * s / s ≡ a = div-eq_of_lt-le s (omega arith) (omega arith) in
    omega (arith, div-add-mod' (a * s) s, ap (λ (t : ℕ). t * s) q)

module _ (f : Family) (n k len i : ℕ) (w : IsNetwork (prefix f n k)) (hk : k ≤ len)
    (hl : len ≤ bit_len f) (h : i * block f len < block f k) where
  block_split : block f k ≡ block f len * 2 ^ (len - k)
  block_split =
      let e : bit_len f - k - (len - k) ≡ bit_len f - len = omega arith in
      rw (pow-two-split (bit_len f - k) (len - k) (omega arith), e)

  -- The whole subnet lies in the network.
  subnet_fits : (i + 1) * block f len ≤ block f k
  subnet_fits =
      let below : i < 2 ^ (len - k) =
        lt_of_mul-lt (block f len) i (2 ^ (len - k)) (omega (arith, block_split)) in
      omega (arith, block_split, mul_suc_le (block f len) i (2 ^ (len - k)) below)

  subnet-mod : (j : ℕ) → (n + j * block f len) % block f len ≡ 0
  subnet-mod j =
      let d : n ≡ n / block f k * block f k = omega (arith, div-add-mod' n (block f k), w.1) in
      let e : n + j * block f len ≡ (n / block f k * 2 ^ (len - k) + j) * block f len =
        omega (arith, ap (λ (t : ℕ). n / block f k * t) block_split) in
      rw e (multiple-mod (block f len) (n / block f k * 2 ^ (len - k) + j) (block_pos f n len))

  subnet-IsNetwork : IsNetwork (prefix f (n + i * block f len) len)
  subnet-IsNetwork = (hl, subnet-mod i, omega (arith, w.2, subnet_fits))

  -- `Next` hands out the subnets of length `len` one after the other: with `i + 1` of them handed
  -- out it returns subnet `i + 1` if that lies in the network, and otherwise the error, with the
  -- allocator unchanged. The last address of the subnet before must not be one that `Unmap` changes
  -- (an IPv4 address never is).
  pub next_prefix_lem :
      unmap (ip f (n + (i + 1) * block f len - 1)) ≡ ip f (n + (i + 1) * block f len - 1)
      → next_prefix (prefixes_after f n k len i) ≡ (
          if ltb ((i + 1) * block f len) (block f k)
          then (prefixes_after f n k len (i + 1), ok (prefix f (n + (i + 1) * block f len) len))
          else (prefixes_after f n k len i, err exhausted))
  unfolding next_prefix
  next_prefix_lem u =
      let t : ℕ = block f len in
      let pos : 0 < block f len = block_pos f n len in
      let e : n + i * block f len + block f len - 1 ≡ n + (i + 1) * block f len - 1 = omega arith in
      let last : broadcast_addr (prefix f (n + i * block f len) len)
          ≡ ip f (n + (i + 1) * block f len - 1) =
        broadcast_network f (n + i * block f len) len subnet-IsNetwork (rw e u) ∙ ap (ip f) e in
      let back : n + (i + 1) * block f len - 1 + 1 ≡ n + (i + 1) * block f len = omega arith in
      let whole : (n + (i + 1) * block f len) / block f len * block f len
          ≡ n + (i + 1) * block f len =
        omega (arith, subnet-mod (i + 1), div-add-mod' (n + (i + 1) * block f len) (block f len)) in
      ground (
        arith,
        last,
        back,
        whole,
        w.2,
        subnet_fits,
        contains_range f n k w (n + (i + 1) * block f len),
      )
