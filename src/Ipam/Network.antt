-- ===== src/Ipam/Network.antt =====
-- A network is a prefix that equals its masked form. Its addresses are a range of numbers.
use iml.Common.{ℕ, ◌+◌, ◌-◌, ◌%◌, ◌^◌, ◌≤◌, ◌<◌, ◌≡◌, refl, ◌↔◌, true, arith}
use iml.Common.Powers.{pow-two-pos, pow-two-split, div-eq_iff, block_fits}
use native.Mathlib.Nat.{div-add-mod'}
use iml.Ipam.Netip.{
  Family, v4, v6, ip, Prefix, no_prefix, prefix, bit_len, family_eq, block, prefix_eq,
  prefix_is_valid, masked, prefix_contains,
}

abbrev pub IsNetwork : Prefix → Type 0
IsNetwork no_prefix = ⊥
IsNetwork (prefix f n k) = (k ≤ bit_len f) × (n % block f k ≡ 0) × (n + block f k ≤ 2 ^ bit_len f)

pub family_eq_refl : (f : Family) → family_eq f f ≡ true
family_eq_refl v4 = refl
family_eq_refl v6 = refl

family_eq→eq : (f g : Family) → family_eq f g ≡ true → f ≡ g
family_eq→eq f g h = ground arith

module _ (f : Family) (n k : ℕ) where
  pub block_pos : 0 < block f k
  block_pos = pow-two-pos (bit_len f - k)

  -- The checks of the constructors make a network.
  pub network_of_checks :
      prefix_is_valid (prefix f n k) ≡ true
      → prefix_eq (prefix f n k) (masked (prefix f n k)) ≡ true
      → IsNetwork (prefix f n k)
  network_of_checks h e =
      let b : n < 2 ^ bit_len f = ground arith in
      let kk : k ≤ bit_len f = ground arith in
      let z : n % block f k ≡ 0 = ground (arith, div-add-mod' n (block f k)) in
      (
        kk,
        z,
        rw (pow-two-split (bit_len f) k kk) (
            block_fits (block f k) (2 ^ k) n block_pos z (rw (← pow-two-split (bit_len f) k kk) b)),
      )

  module _ (w : IsNetwork (prefix f n k)) where
    pub contains_range :
        (m : ℕ) → (prefix_contains (prefix f n k) (ip f m) ≡ true) ↔ ((n ≤ m) × (m < n + block f k))
    contains_range m = ground (arith, family_eq_refl f, div-eq_iff (block f k) n m block_pos w.1)
