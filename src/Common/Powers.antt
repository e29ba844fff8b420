-- ===== src/Common/Powers.antt =====
-- Powers of two, quotients and remainders by a variable.
use Prim.Native.Nat.{ℕ, zero, suc, ◌+◌, ◌-◌, ◌*◌, ◌/◌, ◌%◌, ◌^◌, ◌≤◌, ◌<◌}
use mathlib.Core.Path.{◌≡◌, ap}
use mathlib.Core.Logic.{◌↔◌}
use native.Mathlib.Nat.{pow-suc, div-add-mod, mod-lt, sub-zero}
use native.Mathlib.Omega.{arith}

pub pow-two-suc : (k : ℕ) → 2 ^ suc k ≡ 2 * 2 ^ k
pow-two-suc k = omega (arith, pow-suc 2 k)

pub pow-two-pos : (k : ℕ) → 0 < 2 ^ k
pow-two-pos zero = omega arith
pow-two-pos (suc k) = omega (arith, pow-two-suc k, pow-two-pos k)

-- `2 ^ k` divides `2 ^ n`.
pub pow-two-split : (n k : ℕ) → k ≤ n → 2 ^ n ≡ 2 ^ (n - k) * 2 ^ k
pow-two-split n zero h = rw sub-zero (omega arith)
pow-two-split zero (suc k) h = absurd (omega arith)
pow-two-split (suc n) (suc k) h =
    let e : suc n - suc k ≡ n - k = omega arith in
    rw (e, pow-two-suc n, pow-two-suc k) (omega (arith, pow-two-split n k (omega arith)))

-- The quotients agree exactly within one block.
pub div-eq_iff : (s n m : ℕ) → 0 < s → n % s ≡ 0 → (n / s ≡ m / s) ↔ ((n ≤ m) × (m < n + s))
div-eq_iff s n m h e = (
  λ q. grind (arith, div-add-mod n s, div-add-mod m s, mod-lt m h, ap (λ (t : ℕ). s * t) q),
  λ r. grind (arith, div-add-mod n s, div-add-mod m s, mod-lt m h),
)

pub lt_of_mul-lt : (s a b : ℕ) → s * a < s * b → a < b
lt_of_mul-lt s a b h = grind arith

pub mul_suc_le : (s a b : ℕ) → a < b → s * a + s ≤ s * b
mul_suc_le s a b h = grind arith

-- A multiple of `s` below `s * t` leaves room for a whole block.
pub block_fits : (s t n : ℕ) → 0 < s → n % s ≡ 0 → n < s * t → n + s ≤ s * t
block_fits s t n h e l =
    let d : n ≡ s * (n / s) = omega (arith, div-add-mod n s) in
    let q : n / s < t = lt_of_mul-lt s (n / s) t (omega arith) in
    omega (arith, mul_suc_le s (n / s) t q)
