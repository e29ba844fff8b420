-- ===== src/Common/Int.antt =====
-- Signed integers over the native numbers, and the wrap-around of int32.
use iml.Common.Tests.{ltb, leb, if◌then◌else◌}
use Prim.Native.Nat.{ℕ, suc, ◌+◌, ◌-◌, ◌%◌, ◌≤◌, ◌<◌, ◌^◌}
use mathlib.Core.Path.{◌≡◌, refl}
use mathlib.Core.Logic.{◌⊎◌, inl, inr}
use mathlib.Core.Bool.{Bool}
use native.Mathlib.Omega.{arith}

-- `negsuc n` is -(n + 1).
pub data ℤ : Type 0 where
  pos : ℕ → ℤ
  negsuc : ℕ → ℤ

abbrev pub pos_part : ℤ → ℕ
pos_part (pos n) = n
pos_part (negsuc n) = 0

abbrev pub neg_part : ℤ → ℕ
neg_part (pos n) = 0
neg_part (negsuc n) = suc n

-- a - b, as an integer.
abbrev pub sub_ℕ : ℕ → ℕ → ℤ
sub_ℕ a b = if leb b a then pos (a - b) else negsuc (b - a - 1)

infixl 65 ◌+ℤ◌ ◌-ℤ◌
infix 50 ◌≤ℤ◌ ◌<ℤ◌
unfoldable pub ◌+ℤ◌ : ℤ → ℤ → ℤ
a +ℤ b = sub_ℕ (pos_part a + pos_part b) (neg_part a + neg_part b)

unfoldable pub ◌-ℤ◌ : ℤ → ℤ → ℤ
a -ℤ b = sub_ℕ (pos_part a + neg_part b) (neg_part a + pos_part b)

abbrev pub ◌≤ℤ◌ : ℤ → ℤ → Type 0
a ≤ℤ b = pos_part a + neg_part b ≤ pos_part b + neg_part a

abbrev pub ◌<ℤ◌ : ℤ → ℤ → Type 0
a <ℤ b = pos_part a + neg_part b < pos_part b + neg_part a

abbrev pub ltb_ℤ : ℤ → ℤ → Bool
ltb_ℤ a b = ltb (pos_part a + neg_part b) (pos_part b + neg_part a)

abbrev pub leb_ℤ : ℤ → ℤ → Bool
leb_ℤ a b = leb (pos_part a + neg_part b) (pos_part b + neg_part a)

abbrev pub eqb_ℤ : ℤ → ℤ → Bool
eqb_ℤ a b = if leb_ℤ a b then leb_ℤ b a else ltb_ℤ a b

abbrev pub min_ℤ : ℤ → ℤ → ℤ
min_ℤ a b = if leb_ℤ a b then a else b

pub +ℤ_parts :
    (a b : ℤ)
    → pos_part (a +ℤ b) + neg_part a + neg_part b ≡ neg_part (a +ℤ b) + pos_part a + pos_part b
unfolding ◌+ℤ◌
+ℤ_parts a b = ground arith

pub -ℤ_parts :
    (a b : ℤ)
    → pos_part (a -ℤ b) + neg_part a + pos_part b ≡ neg_part (a -ℤ b) + pos_part a + neg_part b
unfolding ◌-ℤ◌
-ℤ_parts a b = ground arith

pub eq_of_parts : (a b : ℤ) → pos_part a + neg_part b ≡ pos_part b + neg_part a → a ≡ b
eq_of_parts a b h = ground arith

pub ruleset int_laws = (arith, +ℤ_parts, -ℤ_parts, eq_of_parts)

pub one_sided : (z : ℤ) → (pos_part z ≡ 0) ⊎ (neg_part z ≡ 0)
one_sided (pos n) = inr refl
one_sided (negsuc n) = inl refl

-- The value in int32 that a result wraps around to.
unfoldable pub i32 : ℤ → ℤ
i32 z =
    let m = (pos_part z + (2 ^ 32 - neg_part z % 2 ^ 32)) % 2 ^ 32 in
    if ltb m (2 ^ 31) then pos m else negsuc (2 ^ 32 - m - 1)

-- The values of int32.
abbrev pub IsInt32 : ℤ → Type 0
IsInt32 z = pos_part z < 2 ^ 31 × neg_part z ≤ 2 ^ 31

pub i32_of_IsInt32 : (z : ℤ) → IsInt32 z → i32 z ≡ z
unfolding i32
i32_of_IsInt32 (pos n) h = ground arith
i32_of_IsInt32 (negsuc n) h = ground arith

-- int32 `a + b` and `a - b`.
unfoldable pub add32 : ℤ → ℤ → ℤ
add32 a b = i32 (a +ℤ b)

unfoldable pub sub32 : ℤ → ℤ → ℤ
sub32 a b = i32 (a -ℤ b)

-- What fits does not wrap. The sum and the difference are given by their parts.
pub add32_parts :
    (a b : ℤ)
    → pos_part a + pos_part b < 2 ^ 31
    → neg_part a + neg_part b ≤ 2 ^ 31
    → pos_part (add32 a b) + neg_part a + neg_part b
      ≡ neg_part (add32 a b) + pos_part a + pos_part b
unfolding add32
add32_parts a b h k =
    let w : IsInt32 (a +ℤ b) = omega (arith, +ℤ_parts a b, one_sided (a +ℤ b)) in
    rw (i32_of_IsInt32 (a +ℤ b) w) (+ℤ_parts a b)

pub sub32_parts :
    (a b : ℤ)
    → pos_part a + neg_part b < 2 ^ 31
    → neg_part a + pos_part b ≤ 2 ^ 31
    → pos_part (sub32 a b) + neg_part a + pos_part b
      ≡ neg_part (sub32 a b) + pos_part a + neg_part b
unfolding sub32
sub32_parts a b h k =
    let w : IsInt32 (a -ℤ b) = omega (arith, -ℤ_parts a b, one_sided (a -ℤ b)) in
    rw (i32_of_IsInt32 (a -ℤ b) w) (-ℤ_parts a b)

-- The same for int64.
unfoldable pub i64 : ℤ → ℤ
i64 z =
    let m = (pos_part z + (2 ^ 64 - neg_part z % 2 ^ 64)) % 2 ^ 64 in
    if ltb m (2 ^ 63) then pos m else negsuc (2 ^ 64 - m - 1)

unfoldable pub add64 : ℤ → ℤ → ℤ
add64 a b = i64 (a +ℤ b)

pub i64_of_pos : (n : ℕ) → n < 2 ^ 63 → i64 (pos n) ≡ pos n
unfolding i64
i64_of_pos n h = ground arith

pub add64_pred : (n : ℕ) → suc n < 2 ^ 63 → add64 (pos (suc n)) (negsuc 0) ≡ pos n
unfolding add64 ◌+ℤ◌ i64
add64_pred n h = ground arith

pub add64_zero : (n : ℕ) → n < 2 ^ 63 → add64 (pos n) (pos 0) ≡ pos n
unfolding add64 ◌+ℤ◌ i64
add64_zero n h = ground arith
