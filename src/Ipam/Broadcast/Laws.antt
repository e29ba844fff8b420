-- ===== src/Ipam/Broadcast/Laws.antt =====
-- `broadcastAddr` sets the host bits: it is the last address of a network.
use iml.Common.{
  ℕ, zero, suc, ◌+◌, ◌-◌, ◌*◌, ◌/◌, ◌%◌, ◌^◌, ◌<◌, ◌≡◌, sym, ap, arith, ◌==◌, Bool-cases, ==_iff,
  ==_false, inl, inr,
}
use iml.Common.Powers.{pow-two-pos, pow-two-suc, pow-two-split}
use native.Mathlib.Nat.{div-eq_of_lt-le, div-div-eq-div-mul, div-add-mod', pow-suc}
use iml.Ipam.Netip.{v4, v6, ip, prefix, block, unmap}
use iml.Ipam.Network.{IsNetwork}
use iml.Ipam.Broadcast.{set_bit, set_bits, broadcast_addr}

-- One more bit, over the quotient `q` of the number by the bits done.
set_bit_step :
    (i q m : ℕ) → m + 1 ≡ q * 2 ^ i + 2 ^ i → set_bit i m + 1 ≡ q / 2 * (2 * 2 ^ i) + 2 * 2 ^ i
unfolding set_bit
set_bit_step i q m e =
    let d : m / 2 ^ i ≡ q = div-eq_of_lt-le (2 ^ i) (omega (arith, pow-two-pos i)) (omega arith) in
    let two : q ≡ 2 * (q / 2) + q % 2 = omega arith in
    let scaled : q * 2 ^ i ≡ (2 * (q / 2) + q % 2) * 2 ^ i = ap (λ (t : ℕ). t * 2 ^ i) two in
    rw d (elim (Bool-cases (q % 2 == 1)) [
      | inl odd ↦
          let r : q % 2 ≡ 1 = (==_iff (q % 2) 1).0 odd in
          rw odd (omega (arith, ap (λ (t : ℕ). (2 * (q / 2) + t) * 2 ^ i) r))
      | inr even ↦
          let r : q % 2 ≡ 0 = omega (arith, ==_false (q % 2) 1 even) in
          rw even (omega (arith, ap (λ (t : ℕ). (2 * (q / 2) + t) * 2 ^ i) r))
    ])

pub set_bits_lem : (i n : ℕ) → set_bits i n + 1 ≡ n / 2 ^ i * 2 ^ i + 2 ^ i
unfolding set_bits
set_bits_lem zero n = omega arith
set_bits_lem (suc i) n =
    let h : n / 2 ^ suc i ≡ n / 2 ^ i / 2 =
      rw (pow-suc 2 i) (sym (div-div-eq-div-mul n (2 ^ i) 2)) in
    rw (h, pow-two-suc i) (set_bit_step i (n / 2 ^ i) (set_bits i n) (set_bits_lem i n))

-- What is added above a multiple of the block stays above it.
div_multiple : (s t n c : ℕ) → 0 < s → n % s ≡ 0 → (c * (s * t) + n) / s * s ≡ c * (s * t) + n
div_multiple s t n c h e =
    let d : n ≡ s * (n / s) = omega (arith, div-add-mod' n s) in
    let q : (c * (s * t) + n) / s ≡ c * t + n / s = div-eq_of_lt-le s (omega arith) (omega arith) in
    rw q (omega arith)

-- The bit loop of `broadcastAddr` computes the last address of an IPv4 network.
pub broadcast_v4 :
    (n k : ℕ)
    → IsNetwork (prefix v4 n k)
    → broadcast_addr (prefix v4 n k) ≡ ip v4 (n + block v4 k - 1)
unfolding broadcast_addr
broadcast_v4 n k w =
    let split : 281470681743360 ≡ 65535 * (2 ^ (32 - k) * 2 ^ k) =
      omega (arith, pow-two-split 32 k w.0) in
    let whole : (281470681743360 + n) / 2 ^ (32 - k) * 2 ^ (32 - k) ≡ 281470681743360 + n =
      rw split (div_multiple (2 ^ (32 - k)) (2 ^ k) n 65535 (pow-two-pos (32 - k)) w.1) in
    let e : set_bits (32 - k) (281470681743360 + n) ≡ 281470681743360 + (n + block v4 k - 1) =
      omega (arith, set_bits_lem (32 - k) (281470681743360 + n), pow-two-pos (32 - k)) in
    rw e (ground (arith, w.2, pow-two-pos (32 - k)))

-- The last address of an IPv6 network, unmapped.
pub broadcast_v6 :
    (n k : ℕ)
    → IsNetwork (prefix v6 n k)
    → broadcast_addr (prefix v6 n k) ≡ unmap (ip v6 (n + block v6 k - 1))
unfolding broadcast_addr
broadcast_v6 n k w =
    let whole : n / block v6 k * block v6 k ≡ n = omega (arith, div-add-mod' n (block v6 k), w.1) in
    let e : set_bits (128 - k) n ≡ n + block v6 k - 1 =
      omega (arith, set_bits_lem (128 - k) n, pow-two-pos (128 - k)) in
    rw e
