-- ===== src/P4Target/Runs.antt =====
-- p4target_mgr.go: sequences of calls of a manager, and what they keep.
use iml.Common.{
  ℕ, zero, suc, ◌+◌, ◌≤◌, ◌<◌, ◌≡◌, refl, ap, true, false, Option, none, some, List, [], ◌∷◌, ltb,
  arith, Bool-cases, if_cases, ◌⊎◌, inl, inr,
}
use iml.Common.Results.{ok, err}
use iml.Ipam.Netip.{
  Family, Addr, ip, Prefix, no_prefix, prefix, block, masked, prefix_eq, prefix_is_valid,
}
use iml.Ipam.Network.{IsNetwork, family_eq_refl, network_of_checks, block_pos}
use iml.Ipam.Allocator.{new_addr_allocator, next_ip, exhausted}
use iml.Ipam.Allocator.Laws.{addrs_after, next_ip_lem}
use iml.P4Target.Bridge.{Netlink}
use iml.P4Target.Manager.{
  no_ip, Manager, has_addr, TargetError, set_up_bridge, use_allocator, configured,
  ensure_network_configuration, record_ip, allocate_network_function_ip,
}

pub data Action : Type 0 where
  ensures : Netlink → Option Prefix → Action
  allocates : Action

unfoldable pub step : Manager → Action → Manager
unfolding ensure_network_configuration allocate_network_function_ip
step m (ensures net cidr) = (ensure_network_configuration net m cidr).0
step m allocates = (allocate_network_function_ip m).0

unfoldable pub run : Manager → List Action → Manager
unfolding step
run m [] = m
run m (a ∷ acts) = run (step m a) acts

-- The addresses of a network after its first `b + 1`, the last one first.
unfoldable pub handed : Family → ℕ → ℕ → ℕ → List Addr
handed f n b zero = []
handed f n b (suc c) = ip f (n + (b + c + 1)) ∷ handed f n b c

pub has_addr-handed :
    (f : Family) (n b c j : ℕ) → b + c < j → has_addr (ip f (n + j)) (handed f n b c) ≡ false
unfolding handed
has_addr-handed f n b zero j h = refl
has_addr-handed f n b (suc c) j h =
    let rest = has_addr-handed f n b c j (omega (arith, h)) in
    ground (arith, rest, family_eq_refl f)

-- The manager has a network, of which it has used `b` addresses for the bridge and handed out `c`.
pub record Handed (m : Manager) (f : Family) (n k b c : ℕ) : Type 0 where
  pub cidr : m.cidr ≡ prefix f n k
  pub allocator : m.ip_allocator ≡ some (addrs_after f n k (b + c))
  pub ips : m.allocated_ips ≡ handed f n b c
  pub network : IsNetwork (prefix f n k)
  pub room : b + c < block f k
  pub bridge : (m.has_bridge ≡ false) ⊎ ((1 ≤ b) ⊎ (block f k ≤ 2))

abbrev pub Sound : Manager → Type 0
Sound m =
    (m.ip_allocator ≡ none)
    ⊎ ((f : Family) × (n : ℕ) × (k : ℕ) × (b : ℕ) × (c : ℕ) × Handed m f n k b c)

-- A call hands out the next address, or changes nothing.
pub allocate_cases :
    (m : Manager) (f : Family) (n k b c : ℕ)
    → Handed m f n k b c
    → ((ltb (b + c + 2) (block f k) ≡ true)
        × (allocate_network_function_ip m ≡ (
          record m {
            ip_allocator = some (addrs_after f n k (b + c + 1));
            allocated_ips = ip f (n + (b + c + 1)) ∷ m.allocated_ips;
          },
          ok (ip f (n + (b + c + 1))),
        )))
      ⊎ ((e : TargetError) × (allocate_network_function_ip m ≡ (m, err e)))
unfolding allocate_network_function_ip record_ip
allocate_cases m f n k b c h =
    let next = next_ip_lem f n k (b + c) h.network h.room in
    let fresh : has_addr (ip f (n + (b + c + 1))) m.allocated_ips ≡ false =
      rw h.ips (has_addr-handed f n b c (b + c + 1) (omega arith)) in
    elim (Bool-cases (ltb (b + c + 2) (block f k))) [
      | inl t ↦ inl (t, rw (h.allocator, next, t) (rw fresh refl))
      | inr t ↦ inr (no_ip exhausted, rw (h.allocator, next, t) refl)
    ]

allocate-Sound : (m : Manager) → Sound m → Sound (allocate_network_function_ip m).0
unfolding allocate_network_function_ip handed
allocate-Sound m (inl e) = rw (e, allocate_network_function_ip) (inl e)
allocate-Sound m (inr (f, n, k, b, c, h)) = elim (allocate_cases m f n k b c h) [
  | inl (t, r) ↦ rw r (
      inr (
        f,
        n,
        k,
        b,
        suc c,
        record {
          cidr = h.cidr;
          allocator =
              let e : b + c + 1 ≡ b + suc c = omega arith in
              ap (λ (i : ℕ). some (addrs_after f n k i)) e;
          ips = ap (λ (addrs : List Addr). ip f (n + (b + c + 1)) ∷ addrs) h.ips;
          network = h.network;
          room = ground (arith, t);
          bridge = h.bridge;
        },
      ))
  | inr (e, r) ↦ rw r (inr (f, n, k, b, c, h))
]

-- The manager after a new network, before any address is handed out.
new_network :
    (m : Manager) (f : Family) (n k b : ℕ)
    → IsNetwork (prefix f n k)
    → b + 0 < block f k
    → m.cidr ≡ prefix f n k
    → m.ip_allocator ≡ some (addrs_after f n k (b + 0))
    → m.allocated_ips ≡ []
    → (m.has_bridge ≡ false) ⊎ ((1 ≤ b) ⊎ (block f k ≤ 2))
    → Sound m
unfolding handed
new_network m f n k b w room cidr allocator ips bridge = inr (
  f,
  n,
  k,
  b,
  0,
  record {
    cidr = cidr;
    allocator = allocator;
    ips = ips;
    network = w;
    room = room;
    bridge = bridge;
  },
)

set_up_bridge-Sound :
    (net : Netlink) (m : Manager) (f : Family) (n k : ℕ)
    → IsNetwork (prefix f n k)
    → Sound
        (set_up_bridge net
          (configured m (prefix f n k) (addrs_after f n k 0))
          (next_ip (addrs_after f n k 0))).0
unfolding set_up_bridge
set_up_bridge-Sound net m f n k w =
    let next = next_ip_lem f n k 0 w (block_pos f n k) in
    elim (Bool-cases (ltb 2 (block f k))) [
      | inl t ↦
          rw (next, t)
            (new_network _ f n k 1 w (ground arith) refl refl refl (inr (inl (omega arith))))
      | inr t ↦
          rw (next, t)
            (new_network _ f n k 0 w (ground (arith, block_pos f n k)) refl refl refl
              (inr (inr (ground arith))))
    ]

new_addr_allocator-ok :
    (f : Family) (n k : ℕ)
    → prefix_is_valid (prefix f n k) ≡ true
    → prefix_eq (prefix f n k) (masked (prefix f n k)) ≡ true
    → new_addr_allocator (prefix f n k) ≡ ok (addrs_after f n k 0)
unfolding new_addr_allocator
new_addr_allocator-ok f n k v e = let z : n + 0 ≡ n = omega arith in rw (v, e, z) refl

abbrev FirstSound : Manager × Option TargetError → Type 0
FirstSound r = Sound r.0

use_allocator-Sound :
    (net : Netlink) (m : Manager) (cidr : Prefix)
    → Sound m
    → Sound (use_allocator net m cidr (new_addr_allocator cidr)).0
unfolding use_allocator new_addr_allocator
use_allocator-Sound net m no_prefix h = h
use_allocator-Sound net m (prefix f n k) h = elim (Bool-cases (prefix_is_valid (prefix f n k))) [
  | inr v ↦ rw v h
  | inl v ↦ elim (Bool-cases (prefix_eq (prefix f n k) (masked (prefix f n k)))) [
    | inr e ↦ rw (v, e) h
    | inl e ↦
        let w = network_of_checks f n k v e in
        rw (new_addr_allocator-ok f n k v e) (
          if_cases FirstSound m.has_bridge (λ b. set_up_bridge-Sound net m f n k w)
            (λ b.
              new_network (configured m (prefix f n k) (addrs_after f n k 0)) f n k 0 w
                (block_pos f n k) refl refl refl (inl b)))
  ]
]

step-Sound : (m : Manager) (a : Action) → Sound m → Sound (step m a)
unfolding step ensure_network_configuration
step-Sound m (ensures net none) h = h
step-Sound m (ensures net (some p)) h =
    if_cases FirstSound (prefix_eq m.cidr (masked p)) (λ e. h)
      (λ e. use_allocator-Sound net m (masked p) h)
step-Sound m allocates h = allocate-Sound m h

pub run-Sound : (m : Manager) (acts : List Action) → Sound m → Sound (run m acts)
unfolding run
run-Sound m [] h = h
run-Sound m (a ∷ acts) h = run-Sound (step m a) acts (step-Sound m a h)
