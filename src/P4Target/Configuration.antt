-- ===== src/P4Target/Configuration.antt =====
-- p4target_mgr.go: `EnsureNetworkConfiguration` called again.
use mathlib.Core.Bool.{true≢false, false≢true}
use iml.Common.{
  ◌≡◌, refl, ap, sym, ◌∙◌, Bool, true, false, Option, none, some, inl, inr, arith, if_cases, ◌⊎◌,
}
use iml.Common.Results.{Result, ok, err}
use iml.Ipam.Netip.{Addr, Prefix, no_prefix, prefix, prefix_eq, masked}
use iml.Ipam.Network.{family_eq_refl}
use iml.Ipam.Allocator.{AddrAllocator, AllocError, new_addr_allocator, next_ip}
use iml.P4Target.Bridge.{Netlink}
use iml.P4Target.Manager.{
  Manager, TargetError, no_bridge, no_bridge_ip, set_up_bridge, use_allocator, configured,
  ensure_network_configuration,
}

prefix_eq_refl : (p : Prefix) → prefix_eq p p ≡ true
prefix_eq_refl no_prefix = refl
prefix_eq_refl (prefix f n k) = ground (arith, family_eq_refl f)

-- Whether the network was taken over: no error, or one of the bridge.
abbrev pub taken_over : Option TargetError → Bool
taken_over none = true
taken_over (some (no_bridge e)) = true
taken_over (some (no_bridge_ip e)) = true
taken_over (some _) = false

-- What is left to do once the network is taken over.
abbrev Settled : Prefix → Manager × Option TargetError → Type 0
Settled cidr r = (taken_over r.1 ≡ false) ⊎ (r.0.cidr ≡ cidr)

set_up_bridge-Settled :
    (net : Netlink) (m : Manager) (r : AddrAllocator × Result AllocError Addr)
    → Settled m.cidr (set_up_bridge net m r)
unfolding set_up_bridge
set_up_bridge-Settled net m (alloc, err e) = inr refl
set_up_bridge-Settled net m (alloc, ok a) = inr refl

use_allocator-Settled :
    (net : Netlink) (m : Manager) (cidr : Prefix) (r : Result AllocError AddrAllocator)
    → Settled cidr (use_allocator net m cidr r)
unfolding use_allocator
use_allocator-Settled net m cidr (err e) = inl refl
use_allocator-Settled net m cidr (ok alloc) =
    if_cases (Settled cidr) m.has_bridge
      (λ b. set_up_bridge-Settled net (configured m cidr alloc) (next_ip alloc)) (λ b. inr refl)

eq_of_prefix_eq : (p q : Prefix) → prefix_eq p q ≡ true → p ≡ q
eq_of_prefix_eq no_prefix no_prefix h = refl
eq_of_prefix_eq no_prefix (prefix g m j) h = absurd (false≢true h)
eq_of_prefix_eq (prefix f n k) no_prefix h = absurd (false≢true h)
eq_of_prefix_eq (prefix f n k) (prefix g m j) h = ground arith

abbrev second_taken : Manager × Option TargetError → Bool
second_taken r = taken_over r.1

ensure_network_configuration-Settled :
    (net : Netlink) (m : Manager) (p : Prefix)
    → Settled (masked p) (ensure_network_configuration net m (some p))
unfolding ensure_network_configuration
ensure_network_configuration-Settled net m p =
    if_cases (Settled (masked p)) (prefix_eq m.cidr (masked p))
      (λ e. inr (eq_of_prefix_eq m.cidr (masked p) e))
      (λ e. use_allocator-Settled net m (masked p) (new_addr_allocator (masked p)))

-- If `EnsureNetworkConfiguration` returns no error, or one of the bridge, then a second call with a
-- CIDR of the same network does nothing and returns no error: what is allocated is kept, and a bridge
-- that was not configured is not configured then either, whatever the network answers.
pub ensure_network_configuration_again :
    (net net' : Netlink) (m m' : Manager) (p q : Prefix) (error : Option TargetError)
    → ensure_network_configuration net m (some p) ≡ (m', error)
    → taken_over error ≡ true
    → masked q ≡ masked p
    → ensure_network_configuration net' m' (some q) ≡ (m', none)
unfolding ensure_network_configuration
ensure_network_configuration_again net net' m m' p q error first taken same =
    elim (ensure_network_configuration-Settled net m p) [
      | inl left ↦ absurd (true≢false (sym taken ∙ sym (ap second_taken first) ∙ left))
      | inr c ↦
          let at : m'.cidr ≡ masked p =
            sym (ap (λ (r : Manager × Option TargetError). r.0.cidr) first) ∙ c in
          rw (at, same, prefix_eq_refl (masked p)) refl
    ]
