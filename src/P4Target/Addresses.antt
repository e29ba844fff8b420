-- ===== src/P4Target/Addresses.antt =====
-- p4target_mgr.go: the addresses that a manager hands out, over any sequence of calls.
use mathlib.Core.Bool.{true≢false}
use iml.Common.{
  ℕ, ◌+◌, ◌≡◌, refl, ap, sym, ◌∙◌, subst, Bool, true, false, ◌&&◌, Option, none, some, List, ◌∷◌,
  ltb, arith, inl, inr,
}
use iml.Common.Results.{Result, ok, err}
use iml.Ipam.Netip.{Family, Addr, ip, block, addr_eq, next_addr, prefix_addr, prefix_contains}
use iml.Ipam.Network.{family_eq_refl, contains_range}
use iml.Ipam.Allocator.{AddrAllocator}
use iml.Ipam.Allocator.Laws.{addrs_after}
use iml.P4Target.Bridge.{BridgeAddr}
use iml.P4Target.Manager.{
  Manager, ManagerConfig, new_manager, has_addr, TargetError, allocate_network_function_ip,
}
use iml.P4Target.Runs.{Action, run, has_addr-handed, Handed, Sound, allocate_cases, run-Sound}

abbrev value_or : Addr → Result TargetError Addr → Addr
value_or a (ok b) = b
value_or a (err e) = a

abbrev second_is_ok : Manager × Result TargetError Addr → Bool
second_is_ok (m, ok b) = true
second_is_ok (m, err e) = false

-- What is said of an address handed out, and of the manager before and after.
abbrev pub Fresh : Manager → Manager → Addr → Type 0
Fresh m m' a =
    (has_addr a m.allocated_ips ≡ false)
    × (prefix_contains m.cidr a ≡ true)
    × (m'.allocated_ips ≡ a ∷ m.allocated_ips)
    × ((m.has_bridge && addr_eq a (next_addr (prefix_addr m.cidr))) ≡ false)

Handed-Fresh :
    (m : Manager) (f : Family) (n k b c : ℕ)
    → Handed m f n k b c
    → ltb (b + c + 2) (block f k) ≡ true
    → Fresh m
        (record m {
          ip_allocator = some (addrs_after f n k (b + c + 1));
          allocated_ips = ip f (n + (b + c + 1)) ∷ m.allocated_ips;
        })
        (ip f (n + (b + c + 1)))
Handed-Fresh m f n k b c h t = (
  rw h.ips (has_addr-handed f n b c (b + c + 1) (omega arith)),
  rw h.cidr (ground (arith, contains_range f n k h.network (n + (b + c + 1)), t)),
  refl,
  rw h.cidr (ground (arith, h.bridge, t, h.network.2, family_eq_refl f)),
)

allocator_of : Result TargetError Manager → Option AddrAllocator
allocator_of (ok m) = m.ip_allocator
allocator_of (err e) = none

new_manager-allocator_of :
    (cfg : ManagerConfig) (bridge : List BridgeAddr) → allocator_of (new_manager cfg bridge) ≡ none
unfolding allocator_of new_manager
new_manager-allocator_of cfg bridge = ground arith

Sound-Fresh :
    (m : Manager) (m' : Manager) (a : Addr)
    → Sound m
    → allocate_network_function_ip m ≡ (m', ok a)
    → Fresh m m' a
unfolding allocate_network_function_ip
Sound-Fresh m m' a (inl e) h =
    absurd (true≢false (sym (ap second_is_ok h) ∙ rw (e, allocate_network_function_ip) refl))
Sound-Fresh m m' a (inr (f, n, k, b, c, s)) h = elim (allocate_cases m f n k b c s) [
  | inr (e, r) ↦ absurd (true≢false (sym (ap second_is_ok h) ∙ ap second_is_ok r))
  | inl (t, r) ↦
      subst (λ (p : Manager × Result TargetError Addr). Fresh m p.0 (value_or a p.1)) (sym r ∙ h)
        (Handed-Fresh m f n k b c s t)
]

-- Over any sequence of calls of a new manager, whatever the network answers, and whatever CIDRs it is
-- given: an address that `AllocateNetworkFunctionIP` returns lies in the present CIDR, is none of those
-- that were allocated since it was set, is not the first address of the CIDR where the manager has a
-- bridge, and is recorded as allocated.
pub allocate_network_function_ip-Fresh :
    (cfg : ManagerConfig) (bridge : List BridgeAddr) (m : Manager) (acts : List Action)
    (m' : Manager) (a : Addr)
    → new_manager cfg bridge ≡ ok m
    → allocate_network_function_ip (run m acts) ≡ (m', ok a)
    → Fresh (run m acts) m' a
unfolding allocator_of
allocate_network_function_ip-Fresh cfg bridge m acts m' a new h =
    Sound-Fresh (run m acts) m' a
      (run-Sound m acts (inl (sym (ap allocator_of new) ∙ new_manager-allocator_of cfg bridge))) h
