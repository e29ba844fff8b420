-- ===== src/P4Target/Bridge.antt =====
-- p4target_mgr.go, `configureNFBridge`: the addresses of the bridge interface. What netlink answers is
-- an argument: the error of each request, or none. `AddrList` returns what the interface has.
use iml.Common.{
  ℕ, ◌+◌, ◌*◌, ◌/◌, ◌%◌, ◌^◌, ◌≡◌, refl, ap, Bool, false, ◌&&◌, ◌||◌, ◌==◌, Option, none, some,
  List, [], ◌∷◌, ◌++◌, if◌then◌else◌, Bool-cases, Option-cases, inl, inr, ◌⊎◌, ◌∙◌,
}
use iml.Ipam.Netip.{Addr, ip, v4, v6, Prefix, prefix, unmap, prefix_contains}
use iml.Ipam.Allocator.{prefix_bits}

-- `IsLinkLocalUnicast`, `IsLoopback` and `IsLinkLocalMulticast` of Go's net.IP.
abbrev pub is_link_local_unicast : Addr → Bool
is_link_local_unicast a =
    prefix_contains (prefix v4 ((169 * 256 + 254) * 2 ^ 16) 16) (unmap a)
    || prefix_contains (prefix v6 (0xfe80 * 2 ^ 112) 10) (unmap a)

abbrev pub is_loopback : Addr → Bool
is_loopback a =
    prefix_contains (prefix v4 (127 * 2 ^ 24) 8) (unmap a)
    || prefix_contains (prefix v6 1 128) (unmap a)

abbrev pub is_link_local_multicast_v6 : Addr → Bool
is_link_local_multicast_v6 (ip v6 n) = n / 2 ^ 120 == 0xff && n / 2 ^ 112 % 16 == 2
is_link_local_multicast_v6 _ = false

abbrev pub is_link_local_multicast : Addr → Bool
is_link_local_multicast a =
    prefix_contains (prefix v4 (224 * 2 ^ 24) 24) (unmap a) || is_link_local_multicast_v6 (unmap a)

-- An address of the interface, with the length of its mask.
pub record BridgeAddr : Type 0 where
  pub addr : Addr
  pub bits : ℕ

pub record Netlink : Type 0 where
  pub link_by_name : Option ℕ
  pub addr_list : Option ℕ
  pub addr_del : BridgeAddr → Option ℕ
  pub addr_add : BridgeAddr → Option ℕ

unfoldable pub stays : BridgeAddr → Bool
stays a = is_link_local_unicast a.addr || is_loopback a.addr || is_link_local_multicast a.addr

-- The loop over the previous addresses: what the interface has then, and the first error.
unfoldable pub remove_previous : Netlink → List BridgeAddr → List BridgeAddr × Option ℕ
unfolding stays
remove_previous net [] = ([], none)
remove_previous net (a ∷ addrs) =
    let (rest, error) = remove_previous net addrs in
    if stays a
    then (a ∷ rest, error)
    else elim (net.addr_del a) [ some e ↦ (a ∷ addrs, some e) | none ↦ (rest, error) ]

abbrev pub new_bridge_addr : Addr → Prefix → BridgeAddr
new_bridge_addr a cidr = record { addr = unmap a; bits = prefix_bits cidr }

abbrev pub add_bridge_addr :
    Netlink → BridgeAddr → List BridgeAddr × Option ℕ → List BridgeAddr × Option ℕ
add_bridge_addr net a (left, some e) = (left, some e)
add_bridge_addr net a (left, none) = elim (net.addr_add a) [
  | some e ↦ (left, some e)
  | none ↦ (left ++ a ∷ [], none)
]

unfoldable pub configure_nf_bridge :
    Netlink → List BridgeAddr → Addr → Prefix → List BridgeAddr × Option ℕ
unfolding remove_previous
configure_nf_bridge net bridge a cidr = elim net.link_by_name [
  | some e ↦ (bridge, some e)
  | none ↦ elim net.addr_list [
    | some e ↦ (bridge, some e)
    | none ↦ add_bridge_addr net (new_bridge_addr a cidr) (remove_previous net bridge)
  ]
]

-- The addresses that stay.
unfoldable pub staying : List BridgeAddr → List BridgeAddr
unfolding stays
staying [] = []
staying (a ∷ addrs) = let rest = staying addrs in if stays a then a ∷ rest else rest

-- All addresses are gone that do not stay; or a request failed, and all are there that stay.
abbrev pub Removed : List BridgeAddr → List BridgeAddr × Option ℕ → Type 0
Removed addrs r =
    (r ≡ (staying addrs, none))
    ⊎ ((left : List BridgeAddr) × (e : ℕ) × (r ≡ (left, some e)) × (staying left ≡ staying addrs))

remove_previous-Removed :
    (net : Netlink) (addrs : List BridgeAddr) → Removed addrs (remove_previous net addrs)
unfolding staying remove_previous
remove_previous-Removed net [] = inl refl
remove_previous-Removed net (a ∷ addrs) =
    let rest = remove_previous-Removed net addrs in
    elim (Bool-cases (stays a)) [
      | inl s ↦ elim rest [
        | inl r ↦ inl (rw (s, staying, remove_previous, r) refl)
        | inr (left, e, r, kept) ↦ inr (
          a ∷ left,
          e,
          rw (s, remove_previous, r) refl,
          rw (s, staying) (ap (λ (as' : List BridgeAddr). a ∷ as') kept),
        )
      ]
      | inr s ↦ elim (Option-cases (net.addr_del a)) [
        | inl d ↦ elim rest [
          | inl r ↦ inl (rw (s, staying, remove_previous, d, r) refl)
          | inr (left, e, r, kept) ↦
              inr (left, e, rw (s, remove_previous, d, r) refl, rw (s, staying) kept)
        ]
        | inr (e, d) ↦ inr (a ∷ addrs, e, rw (s, remove_previous, d) refl, refl)
      ]
    ]

staying_idem : (addrs : List BridgeAddr) → staying (staying addrs) ≡ staying addrs
unfolding staying
staying_idem [] = refl
staying_idem (a ∷ addrs) = elim (Bool-cases (stays a)) [
  | inl s ↦
      rw (s, staying)
        (rw (s, staying) (ap (λ (as' : List BridgeAddr). a ∷ as') (staying_idem addrs)))
  | inr s ↦ rw (s, staying) (staying_idem addrs)
]

add_bridge_addr_cases :
    (net : Netlink) (a : BridgeAddr) (left : List BridgeAddr)
    → (add_bridge_addr net a (left, none) ≡ (left ++ a ∷ [], none))
      ⊎ ((e : ℕ) × (add_bridge_addr net a (left, none) ≡ (left, some e)))
add_bridge_addr_cases net a left = elim (Option-cases (net.addr_add a)) [
  | inl d ↦ inl (rw (d, add_bridge_addr) refl)
  | inr (e, d) ↦ inr (e, rw (d, add_bridge_addr) refl)
]

-- If `configureNFBridge` succeeds, the bridge has exactly the addresses before that are link-local or
-- loopback ones, in their order, and then the new one; if it fails, the bridge still has those.
pub configure_nf_bridge_lem :
    (net : Netlink) (bridge : List BridgeAddr) (a : Addr) (cidr : Prefix)
    → let r = configure_nf_bridge net bridge a cidr in
      (r ≡ (staying bridge ++ new_bridge_addr a cidr ∷ [], none))
      ⊎ ((e : ℕ) × (r.1 ≡ some e) × (staying r.0 ≡ staying bridge))
unfolding configure_nf_bridge
configure_nf_bridge_lem net bridge a cidr = elim (Option-cases net.link_by_name) [
  | inr (e, l) ↦ inr (e, rw l refl, rw l refl)
  | inl l ↦ elim (Option-cases net.addr_list) [
    | inr (e, g) ↦ inr (e, rw (l, g) refl, rw (l, g) refl)
    | inl g ↦ elim (remove_previous-Removed net bridge) [
      | inr (left, e, r, kept) ↦ inr (e, rw (l, g, r) refl, rw (l, g, r) kept)
      | inl r ↦ elim (add_bridge_addr_cases net (new_bridge_addr a cidr) (staying bridge)) [
        | inl d ↦ inl (rw (l, g, r) d)
        | inr (e, d) ↦ inr (
          e,
          rw (l, g, r) (ap (λ (p : List BridgeAddr × Option ℕ). p.1) d),
          rw (l, g, r)
              (ap (λ (p : List BridgeAddr × Option ℕ). staying p.0) d ∙ staying_idem bridge),
        )
      ]
    ]
  ]
]
