-- ===== src/Dataplane/NodeIp.antt =====
-- Which of a node's or a link's addresses is used: `GetNodeIP` and `GetDualStackAddressFromLink` of
-- daemon/pkg/dataplane/vrf/util/vrf_util.go. The functions of net and netip that they call, and
-- `netlink.AddrList`, are parameters.
use iml.Common.{◌≡◌, Bool, true, false, List, [], ◌∷◌, Option, none, some, refl, if◌then◌else◌}
use iml.Dataplane.Parsing.{DualStack, no_addresses}

-- `infrav1alpha1.AddressType`: the two that the code tells apart, and the others.
pub data AddressType : Type 0 where
  internal_ip external_ip other_type : AddressType

abbrev pub same_type : AddressType → AddressType → Bool
same_type internal_ip internal_ip = true
same_type external_ip external_ip = true
same_type other_type other_type = true
same_type internal_ip external_ip = false
same_type internal_ip other_type = false
same_type external_ip internal_ip = false
same_type external_ip other_type = false
same_type other_type internal_ip = false
same_type other_type external_ip = false

pub record Address (Str : Type 0) : Type 0 where
  pub kind : AddressType
  pub ip : Str

module _ {Str Ip : Type 0} (parse_ip : Str → Option Ip) (has_4 : Ip → Bool) where
  -- The address that an entry gives for the family; `has_4` is `To4() != nil`.
  unfoldable pub usable : Bool → Address Str → Option Ip
  usable ipv6 a = elim (parse_ip a.ip) [
    | none ↦ none
    | some ip ↦ elim ipv6 [
      | true ↦ elim (has_4 ip) [ true ↦ none | false ↦ some ip ]
      | false ↦ elim (has_4 ip) [ true ↦ some ip | false ↦ none ]
    ]
  ]

  -- The loop, with `backupIP`.
  unfoldable pub scan_addresses : Bool → List (Address Str) → Option Ip → Option Ip
  scan_addresses ipv6 [] backup = backup
  scan_addresses ipv6 (a ∷ addrs) backup = elim (usable ipv6 a) [
    | none ↦ scan_addresses ipv6 addrs backup
    | some ip ↦ elim a.kind [
      | internal_ip ↦ some ip
      | external_ip ↦ scan_addresses ipv6 addrs (some ip)
      | other_type ↦ elim backup [
        | none ↦ scan_addresses ipv6 addrs (some ip)
        | some b ↦ scan_addresses ipv6 addrs (some b)
      ]
    ]
  ]

  unfoldable pub get_node_ip : List (Address Str) → Bool → Option Ip
  get_node_ip addrs ipv6 = scan_addresses ipv6 addrs none

  abbrev pub or_else : Option Ip → Option Ip → Option Ip
  or_else none b = b
  or_else (some a) b = some a

  -- The first (the last) of the usable addresses of one type.
  unfoldable pub first_of : Bool → AddressType → List (Address Str) → Option Ip
  first_of ipv6 t [] = none
  first_of ipv6 t (a ∷ addrs) =
      or_else (if same_type a.kind t then usable ipv6 a else none) (first_of ipv6 t addrs)

  unfoldable pub last_of : Bool → AddressType → List (Address Str) → Option Ip
  last_of ipv6 t [] = none
  last_of ipv6 t (a ∷ addrs) =
      or_else (last_of ipv6 t addrs) (if same_type a.kind t then usable ipv6 a else none)

  or_else-none : (a : Option Ip) → or_else a none ≡ a
  or_else-none none = refl
  or_else-none (some x) = refl

  or_else_assoc : (a b c : Option Ip) → or_else (or_else a b) c ≡ or_else a (or_else b c)
  or_else_assoc none b c = refl
  or_else_assoc (some a) b c = refl

  -- One turn of the loop, with what the rest of it returns.
  scan_step :
      (u : Option Ip) (k : AddressType) (backup first last other : Option Ip)
      → (scan : Option Ip → Option Ip)
      → ((b : Option Ip) → scan b ≡ or_else first (or_else last (or_else b other)))
      → elim u [
        | none ↦ scan backup
        | some ip ↦ elim k [
          | internal_ip ↦ some ip
          | external_ip ↦ scan (some ip)
          | other_type ↦ elim backup [ none ↦ scan (some ip) | some b ↦ scan (some b) ]
        ]
      ]
        ≡ or_else (or_else (if same_type k internal_ip then u else none) first) (
            or_else
              (or_else last (if same_type k external_ip then u else none))
              (or_else backup (or_else (if same_type k other_type then u else none) other)))
  scan_step none internal_ip backup first last other scan h = rw (or_else-none last) (h backup)
  scan_step none external_ip backup first last other scan h = rw (or_else-none last) (h backup)
  scan_step none other_type backup first last other scan h = rw (or_else-none last) (h backup)
  scan_step (some ip) internal_ip backup first last other scan h = refl
  scan_step (some ip) external_ip backup first last other scan h =
      rw (or_else_assoc last (some ip)) (h (some ip))
  scan_step (some ip) other_type none first last other scan h = rw (or_else-none last) (h (some ip))
  scan_step (some ip) other_type (some b) first last other scan h =
      rw (or_else-none last) (h (some b))

  scan_addresses-backup :
      (ipv6 : Bool) (addrs : List (Address Str)) (backup : Option Ip)
      → scan_addresses ipv6 addrs backup
        ≡ or_else (first_of ipv6 internal_ip addrs) (
            or_else
              (last_of ipv6 external_ip addrs)
              (or_else backup (first_of ipv6 other_type addrs)))
  unfolding scan_addresses first_of last_of
  scan_addresses-backup ipv6 [] none = refl
  scan_addresses-backup ipv6 [] (some b) = refl
  scan_addresses-backup ipv6 (a ∷ addrs) backup =
      scan_step (usable ipv6 a) a.kind backup _ _ _ (scan_addresses ipv6 addrs)
        (scan_addresses-backup ipv6 addrs)

  -- `GetNodeIP` returns, of the addresses that parse and are of the family asked for, the first
  -- internal one; where there is none, the last external one; where there is none of these either,
  -- the first of the other types; and nil where there is none at all.
  pub get_node_ip_lem :
      (addrs : List (Address Str)) (ipv6 : Bool)
      → get_node_ip addrs ipv6
        ≡ or_else
            (first_of ipv6 internal_ip addrs)
            (or_else (last_of ipv6 external_ip addrs) (first_of ipv6 other_type addrs))
  unfolding get_node_ip
  get_node_ip_lem addrs ipv6 = scan_addresses-backup ipv6 addrs none

-- An entry of `netlink.AddrList`: its `IPNet.IP`, where it has an `IPNet`.
abbrev pub LinkAddr : Type 0 → Type 0
LinkAddr Ip = Option Ip

module _ {Ip Addr : Type 0} (addr_from_slice : Ip → Option Addr)
    (is4 is6 is_ula : Addr → Bool) where
  -- The loop of `GetDualStackAddressFromLink` over the addresses listed, `is_ula` for being inside
  -- fc00::/7. The error names the address that is none.
  unfoldable pub dual_stack_of : List (LinkAddr Ip) → DualStack Ip → DualStack Ip × Option Ip
  dual_stack_of [] result = (result, none)
  dual_stack_of (none ∷ addrs) result = dual_stack_of addrs result
  dual_stack_of (some ip ∷ addrs) result = elim (addr_from_slice ip) [
    | none ↦ (result, some ip)
    | some a ↦ dual_stack_of addrs (record {
      ipv4 = if is4 a then some ip else result.ipv4;
      ipv6 = if is6 a then if is_ula a then some ip else result.ipv6 else result.ipv6;
    })
  ]

  unfoldable pub get_dual_stack_address_from_link :
      Option (List (LinkAddr Ip)) → DualStack Ip × Option (Option Ip)
  get_dual_stack_address_from_link none = (no_addresses, some none)
  get_dual_stack_address_from_link (some addrs) =
      let (r, e) = dual_stack_of addrs no_addresses in
      (r, elim e [ none ↦ none | some ip ↦ some (some ip) ])
