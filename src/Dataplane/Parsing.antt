-- ===== src/Dataplane/Parsing.antt =====
-- Addresses and networks read from strings, one of each family: `ParseDualStackAddressFromStrings`,
-- `ParseDualStackNetworkFromStrings`, `ParseDualStackGatewayFromStrings`, `ParsePrefixes` and
-- `ParseAddresses` of daemon/pkg/dataplane/vrf/util/vrf_util.go, the types of
-- daemon/pkg/utils/net/dualstack.go. Package netip is a parameter.
use iml.Common.{ℕ, Bool, true, false, List, [], ◌∷◌, length, Option, none, some, ltb, if◌then◌else◌}
use iml.Common.Results.{Result, ok, err}

-- `DualStackNetwork` and `DualStackAddress`: nil is `none`.
pub record DualStack (V : Type 0) : Type 0 where
  pub ipv4 : Option V
  pub ipv6 : Option V

-- `DualStackAddress{}` and `DualStackNetwork{}`.
abbrev pub no_addresses : {V : Type 0} → DualStack V
no_addresses = record { ipv4 = none; ipv6 = none }

abbrev pub is_empty : {V : Type 0} → DualStack V → Bool
is_empty d = elim d.ipv4 [ some v ↦ false | none ↦ elim d.ipv6 [ some v ↦ false | none ↦ true ] ]

-- The errors of the functions, with what their messages name.
pub data ParseError (Str P : Type 0) : Type 0 where
  too_many : ℕ → ParseError Str P
  invalid : Str → ParseError Str P
  multiple_ipv4 multiple_ipv6 : P → ParseError Str P

module _ {Str P : Type 0} (parse : Str → Option P) where
  -- The parsing loop: it returns at the first string that does not parse.
  unfoldable pub parse_all : List Str → Result (ParseError Str P) (List P)
  parse_all [] = ok []
  parse_all (s ∷ ss) = elim (parse s) [
    | none ↦ err (invalid s)
    | some p ↦ elim (parse_all ss) [ err e ↦ err e | ok ps ↦ ok (p ∷ ps) ]
  ]

  module _ {V : Type 0} (is4 : P → Bool) (value : P → V) where
    -- The second loop, with the `result` that it fills and returns beside an error.
    unfoldable pub place_all : List P → DualStack V → DualStack V × Option (ParseError Str P)
    place_all [] result = (result, none)
    place_all (p ∷ ps) result = elim (is4 p) [
      | true ↦ elim result.ipv4 [
        | some v ↦ (result, some (multiple_ipv4 p))
        | none ↦ place_all ps (record { ipv4 = some (value p); ipv6 = result.ipv6 })
      ]
      | false ↦ elim result.ipv6 [
        | some v ↦ (result, some (multiple_ipv6 p))
        | none ↦ place_all ps (record { ipv4 = result.ipv4; ipv6 = some (value p) })
      ]
    ]

    -- What the two functions share: their bodies differ in `parse`, `is4` and `value` only.
    unfoldable pub parse_dual_stack : List Str → DualStack V × Option (ParseError Str P)
    parse_dual_stack strings =
        if ltb 2 (length strings)
        then (no_addresses, some (too_many (length strings)))
        else elim (parse_all strings) [
          | err e ↦ (no_addresses, some e)
          | ok ps ↦ place_all ps no_addresses
        ]

    -- The values of one family, in their order.
    unfoldable pub values_of : Bool → List P → List V
    values_of four [] = []
    values_of four (p ∷ ps) =
        let rest = values_of four ps in
        elim (is4 p) [
          | true ↦ if four then value p ∷ rest else rest
          | false ↦ if four then rest else value p ∷ rest
        ]

-- What the functions use of netip and net: the parsers, the methods of an address and of a prefix,
-- and the conversions `AsSlice` and `net.IPNet{IP, Mask}` of them.
pub record Netip (Str Addr Prefix Ip IpNet : Type 0) : Type 0 where
  pub parse_addr : Str → Option Addr
  pub is4 : Addr → Bool
  pub as_slice : Addr → Ip
  pub parse_prefix : Str → Option Prefix
  pub addr : Prefix → Addr
  pub ip_net : Prefix → IpNet

module _ {Str Addr Prefix Ip IpNet : Type 0} (net : Netip Str Addr Prefix Ip IpNet) where
  unfoldable pub parse_dual_stack_address_from_strings :
      List Str → DualStack Ip × Option (ParseError Str Addr)
  parse_dual_stack_address_from_strings = parse_dual_stack net.parse_addr net.is4 net.as_slice

  unfoldable pub parse_dual_stack_network_from_strings :
      List Str → DualStack IpNet × Option (ParseError Str Prefix)
  parse_dual_stack_network_from_strings =
      parse_dual_stack net.parse_prefix (λ p. net.is4 (net.addr p)) net.ip_net

  unfoldable pub parse_dual_stack_gateway_from_strings :
      List Str → DualStack Ip × Option (ParseError Str Addr)
  parse_dual_stack_gateway_from_strings strings =
      let (addrs, e) = parse_dual_stack_address_from_strings strings in
      elim e [
        | some x ↦ (no_addresses, some x)
        | none ↦ (record { ipv4 = addrs.ipv4; ipv6 = addrs.ipv6 }, none)
      ]

  unfoldable pub parse_prefixes : List Str → Result (ParseError Str Prefix) (List Prefix)
  parse_prefixes = parse_all net.parse_prefix

  unfoldable pub parse_addresses : List Str → Result (ParseError Str Addr) (List Addr)
  parse_addresses = parse_all net.parse_addr
