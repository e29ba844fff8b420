-- ===== src/Dataplane/TargetVrfs.antt =====
-- The VRFs of targets that the data plane keeps: `EnsureP4TargetVRF` and `RemoveP4TargetVRF` of
-- daemon/pkg/dataplane/vrf/software_linux.go. The lock is left out:
-- each call is one step. The name of a target is a number.
use iml.Common.{
  ℕ, Bool, true, false, ◌&&◌, List, [], ◌∷◌, Option, none, some, if◌then◌else◌, ℕ_discrete,
}
use iml.Common.Maps.{Map, insert, delete}
use iml.Common.Results.{Result, ok, err}
use iml.Common.Texts.{Text, text_eq}
use iml.Dataplane.Parsing.{DualStack, Netip, parse_dual_stack_network_from_strings}
use iml.Dataplane.Descendants.{Link}
use iml.Dataplane.Kernel.{
  Ip, IpNet, Request, Kernel, Failure, Action, Asking, pure, raise, modify, deferred, logged,
  when_some, ◌>>=◌, ◌>>◌, ask, look_up, no_cidr, invalid_cidr, no_name, no_address, add_veth,
  link_set_master, addr_add, link_set_up,
}
use iml.Dataplane.Routes.{RoutingSubnet, add_routing_route}
use iml.Dataplane.Alloc.{
  Iplib, SubnetAllocator, TableAllocator, allocate_subnet, new_ip_allocator, allocate_ip,
  allocate_table,
}
use iml.Dataplane.TargetVrf.{
  TargetVrf, target_vrf_name, new_target_vrf, add_default_vrf_route, teardown_target_vrf,
  add_ct_zone_rule, remove_ct_zone_rule,
}
use iml.Dataplane.Tunnels.{Tunnel, Fabric, on_kernel, next_table, create_ends, connect}
mod Tests
pub mod Ensured
pub mod Repeated

-- `dataplane.P4TargetVRFInfo`
pub record TargetVrfInfo : Type 0 where
  pub name : Text
  pub table : ℕ
  pub interface : Text
  pub addresses : DualStack Ip
  pub gateways : DualStack Ip

unfoldable pub target_vrf_info : TargetVrf → TargetVrfInfo
target_vrf_info t = record {
  name = t.vrf;
  table = t.table;
  interface = t.tunnel;
  addresses = t.tunnel_addrs;
  gateways = t.router_tunnel_addrs;
}

abbrev pub addresses_of : DualStack (Ip × ℕ) → DualStack Ip
addresses_of d = record {
  ipv4 = elim d.ipv4 [ none ↦ none | some a ↦ some a.0 ];
  ipv6 = elim d.ipv6 [ none ↦ none | some a ↦ some a.0 ];
}

-- What the functions only read: the routing subnet, whether there are IPv4 tables, `IPNet.String`
-- and the table of a link that is a VRF.
pub record Settings : Type 0 where
  pub routing : RoutingSubnet
  pub with_ip4t : Bool
  pub net_string : IpNet → Text
  pub vrf_table : Link → Option ℕ

unfoldable pub ip_net_string : Settings → Option IpNet → Text
ip_net_string c none = []
ip_net_string c (some n) = c.net_string n

unfoldable pub same_dual_stack_network : Settings → DualStack IpNet → DualStack IpNet → Bool
same_dual_stack_network c a b =
    text_eq (ip_net_string c a.ipv4) (ip_net_string c b.ipv4)
    && text_eq (ip_net_string c a.ipv6) (ip_net_string c b.ipv6)

module _ (lib : Iplib) (kernel : Kernel) (c : Settings) where
  -- A target VRF at a stage of its construction.
  abbrev pub target_vrf_of : ℕ → DualStack IpNet → TargetVrf
  target_vrf_of table cidr = record {
    nf_cidr = cidr;
    vrf = target_vrf_name table;
    table = table;
    tunnel = [];
    tunnel_addrs = record { ipv4 = none; ipv6 = none };
    router_tunnel = [];
    router_tunnel_addrs = record { ipv4 = none; ipv6 = none };
  }

  abbrev pub connected : TargetVrf → Tunnel → TargetVrf
  connected t tun = record t {
    tunnel = tun.name_2;
    tunnel_addrs = addresses_of tun.addrs_2;
    router_tunnel = tun.name_1;
    router_tunnel_addrs = addresses_of tun.addrs_1;
  }

  -- `d.teardownTargetVRF(t)`, which returns no error.
  unfoldable pub tear_down : TargetVrf → Action (Fabric lib) (Unit {0})
  tear_down t = logged (on_kernel lib (teardown_target_vrf kernel c.with_ip4t c.routing t))

  -- The part of `EnsureP4TargetVRF` that makes a VRF and connects it; what was made is torn down
  -- at an error, as far as it was noted in the VRF.
  unfoldable pub build : ℕ → DualStack IpNet → Action (Fabric lib) TargetVrf
  build table cidr = do
    on_kernel lib (new_target_vrf kernel c.vrf_table table cidr)
    let t = target_vrf_of table cidr
    tun ← deferred (create_ends lib kernel c.routing.vrf t.vrf) (tear_down t)
    deferred
        (on_kernel lib
          (connect lib kernel c.with_ip4t c.routing.vrf c.routing.table t.vrf table tun))
        (tear_down (record t { tunnel = tun.name_2 }))
    deferred (on_kernel lib (add_default_vrf_route kernel (connected t tun)))
        (tear_down (connected t tun))
    deferred
        (on_kernel lib
          (add_routing_route kernel c.routing cidr (addresses_of tun.addrs_2) tun.name_1))
        (tear_down (connected t tun))
    pure (connected t tun)

  -- `d.p4TargetVRFs[key] = t` and `delete(d.p4TargetVRFs, key)`
  abbrev pub keep : ℕ → TargetVrf → Fabric lib → Fabric lib
  keep key t d = record d { p4_target_vrfs = insert ℕ_discrete key t d.p4_target_vrfs }

  abbrev pub drop : ℕ → Fabric lib → Fabric lib
  drop key d = record d { p4_target_vrfs = delete ℕ_discrete key d.p4_target_vrfs }

  unfoldable pub create_target_vrf : ℕ → DualStack IpNet → Action (Fabric lib) TargetVrfInfo
  create_target_vrf key cidr = do
    table ← next_table lib
    t ← build table cidr
    modify (keep key t)
    pure (target_vrf_info t)

  unfoldable pub link_exists : Text → Fabric lib → Bool
  link_exists name d = elim (kernel.link_by_name d.asked name) [ ok l ↦ true | err e ↦ false ]

  -- `EnsureP4TargetVRF` after the NF CIDR is parsed.
  unfoldable pub ensure_vrf_of : ℕ → DualStack IpNet → Action (Fabric lib) TargetVrfInfo
  ensure_vrf_of key cidr d = elim (d.p4_target_vrfs key) [
    | none ↦ create_target_vrf key cidr d
    | some existing ↦
        if same_dual_stack_network c existing.nf_cidr cidr && link_exists existing.vrf d
        then (ok (target_vrf_info existing), d)
        else (tear_down existing >> (modify (drop key) >> create_target_vrf key cidr)) d
  ]

  unfoldable pub ensure_p4_target_vrf :
      {Addr Prefix : Type 0}
      → Netip Text Addr Prefix Ip IpNet
      → ℕ
      → Text
      → Action (Fabric lib) TargetVrfInfo
  ensure_p4_target_vrf net key nf_cidr =
      if text_eq nf_cidr []
      then raise no_cidr
      else let (cidr, e) = parse_dual_stack_network_from_strings net (nf_cidr ∷ []) in
        elim e [ some x ↦ raise invalid_cidr | none ↦ ensure_vrf_of key cidr ]

  unfoldable pub remove_p4_target_vrf : ℕ → Action (Fabric lib) (Unit {0})
  remove_p4_target_vrf key d = elim (d.p4_target_vrfs key) [
    | none ↦ (ok tt, d)
    | some t ↦ (tear_down t >> modify (drop key)) d
  ]
