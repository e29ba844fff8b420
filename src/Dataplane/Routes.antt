-- ===== src/Dataplane/Routes.antt =====
-- The routes of the routing subnet and of the application subnets: the methods of
-- daemon/pkg/dataplane/vrf/routingsubnet.go and appsubnet.go that read, add and remove them.
use iml.Common.{
  ℕ, Bool, true, false, not, ◌&&◌, List, [], ◌∷◌, ◌++◌, Option, none, some, if◌then◌else◌,
}
use iml.Common.Results.{Result, ok, err}
use iml.Common.Texts.{Text, text_eq}
use iml.Dataplane.Parsing.{DualStack, no_addresses, is_empty}
use iml.Dataplane.Descendants.{Link, reversed}
use iml.Dataplane.Kernel.{
  Ip, IpNet, Route, Request, Kernel, Failure, Action, Asking, pure, raise, raise_if, when_some,
  ◌>>=◌, ◌>>◌, ask, look_up, no_networks, no_gateway_4, no_gateway_6, no_tunnel, nil_subnet,
  route_add, route_replace, route_del, link_set_master,
}
pub mod Plan

pub data StackType : Type 0 where
  unknown_stack ipv4_only ipv6_only dual_stack : StackType

abbrev pub is_some {ℓ} : {A : Type ℓ} → Option A → Bool
is_some none = false
is_some (some a) = true

pub record RoutingSubnet : Type 0 where
  pub target_network : IpNet
  pub gateway : Ip
  pub vrf : Text
  pub table : ℕ
  pub bridge : Text
  pub decap_sid_v4 : IpNet
  pub decap_sid_v6 : IpNet

pub record AppSubnet : Type 0 where
  pub networks : DualStack IpNet
  pub gateway_ips : DualStack Ip
  pub vrf : Text
  pub table : ℕ
  pub bridge : Text
  pub tunnel : Text

-- `GetStack` of an application subnet or a target VRF, by its networks.
unfoldable pub get_stack : DualStack IpNet → StackType
get_stack n =
    if is_some n.ipv4 && is_some n.ipv6
    then dual_stack
    else if is_some n.ipv4
    then ipv4_only
    else if is_some n.ipv6
    then ipv6_only
    else unknown_stack

-- `netlink.Route{Dst, Table, LinkIndex}`
abbrev pub route_to : Option IpNet → ℕ → ℕ → Route
route_to dst table index = record {
  dst = dst;
  gw = none;
  table = table;
  link_index = index;
  segments = [];
  unreachable = false;
}

-- `netlink.Route{Dst, Gw, Table, LinkIndex}`
abbrev pub route_via : Option IpNet → Ip → ℕ → ℕ → Route
route_via dst gw table index = record {
  dst = dst;
  gw = some gw;
  table = table;
  link_index = index;
  segments = [];
  unreachable = false;
}

-- `netlink.Route{Dst, Table, Encap, LinkIndex}`
abbrev pub route_through : Option IpNet → List Ip → ℕ → ℕ → Route
route_through dst sids table index = record {
  dst = dst;
  gw = none;
  table = table;
  link_index = index;
  segments = sids;
  unreachable = false;
}

-- The networks of `AddDefaultRouteViaSubnet` and `AddDefaultRoute`: 0.0.0.0/0 and ::/0.
abbrev pub default_network : DualStack IpNet
default_network = record {
  ipv4 = some (record { ip = 0 ∷ 0 ∷ 0 ∷ 0 ∷ []; ones = 0 });
  ipv6 = some (record {
    ip = 0 ∷ 0 ∷ 0 ∷ 0 ∷ 0 ∷ 0 ∷ 0 ∷ 0 ∷ 0 ∷ 0 ∷ 0 ∷ 0 ∷ 0 ∷ 0 ∷ 0 ∷ 0 ∷ [];
    ones = 0;
  });
}

module _ (kernel : Kernel) where
  -- `AddRouteViaVRF` of both kinds of subnet, by the table of the subnet's VRF.
  unfoldable pub add_route_via_vrf : ℕ → DualStack IpNet → Text → Asking (Unit {0})
  add_route_via_vrf table dst vrf_name = do
    raise_if (is_empty dst) no_networks
    vrf ← look_up kernel vrf_name
    when_some dst.ipv6 (λ n. ask kernel (route_add (route_to (some n) table vrf.index)))
    when_some dst.ipv4 (λ n. ask kernel (route_add (route_to (some n) table vrf.index)))

  -- A subnet as a destination: its network and the name of its VRF; nil is `none`.
  unfoldable pub add_default_route_via_subnet :
      ℕ → Option (DualStack IpNet × Text) → Asking (Unit {0})
  add_default_route_via_subnet table none = raise nil_subnet
  add_default_route_via_subnet table (some (network, vrf)) =
      add_route_via_vrf table default_network vrf

  unfoldable pub add_route_to_subnet : ℕ → Option (DualStack IpNet × Text) → Asking (Unit {0})
  add_route_to_subnet table none = raise nil_subnet
  add_route_to_subnet table (some (network, vrf)) = add_route_via_vrf table network vrf

  -- The same methods of an application subnet.
  unfoldable pub add_app_route_via_vrf : AppSubnet → DualStack IpNet → Text → Asking (Unit {0})
  add_app_route_via_vrf s = add_route_via_vrf s.table

  unfoldable pub add_default_app_route_via_subnet :
      AppSubnet → Option (DualStack IpNet × Text) → Asking (Unit {0})
  add_default_app_route_via_subnet s none = raise nil_subnet
  add_default_app_route_via_subnet s (some (network, vrf)) =
      add_app_route_via_vrf s default_network vrf

  unfoldable pub add_app_route_to_subnet :
      AppSubnet → Option (DualStack IpNet × Text) → Asking (Unit {0})
  add_app_route_to_subnet s none = raise nil_subnet
  add_app_route_to_subnet s (some (network, vrf)) = add_app_route_via_vrf s network vrf

  -- `AddRoute` of both kinds of subnet, which differ in the request: the routing subnet replaces a
  -- route, an application subnet adds it.
  unfoldable pub install_route :
      (Route → Request) → Text → ℕ → DualStack IpNet → DualStack Ip → Text → Asking (Unit {0})
  install_route how vrf table dst gw out_interface = do
    raise_if (is_empty dst) no_networks
    raise_if (is_some dst.ipv4 && not (is_some gw.ipv4)) no_gateway_4
    raise_if (is_some dst.ipv6 && not (is_some gw.ipv6)) no_gateway_6
    out_if ← look_up kernel out_interface
    ask kernel (link_set_master out_interface vrf)
    when_some gw.ipv6 (λ g. ask kernel (how (route_via dst.ipv6 g table out_if.index)))
    when_some gw.ipv4 (λ g. ask kernel (how (route_via dst.ipv4 g table out_if.index)))

  unfoldable pub add_routing_route :
      RoutingSubnet → DualStack IpNet → DualStack Ip → Text → Asking (Unit {0})
  add_routing_route r = install_route route_replace r.vrf r.table

  unfoldable pub add_app_route :
      AppSubnet → DualStack IpNet → DualStack Ip → Text → Asking (Unit {0})
  add_app_route s = install_route route_add s.vrf s.table

  -- `RemoveRoute` of the routing subnet.
  unfoldable pub remove_route : ℕ → DualStack IpNet → Asking (Unit {0})
  remove_route table dst = do
    raise_if (is_empty dst) no_networks
    when_some dst.ipv4 (λ n. ask kernel (route_del (route_to (some n) table 0)))
    when_some dst.ipv6 (λ n. ask kernel (route_del (route_to (some n) table 0)))

  -- `AddDefaultRoute` of the routing subnet.
  unfoldable pub add_default_route : RoutingSubnet → DualStack Ip → Text → Asking (Unit {0})
  add_default_route r gateway_ips tunnel = add_routing_route r default_network gateway_ips tunnel

  -- `AddDefaultRoute` of an application subnet.
  unfoldable pub add_default_app_route : AppSubnet → DualStack Ip → Text → Asking (Unit {0})
  add_default_app_route s gateway_ips tunnel = add_app_route s default_network gateway_ips tunnel

  -- The segments end at the decapsulation SID of the family, and the kernel takes them reversed.
  unfoldable pub add_srv6_route :
      AppSubnet → DualStack IpNet → List Ip → IpNet → IpNet → Asking (Unit {0})
  add_srv6_route s dst sids decap_sid_v4 decap_sid_v6 = do
    raise_if (is_empty dst) no_networks
    raise_if (text_eq s.tunnel []) no_tunnel
    tun ← look_up kernel s.tunnel
    when_some dst.ipv4 (λ n. ask kernel (
        route_replace
          (route_through (some n) (reversed (sids ++ (decap_sid_v4.ip ∷ []))) s.table tun.index)))
    when_some dst.ipv6 (λ n. ask kernel (
        route_replace
          (route_through (some n) (reversed (sids ++ (decap_sid_v6.ip ∷ []))) s.table tun.index)))

  unfoldable pub delete_srv6_route : AppSubnet → DualStack IpNet → Asking (Unit {0})
  delete_srv6_route s dst = do
    raise_if (is_empty dst) no_networks
    when_some dst.ipv4 (λ n. ask kernel (route_del (route_to (some n) s.table 0)))
    when_some dst.ipv6 (λ n. ask kernel (route_del (route_to (some n) s.table 0)))

-- `AllocateIPs` of an application subnet, by its stack; the allocators and their errors are of
-- daemon/pkg/dataplane/alloc.go. With IPv6 only, the network goes into the field of IPv4.
unfoldable pub allocate_ips {ℓ} :
    {E : Type ℓ} → StackType → E → Result E IpNet → Result E IpNet → Result E (DualStack IpNet)
allocate_ips unknown_stack e v4 v6 = err e
allocate_ips ipv4_only e v4 v6 = elim v4 [
  | err x ↦ err x
  | ok n ↦ ok (record { ipv4 = some n; ipv6 = none })
]
allocate_ips ipv6_only e v4 v6 = elim v6 [
  | err x ↦ err x
  | ok n ↦ ok (record { ipv4 = some n; ipv6 = none })
]
allocate_ips dual_stack e v4 v6 = elim v6 [
  | err x ↦ err x
  | ok n ↦ elim v4 [ err x ↦ err x | ok m ↦ ok (record { ipv4 = some m; ipv6 = some n }) ]
]
