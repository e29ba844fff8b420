-- ===== src/Dataplane/TargetVrf.antt =====
-- The VRFs of targets: `NewTargetVRF` and the methods of daemon/pkg/dataplane/vrf/targetvrf.go, with the
-- conntrack zone rules and `teardownTargetVRF` of software_linux.go. The log is left out.
use iml.Common.{
  ℕ, suc, zero, ◌+◌, ◌/◌, ◌%◌, ◌==◌, Bool, true, false, List, [], ◌∷◌, ◌++◌, Option, none, some,
  if◌then◌else◌,
}
use iml.Common.Results.{ok, err}
use iml.Common.Texts.{Text, text_eq}
use iml.Dataplane.Parsing.{DualStack, is_empty}
use iml.Dataplane.Descendants.{Link, vrf_descendants}
use iml.Dataplane.Kernel.{
  Ip, IpNet, Route, Request, Kernel, Asking, pure, raise_if, logged, deferred, when_some, ◌>>=◌,
  ◌>>◌, ask, look_up, no_networks, route_replace, route_del, link_del, link_set_up,
  link_set_no_master, add_vrf, ct_zone_append, ct_zone_delete,
}
use iml.Dataplane.Routes.{RoutingSubnet, route_via, remove_route, default_network}

pub record TargetVrf : Type 0 where
  pub nf_cidr : DualStack IpNet
  pub vrf : Text
  pub table : ℕ
  pub tunnel : Text
  pub tunnel_addrs : DualStack Ip
  pub router_tunnel : Text
  pub router_tunnel_addrs : DualStack Ip

-- A uint32 in decimal has at most ten digits.
unfoldable pub decimal : ℕ → ℕ → Text
decimal zero n = []
decimal (suc fuel) n =
    let more = decimal fuel (n / 10) in
    if n / 10 == 0 then (48 + n) ∷ [] else more ++ ((48 + n % 10) ∷ [])

-- "tvrf-%d"
unfoldable pub target_vrf_name : ℕ → Text
target_vrf_name table = 116 ∷ 118 ∷ 114 ∷ 102 ∷ 45 ∷ decimal 10 table

-- A loop that logs errors and carries on.
unfoldable pub each_logged {ℓ} : {A : Type ℓ} → (A → Asking (Unit {0})) → List A → Asking (Unit {0})
each_logged f [] = pure tt
each_logged f (x ∷ xs) = logged (f x) >> each_logged f xs

-- `netlink.Route{Dst, Table, Type: RTN_UNREACHABLE}`
abbrev pub unreachable_to : IpNet → ℕ → Route
unreachable_to n table = record {
  dst = some n;
  gw = none;
  table = table;
  link_index = 0;
  segments = [];
  unreachable = true;
}

module _ (kernel : Kernel) where
  -- `addCTZoneRule` and `removeCTZoneRule`; `with_ip4t` for `d.ip4t != nil`.
  unfoldable pub add_ct_zone_rule : Bool → Text → ℕ → Asking (Unit {0})
  add_ct_zone_rule with_ip4t iface zone = do
    ask kernel (ct_zone_append false iface zone)
    elim with_ip4t [ true ↦ ask kernel (ct_zone_append true iface zone) | false ↦ pure tt ]

  unfoldable pub remove_ct_zone_rule : Bool → Text → ℕ → Asking (Unit {0})
  remove_ct_zone_rule with_ip4t iface zone = do
    ask kernel (ct_zone_delete false iface zone)
    elim with_ip4t [ true ↦ ask kernel (ct_zone_delete true iface zone) | false ↦ pure tt ]

  -- `flushTable` on one family: the routes that are listed are deleted.
  unfoldable pub flush_family : Bool → ℕ → Asking (Unit {0})
  flush_family six table asked = elim (kernel.routes_of asked six table) [
    | none ↦ (ok tt, asked)
    | some routes ↦ each_logged (λ r. ask kernel (route_del r)) routes asked
  ]

  unfoldable pub flush_table : ℕ → Asking (Unit {0})
  flush_table table = do flush_family false table; flush_family true table

  -- What `Teardown` does with a link inside the VRF.
  unfoldable pub remove_link : Link → Asking (Unit {0})
  remove_link l =
      if l.physical then ask kernel (link_set_no_master l.name) else ask kernel (link_del l.name)

  -- The links inside a VRF; a listing that fails is empty.
  unfoldable pub links_inside : List Request → Link → List Link
  links_inside asked l = elim (kernel.link_list asked) [
    | none ↦ []
    | some links ↦ elim (vrf_descendants l.index links) [ none ↦ [] | some inside ↦ inside ]
  ]

  -- `Teardown`, of a VRF that is not nil.
  unfoldable pub teardown : Text → ℕ → Asking (Unit {0})
  teardown vrf table asked = elim (kernel.link_by_name asked vrf) [
    | ok l ↦
        (each_logged remove_link (links_inside asked l)
            >> (logged (ask kernel (link_del vrf)) >> flush_table table))
          asked
    | err e ↦ flush_table table asked
  ]

  -- A VRF of the name that a previous run left behind; `vrf_table` is the table of a link that is a
  -- VRF, by its type test.
  unfoldable pub remove_stale : (Link → Option ℕ) → ℕ → Asking (Unit {0})
  remove_stale vrf_table table asked = elim (kernel.link_by_name asked (target_vrf_name table)) [
    | err e ↦ (ok tt, asked)
    | ok l ↦ elim (vrf_table l) [
      | none ↦ (ok tt, asked)
      | some t ↦ teardown (target_vrf_name table) t asked
    ]
  ]

  -- `NewTargetVRF`
  unfoldable pub new_target_vrf : (Link → Option ℕ) → ℕ → DualStack IpNet → Asking (Unit {0})
  new_target_vrf vrf_table table cidr = do
    raise_if (is_empty cidr) no_networks
    remove_stale vrf_table table
    ask kernel (add_vrf (target_vrf_name table) table)
    deferred
        (ask kernel (link_set_up (target_vrf_name table))
          >> (when_some cidr.ipv6 (λ n. ask kernel (route_replace (unreachable_to n table)))
              >> when_some cidr.ipv4 (λ n. ask kernel (route_replace (unreachable_to n table)))))
        (teardown (target_vrf_name table) table)

  -- `AddDefaultRoute`: the families for which the router's side of the tunnel has an address.
  unfoldable pub add_default_vrf_route : TargetVrf → Asking (Unit {0})
  add_default_vrf_route t = do
    tun ← look_up kernel t.tunnel
    when_some t.router_tunnel_addrs.ipv6
        (λ g. ask kernel (route_replace (route_via default_network.ipv6 g t.table tun.index)))
    when_some t.router_tunnel_addrs.ipv4
        (λ g. ask kernel (route_replace (route_via default_network.ipv4 g t.table tun.index)))

  -- `teardownTargetVRF`
  unfoldable pub teardown_target_vrf : Bool → RoutingSubnet → TargetVrf → Asking (Unit {0})
  teardown_target_vrf with_ip4t r t = do
    if text_eq t.router_tunnel []
        then pure tt
        else (logged (remove_route kernel r.table t.nf_cidr)
            >> logged (remove_ct_zone_rule with_ip4t t.router_tunnel r.table))
    if text_eq t.tunnel [] then pure tt else logged (remove_ct_zone_rule with_ip4t t.tunnel t.table)
    teardown t.vrf t.table
    if text_eq t.tunnel []
        then pure tt
        else logged (look_up kernel t.tunnel >>= λ l. ask kernel (link_del t.tunnel))
