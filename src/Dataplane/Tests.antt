-- ===== src/Dataplane/Tests.antt =====
-- Runs of the data plane's functions on small inputs: addresses and networks are numbers where the
-- functions only pass them on.
use iml.Common.{
  ℕ, ◌≡◌, ◌↔◌, ◌==◌, ◌||◌, ltb, refl, true, false, Option, none, some, List, [], ◌∷◌, ℕ_discrete,
  ite,
}
use iml.Common.Results.{ok}
use mathlib.Core.Quot
use mathlib.Core.List.{Memᴰ}
use iml.Dataplane.Matching.{elements_match_in_any_order, Bag, elements_match_in_any_order_iff}
use iml.Dataplane.NodeIp.{
  Address, internal_ip, external_ip, other_type, get_node_ip, get_node_ip_lem, or_else, first_of,
  last_of,
}
use iml.Dataplane.Parsing.{
  DualStack, Netip, parse_dual_stack_address_from_strings, parse_dual_stack_gateway_from_strings,
  parse_dual_stack_network_from_strings,
}
use iml.Dataplane.Parsed.{Describe, parse_dual_stack_from_strings_iff}
use iml.Dataplane.Descendants.{Link, vrf_descendants}
use iml.Dataplane.Descendants.Invariant.{DeepestFirst, Inside, has_index}
use iml.Dataplane.Descendants.Returned.{vrf_descendants-returns}
use iml.Dataplane.Kernel.{Ip, IpNet, Kernel, Request, route_replace}
use iml.Dataplane.Routes.{install_route, AppSubnet}
use iml.Dataplane.Routes.Plan.{AsFar, install_plan, install_route-AsFar}
use iml.Dataplane.ServiceChains.{
  Srv6Route, Software, add_service_chain_routes, delete_service_chain_route,
  delete_all_service_chain_routes, list_service_chain_routes,
}
use iml.Dataplane.ServiceChains.Kept.{Appended, delete_service_chain_route-Appended}
use iml.Dataplane.ServiceChains.Recorded.{Records, add_service_chain_routes-Records}

matched : elements_match_in_any_order ℕ_discrete (1 ∷ 2 ∷ 1 ∷ []) (1 ∷ 1 ∷ 2 ∷ []) ≡ true
unfolding elements_match_in_any_order iml.Dataplane.Matching.uncount_all
    iml.Dataplane.Matching.count_all iml.Dataplane.Matching.count_up ℕ_discrete
    iml.Dataplane.Matching.count_down
matched = refl

elements_match_in_any_order_example :
    (elements_match_in_any_order ℕ_discrete (1 ∷ 2 ∷ []) (2 ∷ 1 ∷ []) ≡ true)
    ↔ Path (Bag ℕ_discrete) (Quot.mk (1 ∷ 2 ∷ [])) (Quot.mk (2 ∷ 1 ∷ []))
elements_match_in_any_order_example =
    elements_match_in_any_order_iff ℕ_discrete (1 ∷ 2 ∷ []) (2 ∷ 1 ∷ [])

-- Strings are numbers, all but 0 parse, and those below 100 are of IPv4.
abbrev parse : ℕ → Option ℕ
parse n = elim (n == 0) [ true ↦ none | false ↦ some n ]

abbrev nodes : List (Address ℕ)
nodes =
    record { kind = other_type; ip = 7 }
    ∷ record { kind = external_ip; ip = 8 }
    ∷ record { kind = external_ip; ip = 9 }
    ∷ record { kind = internal_ip; ip = 200 }
    ∷ []

external_last : get_node_ip parse (λ n. ltb n 100) nodes false ≡ some 9
unfolding get_node_ip iml.Dataplane.NodeIp.scan_addresses iml.Dataplane.NodeIp.usable
external_last = refl

get_node_ip_example :
    get_node_ip parse (λ n. ltb n 100) nodes false
    ≡ or_else parse
        (λ n. ltb n 100)
        (first_of parse (λ n. ltb n 100) false internal_ip nodes)
        (or_else parse
          (λ n. ltb n 100)
          (last_of parse (λ n. ltb n 100) false external_ip nodes)
          (first_of parse (λ n. ltb n 100) false other_type nodes))
get_node_ip_example = get_node_ip_lem parse (λ n. ltb n 100) nodes false

abbrev net : Netip ℕ ℕ ℕ ℕ ℕ
net = record {
  parse_addr = parse;
  is4 = λ n. ltb n 100;
  as_slice = λ n. n;
  parse_prefix = parse;
  addr = λ n. n;
  ip_net = λ n. n;
}

both_read :
    parse_dual_stack_gateway_from_strings net (200 ∷ 8 ∷ [])
    ≡ (record { ipv4 = some 8; ipv6 = some 200 }, none)
unfolding parse_dual_stack_gateway_from_strings parse_dual_stack_address_from_strings
    iml.Dataplane.Parsing.parse_dual_stack iml.Dataplane.Parsing.parse_all
    iml.Dataplane.Parsing.place_all
both_read = refl

parse_dual_stack_from_strings_example :
    ((parse_dual_stack_address_from_strings net (200 ∷ 8 ∷ [])
        ≡ (record { ipv4 = some 8; ipv6 = some 200 }, none))
      ↔ Describe net.parse_addr net.is4 net.as_slice
          (200 ∷ 8 ∷ [])
          (record { ipv4 = some 8; ipv6 = some 200 }))
    × (((parse_dual_stack_gateway_from_strings net (200 ∷ 8 ∷ [])
            ≡ (record { ipv4 = some 8; ipv6 = some 200 }, none))
          ↔ Describe net.parse_addr net.is4 net.as_slice
              (200 ∷ 8 ∷ [])
              (record { ipv4 = some 8; ipv6 = some 200 }))
        × ((parse_dual_stack_network_from_strings net (200 ∷ 8 ∷ [])
              ≡ (record { ipv4 = some 8; ipv6 = some 200 }, none))
            ↔ Describe net.parse_prefix
                (λ p. net.is4 (net.addr p))
                net.ip_net
                (200 ∷ 8 ∷ [])
                (record { ipv4 = some 8; ipv6 = some 200 })))
parse_dual_stack_from_strings_example =
    parse_dual_stack_from_strings_iff net (200 ∷ 8 ∷ []) (record { ipv4 = some 8; ipv6 = some 200 })
      (record { ipv4 = some 8; ipv6 = some 200 })

abbrev link : ℕ → ℕ → Link
link index master = record { name = []; index = index; master = master; physical = false }

-- The VRF 5 with a bridge 6 and a NIC 8; 7 is a port of the bridge and 9 is elsewhere.
abbrev listing : List Link
listing = link 7 6 ∷ link 5 0 ∷ link 6 5 ∷ link 9 4 ∷ link 8 5 ∷ []

ports_first : vrf_descendants 5 listing ≡ some (link 7 6 ∷ link 8 5 ∷ link 6 5 ∷ [])
unfolding vrf_descendants iml.Dataplane.Descendants.walk_from
    iml.Dataplane.Descendants.visit_children iml.Dataplane.Descendants.group_children
    iml.Dataplane.Descendants.add_child iml.Dataplane.Descendants.visit_child
    iml.Dataplane.Descendants.reversed
ports_first = refl

vrf_descendants_example :
    (r : List Link) × ((vrf_descendants 5 listing ≡ some r)
      × (DeepestFirst 5 r
          × (((c : Link) → Memᴰ c r → Inside listing 5 c)
              × ((c : Link) → Inside listing 5 c → (c.index == 5 || has_index c.index r) ≡ true))))
vrf_descendants_example = vrf_descendants-returns 5 listing

-- A kernel that accepts every request and finds every link.
abbrev accepting : Kernel
accepting = record {
  link_by_name = λ asked name. ok (link 4 0);
  link_list = λ asked. some listing;
  routes_of = λ asked six table. some [];
  random = λ asked n. some (n ∷ []);
  perform = λ asked q. none;
}

abbrev network : DualStack IpNet
network = record { ipv4 = none; ipv6 = some (record { ip = 9 ∷ []; ones = 96 }) }

abbrev gateways : DualStack Ip
gateways = record { ipv4 = some (1 ∷ []); ipv6 = some (2 ∷ []) }

install_route_example :
    AsFar accepting
      (install_plan accepting route_replace (1 ∷ []) 1000 network gateways (3 ∷ []) (link 4 0))
      []
      (install_route accepting route_replace (1 ∷ []) 1000 network gateways (3 ∷ []) [])
install_route_example =
    install_route-AsFar accepting route_replace (1 ∷ []) 1000 network gateways (3 ∷ []) []
      (link 4 0) refl refl refl refl

abbrev subnet : AppSubnet
subnet = record {
  networks = network;
  gateway_ips = gateways;
  vrf = 1 ∷ [];
  table = 1001;
  bridge = 2 ∷ [];
  tunnel = 3 ∷ [];
}

abbrev chain_route : Srv6Route
chain_route = record { source_app = 1; dest_net = network; function_ips = [] }

abbrev fabric : Software
fabric = record {
  app_subnets = λ app. ite (ℕ_discrete app 1) (some (subnet ∷ [])) none;
  service_chain_routes = λ chain. ite (ℕ_discrete chain 6) (some (chain_route ∷ [])) none;
  decap_sid_v4 = record { ip = 4 ∷ []; ones = 128 };
  decap_sid_v6 = record { ip = 6 ∷ []; ones = 128 };
  asked = [];
}

-- Deleting a route that is on record leaves it there twice.
recorded_twice :
    list_service_chain_routes 6 (delete_service_chain_route accepting 6 chain_route fabric).1
    ≡ chain_route ∷ chain_route ∷ []
unfolding list_service_chain_routes delete_service_chain_route ℕ_discrete
    iml.Dataplane.ServiceChains.each iml.Dataplane.ServiceChains.on_subnet
    iml.Dataplane.Routes.delete_srv6_route iml.Dataplane.Kernel.ask
recorded_twice = refl

add_service_chain_routes_example :
    Records 7
      (list_service_chain_routes 7 fabric)
      (chain_route ∷ [])
      (add_service_chain_routes accepting 7 (chain_route ∷ []) fabric)
    × ((k : ℕ)
        → ¬ (k ≡ 7)
        → list_service_chain_routes k
            (add_service_chain_routes accepting 7 (chain_route ∷ []) fabric).1
          ≡ list_service_chain_routes k fabric)
add_service_chain_routes_example =
    add_service_chain_routes-Records accepting 7 (chain_route ∷ []) fabric

delete_service_chain_route_example :
    Appended 6
      (chain_route ∷ [])
      chain_route
      fabric
      (delete_service_chain_route accepting 6 chain_route fabric)
unfolding ℕ_discrete
delete_service_chain_route_example =
    delete_service_chain_route-Appended accepting 6 chain_route fabric (chain_route ∷ [])
      (subnet ∷ []) refl refl
