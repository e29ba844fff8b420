-- ===== src/Dataplane/ServiceChains.antt =====
-- The routes of the service chains: `AddServiceChainRoutes`, `ListServiceChainRoutes`,
-- `DeleteServiceChainRoute` and `DeleteAllServiceChainRoutes` of
-- daemon/pkg/dataplane/vrf/software_linux.go. An object key is a number.
use iml.Common.{ℕ, List, [], ◌∷◌, ◌++◌, Option, none, some, ℕ_discrete}
use iml.Common.Maps.{Map, insert, delete}
use iml.Common.Results.{Result, ok, err}
use iml.Dataplane.Parsing.{DualStack}
use iml.Dataplane.Kernel.{
  Ip, IpNet, Request, Kernel, Action, Asking, pure, raise, modify, ◌>>=◌, ◌>>◌, no_source_app,
  no_source_subnets,
}
use iml.Dataplane.Routes.{AppSubnet, add_srv6_route, delete_srv6_route}
pub mod Kept
pub mod Recorded

-- `dataplane.SRv6Route`
pub record Srv6Route : Type 0 where
  pub source_app : ℕ
  pub dest_net : DualStack IpNet
  pub function_ips : List Ip

-- The fields of `Software` that the functions use, and the requests made.
pub record Software : Type 0 where
  pub app_subnets : Map ℕ (List AppSubnet)
  pub service_chain_routes : Map ℕ (List Srv6Route)
  pub decap_sid_v4 : IpNet
  pub decap_sid_v6 : IpNet
  pub asked : List Request

-- A call of a subnet's method.
unfoldable pub on_subnet : Asking (Unit {0}) → Action Software (Unit {0})
on_subnet m d = let (r, t) = m d.asked in (r, record d { asked = t })

-- A loop that returns at the first error.
unfoldable pub each {ℓ} :
    {A : Type ℓ} → (A → Action Software (Unit {0})) → List A → Action Software (Unit {0})
each f [] = pure tt
each f (x ∷ xs) = f x >> each f xs

-- `d.serviceChainRoutes[chain] = routes`
abbrev pub set_routes : ℕ → List Srv6Route → Software → Software
set_routes chain routes d = record d {
  service_chain_routes = insert ℕ_discrete chain routes d.service_chain_routes;
}

abbrev pub or_empty : Option (List Srv6Route) → List Srv6Route
or_empty none = []
or_empty (some routes) = routes

-- The record of a chain: an empty slice, or nil, where the map has none.
unfoldable pub list_service_chain_routes : ℕ → Software → List Srv6Route
list_service_chain_routes chain d = or_empty (d.service_chain_routes chain)

-- `append(d.serviceChainRoutes[chain], route)`
abbrev pub append_route : ℕ → Srv6Route → Software → Software
append_route chain route d = set_routes chain (list_service_chain_routes chain d ++ (route ∷ [])) d

-- `delete(d.serviceChainRoutes, chain)`
abbrev pub forget : ℕ → Software → Software
forget chain d = record d { service_chain_routes = delete ℕ_discrete chain d.service_chain_routes }

module _ (kernel : Kernel) where
  -- The body of the loop of `AddServiceChainRoutes`.
  unfoldable pub add_service_chain_route : ℕ → Srv6Route → Action Software (Unit {0})
  add_service_chain_route chain route d = elim (d.app_subnets route.source_app) [
    | none ↦ raise no_source_app d
    | some subnets ↦ elim subnets [
      | [] ↦ raise no_source_subnets d
      | s ∷ ss ↦
          (each
                (λ subnet. on_subnet (
                  add_srv6_route kernel subnet route.dest_net route.function_ips d.decap_sid_v4
                    d.decap_sid_v6))
                (s ∷ ss)
              >> modify (append_route chain route))
            d
    ]
  ]

  unfoldable pub add_service_chain_routes : ℕ → List Srv6Route → Action Software (Unit {0})
  add_service_chain_routes chain routes d =
      each (add_service_chain_route chain) routes
        (elim (d.service_chain_routes chain) [ none ↦ set_routes chain [] d | some old ↦ d ])

  unfoldable pub delete_service_chain_route : ℕ → Srv6Route → Action Software (Unit {0})
  delete_service_chain_route chain route d = elim (d.service_chain_routes chain) [
    | none ↦ pure tt d
    | some old ↦ elim (d.app_subnets route.source_app) [
      | none ↦ pure tt d
      | some subnets ↦
          (each (λ subnet. on_subnet (delete_srv6_route kernel subnet route.dest_net)) subnets
              >> modify (append_route chain route))
            d
    ]
  ]

  unfoldable pub delete_all_service_chain_routes : ℕ → Action Software (Unit {0})
  delete_all_service_chain_routes chain d = elim (d.service_chain_routes chain) [
    | none ↦ pure tt d
    | some routes ↦ (each (delete_service_chain_route chain) routes >> modify (forget chain)) d
  ]
