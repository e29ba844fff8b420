-- ===== src/Dataplane/ServiceChains/Kept.antt =====
-- What the records of the service chains hold after each function, whether it returned an error or
-- not: daemon/pkg/dataplane/vrf/software_linux.go.
use iml.Common.{
  ℕ, ◌≡◌, ◌⊎◌, inl, inr, List, [], ◌∷◌, ◌++◌, some, refl, ap, ◌∙◌, Option-cases, ℕ_discrete, if_pos,
  if_neg,
}
use iml.Common.Results.{Result, ok, err}
use iml.Dataplane.Kernel.{
  Kernel, Failure, Action, Asking, modify, continued, ◌>>◌, no_source_app, no_source_subnets,
}
use iml.Dataplane.Routes.{AppSubnet, add_srv6_route, delete_srv6_route}
use iml.Dataplane.ServiceChains.{
  Srv6Route, Software, on_subnet, each, or_empty, append_route, add_service_chain_route,
  delete_service_chain_route, list_service_chain_routes,
}

-- Only requests were made.
abbrev pub Asks : Software → Software → Type 0
Asks d e = (e.service_chain_routes ≡ d.service_chain_routes) × (e.app_subnets ≡ d.app_subnets)

abbrev OnlyAsks : Action Software (Unit {0}) → Type 0
OnlyAsks m = (d : Software) → Asks d (m d).1

on_subnet-OnlyAsks : (m : Asking (Unit {0})) → OnlyAsks (on_subnet m)
unfolding on_subnet
on_subnet-OnlyAsks m d = (refl, refl)

outcome-Asks :
    (d : Software) (o : Result Failure (Unit {0}) × Software) (k : Action Software (Unit {0}))
    → Asks d o.1
    → OnlyAsks k
    → Asks d (continued o (λ u. k)).1
outcome-Asks d (ok u, t) k h f = ((f t).0 ∙ h.0, (f t).1 ∙ h.1)
outcome-Asks d (err e, t) k h f = h

each-OnlyAsks :
    {A : Type 0} (f : A → Action Software (Unit {0})) (xs : List A)
    → ((x : A) → OnlyAsks (f x))
    → OnlyAsks (each f xs)
unfolding each
each-OnlyAsks f [] h d = (refl, refl)
each-OnlyAsks f (x ∷ xs) h d = outcome-Asks d (f x d) (each f xs) (h x d) (each-OnlyAsks f xs h)

-- The records of the other chains are kept.
abbrev pub Others : ℕ → Action Software (Unit {0}) → Type 0
Others chain m =
    (d : Software) (k : ℕ)
    → ¬ (k ≡ chain)
    → (m d).1.service_chain_routes k ≡ d.service_chain_routes k

outcome-Others :
    (chain : ℕ) (d : Software) (o : Result Failure (Unit {0}) × Software)
    → (m : Action Software (Unit {0})) (k : ℕ) → ¬ (k ≡ chain)
    → o.1.service_chain_routes k ≡ d.service_chain_routes k
    → Others chain m
    → (continued o (λ u. m)).1.service_chain_routes k ≡ d.service_chain_routes k
outcome-Others chain d (ok u, t) m k n h f = f t k n ∙ h
outcome-Others chain d (err e, t) m k n h f = h

pub each-Others :
    {A : Type 0} (chain : ℕ) (f : A → Action Software (Unit {0})) (xs : List A)
    → ((x : A) → Others chain (f x))
    → Others chain (each f xs)
unfolding each
each-Others chain f [] h d k n = refl
each-Others chain f (x ∷ xs) h d k n =
    outcome-Others chain d (f x d) (each f xs) k n (h x d k n) (each-Others chain f xs h)

append_route-other :
    (chain : ℕ) (route : Srv6Route) (d : Software) (k : ℕ)
    → ¬ (k ≡ chain)
    → (append_route chain route d).service_chain_routes k ≡ d.service_chain_routes k
append_route-other chain route d k n = if_neg (ℕ_discrete k chain) n _ _

append_route-here :
    (chain : ℕ) (route : Srv6Route) (d : Software) (old : List Srv6Route)
    → d.service_chain_routes chain ≡ some old
    → (append_route chain route d).service_chain_routes chain ≡ some (old ++ (route ∷ []))
unfolding list_service_chain_routes
append_route-here chain route d old q =
    if_pos (ℕ_discrete chain chain) refl _ _ ∙ ap (λ o. some (or_empty o ++ (route ∷ []))) q

-- What adding (or deleting) one route leaves: the route appended to the record of the chain where
-- no
-- error is returned, and the record as it was where one is.
abbrev pub Appended :
    ℕ → List Srv6Route → Srv6Route → Software → Result Failure (Unit {0}) × Software → Type 0
Appended chain old route d o =
    (o.1.app_subnets ≡ d.app_subnets)
    × (((o.0 ≡ ok tt) × (o.1.service_chain_routes chain ≡ some (old ++ (route ∷ []))))
        ⊎ ((x : Failure) × (o.0 ≡ err x) × (o.1.service_chain_routes chain ≡ some old)))

outcome-Appended :
    (chain : ℕ) (old : List Srv6Route) (route : Srv6Route) (d : Software)
    → (o : Result Failure (Unit {0}) × Software) → d.service_chain_routes chain ≡ some old
    → Asks d o.1
    → Appended chain old route d (continued o (λ u. modify (append_route chain route)))
outcome-Appended chain old route d (ok u, t) q h =
    (h.1, inl (refl, append_route-here chain route t old (ap (λ m. m chain) h.0 ∙ q)))
outcome-Appended chain old route d (err x, t) q h = (h.1, inr (x, refl, ap (λ m. m chain) h.0 ∙ q))

modify-Others : (chain : ℕ) (route : Srv6Route) → Others chain (modify (append_route chain route))
modify-Others chain route d k n = append_route-other chain route d k n

on_each : (AppSubnet → Asking (Unit {0})) → List AppSubnet → Action Software (Unit {0})
on_each f = each (λ subnet. on_subnet (f subnet))

on_each-OnlyAsks :
    (f : AppSubnet → Asking (Unit {0})) (ss : List AppSubnet) → OnlyAsks (on_each f ss)
unfolding on_each
on_each-OnlyAsks f ss = each-OnlyAsks (λ s. on_subnet (f s)) ss (λ s. on_subnet-OnlyAsks (f s))

-- Requests to subnets, then the route appended.
pub append_after :
    ℕ → Srv6Route → (AppSubnet → Asking (Unit {0})) → List AppSubnet → Action Software (Unit {0})
append_after chain route f ss = on_each f ss >> modify (append_route chain route)

append_after-Others :
    (chain : ℕ) (route : Srv6Route) (f : AppSubnet → Asking (Unit {0})) (ss : List AppSubnet)
    → Others chain (append_after chain route f ss)
unfolding append_after
append_after-Others chain route f ss d j n =
    outcome-Others chain d (on_each f ss d) (modify (append_route chain route)) j n
      (ap (λ r. r j) (on_each-OnlyAsks f ss d).0) (modify-Others chain route)

pub append_after-Appended :
    (chain : ℕ) (route : Srv6Route) (f : AppSubnet → Asking (Unit {0})) (ss : List AppSubnet)
    → (d : Software) (old : List Srv6Route) → d.service_chain_routes chain ≡ some old
    → Appended chain old route d (append_after chain route f ss d)
unfolding append_after
append_after-Appended chain route f ss d old h =
    outcome-Appended chain old route d (on_each f ss d) h (on_each-OnlyAsks f ss d)

module _ (kernel : Kernel) where
  adding : Srv6Route → Software → AppSubnet → Asking (Unit {0})
  adding route d subnet =
      add_srv6_route kernel subnet route.dest_net route.function_ips d.decap_sid_v4 d.decap_sid_v6

  pub deleting : Srv6Route → AppSubnet → Asking (Unit {0})
  deleting route subnet = delete_srv6_route kernel subnet route.dest_net

  add_service_chain_route-cases :
      (chain : ℕ) (route : Srv6Route) (d : Software)
      → ((e : Failure) × (add_service_chain_route kernel chain route d ≡ (err e, d)))
        ⊎ ((ss : List AppSubnet) × (add_service_chain_route kernel chain route d
              ≡ append_after chain route (adding route d) ss d))
  unfolding add_service_chain_route append_after on_each adding
  add_service_chain_route-cases chain route d =
      elim (Option-cases (d.app_subnets route.source_app)) [
        | inl q ↦ inl (no_source_app, rw (q, add_service_chain_route) refl)
        | inr ([], q) ↦ inl (no_source_subnets, rw (q, add_service_chain_route) refl)
        | inr (s ∷ ss, q) ↦ inr (s ∷ ss, rw (q, add_service_chain_route) refl)
      ]

  pub add_service_chain_route-Others :
      (chain : ℕ) (route : Srv6Route) → Others chain (add_service_chain_route kernel chain route)
  add_service_chain_route-Others chain route d k n =
      elim (add_service_chain_route-cases chain route d) [
        | inl p ↦ rw p.1 refl
        | inr p ↦ rw p.1 (append_after-Others chain route (adding route d) p.0 d k n)
      ]

  pub add_service_chain_route-Appended :
      (chain : ℕ) (route : Srv6Route) (d : Software) (old : List Srv6Route)
      → d.service_chain_routes chain ≡ some old
      → Appended chain old route d (add_service_chain_route kernel chain route d)
  add_service_chain_route-Appended chain route d old h =
      elim (add_service_chain_route-cases chain route d) [
        | inl p ↦ rw p.1 (refl, inr (p.0, refl, h))
        | inr p ↦ rw p.1 (append_after-Appended chain route (adding route d) p.0 d old h)
      ]

  pub delete_service_chain_route-cases :
      (chain : ℕ) (route : Srv6Route) (d : Software)
      → (delete_service_chain_route kernel chain route d ≡ (ok tt, d))
        ⊎ ((ss : List AppSubnet) × (delete_service_chain_route kernel chain route d
              ≡ append_after chain route (deleting route) ss d))
  unfolding delete_service_chain_route append_after on_each deleting
  delete_service_chain_route-cases chain route d =
      elim (Option-cases (d.service_chain_routes chain)) [
        | inl p ↦ inl (rw (p, delete_service_chain_route) refl)
        | inr p ↦ elim (Option-cases (d.app_subnets route.source_app)) [
          | inl q ↦ inl (rw (p.1, q, delete_service_chain_route) refl)
          | inr q ↦ inr (q.0, rw (p.1, q.1, delete_service_chain_route) refl)
        ]
      ]

  pub delete_service_chain_route-Others :
      (chain : ℕ) (route : Srv6Route) → Others chain (delete_service_chain_route kernel chain route)
  delete_service_chain_route-Others chain route d k n =
      elim (delete_service_chain_route-cases chain route d) [
        | inl p ↦ rw p refl
        | inr p ↦ rw p.1 (append_after-Others chain route (deleting route) p.0 d k n)
      ]

  -- `DeleteServiceChainRoute` does not take a route off the record of its chain: where the chain
  -- has a record and the source application has subnets, it appends the route once more where it
  -- returns no error, and leaves the record as it was where it returns one.
  pub delete_service_chain_route-Appended :
      (chain : ℕ) (route : Srv6Route) (d : Software) (old : List Srv6Route)
      (subnets : List AppSubnet)
      → d.service_chain_routes chain ≡ some old
      → d.app_subnets route.source_app ≡ some subnets
      → Appended chain old route d (delete_service_chain_route kernel chain route d)
  unfolding delete_service_chain_route append_after on_each deleting
  delete_service_chain_route-Appended chain route d old subnets h q =
      rw (h, q, delete_service_chain_route)
        (append_after-Appended chain route (deleting route) subnets d old h)
