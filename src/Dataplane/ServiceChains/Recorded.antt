-- ===== src/Dataplane/ServiceChains/Recorded.antt =====
-- Which routes of a service chain are recorded after each function:
-- daemon/pkg/dataplane/vrf/software_linux.go.
use iml.Common.{
  ℕ, ◌≡◌, ◌≢◌, ite, ◌⊎◌, inl, inr, List, [], ◌∷◌, ◌++◌, some, refl, sym, ap, ◌∙◌, Option-cases,
  ℕ_discrete, if_pos, if_neg, append_nil, append_assoc,
}
use iml.Common.Results.{Result, ok, err}
use iml.Dataplane.Kernel.{Kernel, Failure, Action, modify, continued}
use iml.Dataplane.ServiceChains.{
  Srv6Route, Software, each, or_empty, set_routes, forget, add_service_chain_route,
  add_service_chain_routes, delete_service_chain_route, delete_all_service_chain_routes,
  list_service_chain_routes,
}
use iml.Dataplane.ServiceChains.Kept.{
  Appended, Others, each-Others, add_service_chain_route-Others, add_service_chain_route-Appended,
  delete_service_chain_route-Others,
}

-- What the loop of `AddServiceChainRoutes` leaves of a list of routes: those up to the first error
-- are recorded, after the ones that were, and all of them where no error is returned.
abbrev pub Records :
    ℕ → List Srv6Route → List Srv6Route → Result Failure (Unit {0}) × Software → Type 0
Records chain old routes o =
    (done : List Srv6Route) × (rest : List Srv6Route) × (routes ≡ done ++ rest)
    × (o.1.service_chain_routes chain ≡ some (old ++ done))
    × (((o.0 ≡ ok tt) × (rest ≡ [])) ⊎ ((e : Failure) × (o.0 ≡ err e) × (rest ≢ [])))

outcome-Records :
    (chain : ℕ) (old : List Srv6Route) (r : Srv6Route) (routes : List Srv6Route) (d : Software)
    → (o : Result Failure (Unit {0}) × Software) (m : Action Software (Unit {0}))
    → Appended chain old r d o
    → ((e : Software)
        → e.service_chain_routes chain ≡ some (old ++ (r ∷ []))
        → Records chain (old ++ (r ∷ [])) routes (m e))
    → Records chain old (r ∷ routes) (continued o (λ u. m))
outcome-Records chain old r routes d (ok u, t) m (a, inl h) k =
    let (done, rest, e, s, z) = k t h.1 in
    (r ∷ done, rest, ap (λ l. r ∷ l) e, s ∙ ap (λ l. some l) (append_assoc old (r ∷ []) done), z)
outcome-Records chain old r routes d (ok u, t) m (a, inr h) k = cc
outcome-Records chain old r routes d (err x, t) m (a, inl h) k = cc
outcome-Records chain old r routes d (err x, t) m (a, inr h) k =
    ([], r ∷ routes, refl, h.2 ∙ ap (λ l. some l) (sym (append_nil old)), inr (x, refl, λ q. cc))

module _ (kernel : Kernel) where
  each-Records :
      (chain : ℕ) (routes : List Srv6Route) (d : Software) (old : List Srv6Route)
      → d.service_chain_routes chain ≡ some old
      → Records chain old routes (each (add_service_chain_route kernel chain) routes d)
  unfolding each
  each-Records chain [] d old h =
      ([], [], refl, h ∙ ap (λ l. some l) (sym (append_nil old)), inl (refl, refl))
  each-Records chain (r ∷ routes) d old h =
      outcome-Records chain old r routes d (add_service_chain_route kernel chain r d)
        (each (add_service_chain_route kernel chain) routes)
        (add_service_chain_route-Appended kernel chain r d old h)
        (λ e q. each-Records chain routes e (old ++ (r ∷ [])) q)

  adding-Others :
      (chain : ℕ) (routes : List Srv6Route)
      → Others chain (each (add_service_chain_route kernel chain) routes)
  adding-Others chain routes =
      each-Others chain (add_service_chain_route kernel chain) routes
        (add_service_chain_route-Others kernel chain)

  deleting-Others :
      (chain : ℕ) (routes : List Srv6Route)
      → Others chain (each (delete_service_chain_route kernel chain) routes)
  deleting-Others chain routes =
      each-Others chain (delete_service_chain_route kernel chain) routes
        (delete_service_chain_route-Others kernel chain)

  -- `AddServiceChainRoutes` records, after what the chain's record held, the routes up to the
  -- first one that fails: all of them where it returns no error, and not all where it returns one;
  -- the records of the other chains are kept.
  pub add_service_chain_routes-Records :
      (chain : ℕ) (routes : List Srv6Route) (d : Software)
      → Records chain
          (list_service_chain_routes chain d)
          routes
          (add_service_chain_routes kernel chain routes d)
        × ((k : ℕ)
            → ¬ (k ≡ chain)
            → list_service_chain_routes k (add_service_chain_routes kernel chain routes d).1
              ≡ list_service_chain_routes k d)
  unfolding add_service_chain_routes list_service_chain_routes
  add_service_chain_routes-Records chain routes d =
      elim (Option-cases (d.service_chain_routes chain)) [
        | inl q ↦
            let e = set_routes chain [] d in
            rw (q, add_service_chain_routes, list_service_chain_routes)
              (
                each-Records chain routes e [] (if_pos (ℕ_discrete chain chain) refl _ _),
                λ k n.
                    ap or_empty
                      (adding-Others chain routes e k n ∙ if_neg (ℕ_discrete k chain) n _ _),
              )
        | inr (old, q) ↦
            rw (q, add_service_chain_routes, list_service_chain_routes)
              (
                each-Records chain routes d old q,
                λ k n. ap or_empty (adding-Others chain routes d k n),
              )
      ]

  outcome-list :
      (chain k : ℕ) (d : Software) (o : Result Failure (Unit {0}) × Software)
      → (¬ (k ≡ chain) → o.1.service_chain_routes k ≡ d.service_chain_routes k)
      → (continued o (λ u. modify (forget chain))).0 ≡ ok tt
      → list_service_chain_routes k (continued o (λ u. modify (forget chain))).1
        ≡ ite (ℕ_discrete k chain) [] (list_service_chain_routes k d)
  unfolding list_service_chain_routes
  outcome-list chain k d (err x, t) kept h = cc
  outcome-list chain k d (ok u, t) kept h = elim (ℕ_discrete k chain) [
    | yes p ↦
        ap or_empty (if_pos (ℕ_discrete k chain) p _ _) ∙ sym (if_pos (ℕ_discrete k chain) p _ _)
    | no n ↦
        ap or_empty (if_neg (ℕ_discrete k chain) n _ _ ∙ kept n)
        ∙ sym (if_neg (ℕ_discrete k chain) n _ _)
  ]

  -- `DeleteAllServiceChainRoutes`, where it returns no error, leaves no route on record for its
  -- chain and the records of the other chains as they were.
  pub delete_all_service_chain_routes-list :
      (chain : ℕ) (d : Software)
      → (delete_all_service_chain_routes kernel chain d).0 ≡ ok tt
      → (k : ℕ)
      → list_service_chain_routes k (delete_all_service_chain_routes kernel chain d).1
        ≡ ite (ℕ_discrete k chain) [] (list_service_chain_routes k d)
  unfolding delete_all_service_chain_routes list_service_chain_routes
  delete_all_service_chain_routes-list chain d h k =
      elim (Option-cases (d.service_chain_routes chain)) [
        | inl q ↦
            rw (q, delete_all_service_chain_routes)
              (elim (ℕ_discrete k chain) [
                | yes p ↦
                    ap or_empty (ap d.service_chain_routes p ∙ q)
                    ∙ sym (if_pos (ℕ_discrete k chain) p _ _)
                | no n ↦ sym (if_neg (ℕ_discrete k chain) n _ _)
              ])
        | inr (routes, q) ↦
            let ok_after = rw (q, delete_all_service_chain_routes) at h in
            rw (q, delete_all_service_chain_routes)
              (outcome-list chain k d (each (delete_service_chain_route kernel chain) routes d)
                (deleting-Others chain routes d k) ok_after)
      ]
