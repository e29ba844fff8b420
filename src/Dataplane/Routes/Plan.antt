-- ===== src/Dataplane/Routes/Plan.antt =====
-- Which requests the functions of Routes make: an initial part of a plan, and all of it where they
-- return no error. Code: daemon/pkg/dataplane/vrf/routingsubnet.go, appsubnet.go.
use iml.Common.{
  ℕ, ◌≡◌, ◌⊎◌, inl, inr, false, not, ◌&&◌, List, [], ◌∷◌, ◌++◌, Option, none, some, refl, sym, ap,
  ◌∙◌, Option-cases, append_nil, append_assoc,
}
use iml.Common.Results.{Result, ok, err}
use iml.Common.Texts.{Text, text_eq}
use iml.Dataplane.Parsing.{DualStack, is_empty}
use iml.Dataplane.Descendants.{Link, reversed}
use iml.Dataplane.Kernel.{
  Ip, IpNet, Route, Request, Kernel, Failure, Asking, pure, when_some, ◌>>=◌, ◌>>◌, ask, look_up,
  refused, link_set_master, route_replace,
}
use iml.Dataplane.Routes.{
  AppSubnet, add_srv6_route, route_through, install_route, route_via, is_some,
}

-- An error is the kernel's answer to the last of the requests made.
abbrev pub Refused : Kernel → List Request → List Request → Result Failure (Unit {0}) → Type 0
Refused kernel asked made r =
    (before : List Request) × (q : Request) × (n : ℕ) × (made ≡ before ++ (q ∷ []))
    × (kernel.perform (asked ++ before) q ≡ some n)
    × (r ≡ err (refused q n))

-- An outcome in which the first requests of a plan were made: all of them and no error is returned,
-- or up to the first one that the kernel refused, whose error is returned.
abbrev pub AsFar :
    Kernel → List Request → List Request → Result Failure (Unit {0}) × List Request → Type 0
AsFar kernel plan asked (r, after) =
    (made : List Request) × (rest : List Request) × (plan ≡ made ++ rest)
    × (after ≡ asked ++ made)
    × (((r ≡ ok tt) × (rest ≡ [])) ⊎ Refused kernel asked made r)

reversed-snoc : {A : Type 0} (xs : List A) (x : A) → reversed (xs ++ (x ∷ [])) ≡ x ∷ reversed xs
unfolding reversed
reversed-snoc [] x = refl
reversed-snoc (y ∷ xs) x = ap (λ r. r ++ (y ∷ [])) (reversed-snoc xs x)

-- The requests for the value of an option.
abbrev pub for_some : {V : Type 0} → Option V → (V → Request) → List Request
for_some none f = []
for_some (some v) f = f v ∷ []

module _ (kernel : Kernel) where
  abbrev pub Follows : List Request → Asking (Unit {0}) → Type 0
  Follows plan m = (asked : List Request) → AsFar kernel plan asked (m asked)

  Follows-pure : Follows [] (pure tt)
  Follows-pure asked = ([], [], refl, sym (append_nil asked), inl (refl, refl))

  Follows-ask : (q : Request) → Follows (q ∷ []) (ask kernel q)
  unfolding ask
  Follows-ask q asked = elim (Option-cases (kernel.perform asked q)) [
    | inl n ↦ rw (n, ask) ((q ∷ []), [], refl, refl, inl (refl, refl))
    | inr p ↦
        rw (p.1, ask)
          (
            (q ∷ []),
            [],
            refl,
            refl,
            inr ([], q, p.0, refl, ap (λ l. kernel.perform l q) (append_nil asked) ∙ p.1, refl),
          )
  ]

  outcome-bind :
      (p q : List Request) (o : Result Failure (Unit {0}) × List Request)
      → (k : Asking (Unit {0})) (asked : List Request) → AsFar kernel p asked o
      → Follows q k
      → AsFar kernel (p ++ q) asked (let (r, t) = o in elim r [ ok a ↦ k t | err e ↦ (err e, t) ])
  outcome-bind p q (ok u, t) k asked (made, rest, e, a, inl h) fk =
      let (made', rest', e', a', r) = fk t in
      (
        made ++ made',
        rest',
        ap (λ l. l ++ q) (e ∙ ap (λ l. made ++ l) h.1 ∙ append_nil made)
            ∙ ap (λ l. made ++ l) e'
            ∙ sym (append_assoc made made' rest'),
        a' ∙ ap (λ l. l ++ made') a ∙ append_assoc asked made made',
        elim r [
          | inl done ↦ inl done
          | inr (b, x, n, m, answer, error) ↦ inr (
            made ++ b,
            x,
            n,
            ap (λ l. made ++ l) m ∙ sym (append_assoc made b (x ∷ [])),
            ap (λ l. kernel.perform l x)
                  (sym (append_assoc asked made b) ∙ ap (λ l. l ++ b) (sym a))
                ∙ answer,
            error,
          )
        ],
      )
  outcome-bind p q (ok u, t) k asked (made, rest, e, a, inr h) fk = cc
  outcome-bind p q (err x, t) k asked (made, rest, e, a, inl h) fk = cc
  outcome-bind p q (err x, t) k asked (made, rest, e, a, inr h) fk =
      (made, rest ++ q, ap (λ l. l ++ q) e ∙ append_assoc made rest q, a, inr h)

  -- A plan for two actions in a row.
  Follows-bind :
      (p q : List Request) (m k : Asking (Unit {0}))
      → Follows p m
      → Follows q k
      → Follows (p ++ q) (m >> k)
  Follows-bind p q m k fm fk asked = outcome-bind p q (m asked) k asked (fm asked) fk

  Follows-when_some :
      {V : Type 0} (o : Option V) (f : V → Request)
      → Follows (for_some o f) (when_some o (λ v. ask kernel (f v)))
  Follows-when_some none f = Follows-pure
  Follows-when_some (some v) f = Follows-ask (f v)

  -- Two requests, each for an option.
  Follows-two :
      {V W : Type 0} (a : Option V) (b : Option W) (f : V → Request) (g : W → Request)
      → Follows
          (for_some a f ++ for_some b g)
          (when_some a (λ v. ask kernel (f v)) >> when_some b (λ w. ask kernel (g w)))
  Follows-two a b f g =
      Follows-bind (for_some a f) (for_some b g) _ _ (Follows-when_some a f) (Follows-when_some b g)

  -- Where a link is looked up, the rest of the plan is on the link found.
  AsFar-look_up :
      (name : Text) (plan : Link → List Request) (k : Link → Asking (Unit {0}))
      → (asked : List Request) → ((l : Link) → Follows (plan l) (k l))
      → (l : Link) → (kernel.link_by_name asked name ≡ ok l)
      → AsFar kernel (plan l) asked ((look_up kernel name >>= k) asked)
  unfolding look_up
  AsFar-look_up name plan k asked h l q = rw (q, look_up) (h l asked)

  -- The requests of `AddRoute`, by the link of the interface.
  abbrev pub install_plan :
      (Route → Request) → Text → ℕ → DualStack IpNet → DualStack Ip → Text → Link → List Request
  install_plan how vrf table dst gw out l =
      (link_set_master out vrf ∷ [])
      ++ (for_some gw.ipv6 (λ g. how (route_via dst.ipv6 g table l.index))
          ++ for_some gw.ipv4 (λ g. how (route_via dst.ipv4 g table l.index)))

  -- `AddRoute` of either kind of subnet, where the destination is not empty, the gateways have its
  -- families and the interface is found: it enslaves the interface to the subnet's VRF, then
  -- routes each family that the gateways have, IPv6 first, to the destination's network of that
  -- family; it makes these requests in this order up to the first that the kernel refuses, whose
  -- error it returns, and returns none where it has made them all.
  pub install_route-AsFar :
      (how : Route → Request) (vrf : Text) (table : ℕ) (dst : DualStack IpNet) (gw : DualStack Ip)
      → (out : Text) (asked : List Request) (l : Link) → is_empty dst ≡ false
      → (is_some dst.ipv4 && not (is_some gw.ipv4)) ≡ false
      → (is_some dst.ipv6 && not (is_some gw.ipv6)) ≡ false
      → kernel.link_by_name asked out ≡ ok l
      → AsFar kernel
          (install_plan how vrf table dst gw out l)
          asked
          (install_route kernel how vrf table dst gw out asked)
  unfolding install_route
  install_route-AsFar how vrf table dst gw out asked l e e4 e6 found =
      rw (e, e4, e6, install_route)
        (AsFar-look_up out (install_plan how vrf table dst gw out) _ asked
          (λ k.
            Follows-bind (link_set_master out vrf ∷ []) _ _ _ (Follows-ask _)
              (Follows-two gw.ipv6 gw.ipv4 _ _))
          l found)

  -- The requests of `AddSRv6Route`, by the link of the tunnel.
  abbrev pub srv6_plan : AppSubnet → DualStack IpNet → List Ip → IpNet → IpNet → Link → List Request
  srv6_plan s dst sids sid_4 sid_6 l =
      for_some dst.ipv4
        (λ n. route_replace (route_through (some n) (sid_4.ip ∷ reversed sids) s.table l.index))
      ++ for_some dst.ipv6
          (λ n. route_replace (route_through (some n) (sid_6.ip ∷ reversed sids) s.table l.index))

  -- `AddSRv6Route` of an application subnet, where the destination is not empty and the subnet's
  -- tunnel is set and found: it routes each family that the destination has, IPv4 first, through the
  -- decapsulation SID of that family followed by the functions in reverse, up to the first request that
  -- the kernel refuses, whose error it returns, and returns none where it has made them all.
  pub add_srv6_route-AsFar :
      (s : AppSubnet) (dst : DualStack IpNet) (sids : List Ip) (sid_4 sid_6 : IpNet)
      → (asked : List Request) (l : Link) → is_empty dst ≡ false
      → text_eq s.tunnel [] ≡ false
      → kernel.link_by_name asked s.tunnel ≡ ok l
      → AsFar kernel
          (srv6_plan s dst sids sid_4 sid_6 l)
          asked
          (add_srv6_route kernel s dst sids sid_4 sid_6 asked)
  unfolding add_srv6_route
  add_srv6_route-AsFar s dst sids sid_4 sid_6 asked l e t found =
      rw (e, t, add_srv6_route, reversed-snoc sids sid_4.ip, reversed-snoc sids sid_6.ip)
        (AsFar-look_up s.tunnel (srv6_plan s dst sids sid_4 sid_6) _ asked
          (λ k. Follows-two dst.ipv4 dst.ipv6 _ _) l found)
