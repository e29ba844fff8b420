-- ===== src/Dataplane/Parsed.antt =====
-- When the strings of a dual-stack address are read, and what is read:
-- `ParseDualStackAddressFromStrings` of daemon/pkg/dataplane/vrf/util/vrf_util.go.
use iml.Common.{
  ◌≤◌, ◌≡◌, ◌↔◌, ◌⊎◌, inl, inr, ◌++◌, Bool, true, false, List, [], ◌∷◌, length, map, Option, none,
  some, ltb, arith, refl, sym, ap, subst, ◌∙◌, Bool-cases, Option-cases, ltb→lt,
}
use iml.Common.Results.{Result, ok, err}
use iml.Dataplane.Parsing.{
  DualStack, parse_all, place_all, parse_dual_stack, values_of, Netip,
  parse_dual_stack_address_from_strings, parse_dual_stack_gateway_from_strings,
  parse_dual_stack_network_from_strings,
}

-- The value of a family that is set, as a list.
abbrev pub listed : {V : Type 0} → Option V → List V
listed none = []
listed (some v) = v ∷ []

module _ {V : Type 0} where
  listed_inj : (a b : Option V) → listed a ≡ listed b → a ≡ b
  listed_inj none none h = refl
  listed_inj none (some y) h = cc
  listed_inj (some x) none h = cc
  listed_inj (some x) (some y) h = cc

  listed-append : (a : Option V) → listed a ++ [] ≡ listed a
  listed-append none = refl
  listed-append (some x) = refl

  not_two : (x y : V) (l : List V) (o : Option V) → ¬ (x ∷ y ∷ l ≡ listed o)
  not_two x y l none h = cc
  not_two x y l (some z) h = cc

  DualStack-ext : (d e : DualStack V) → d.ipv4 ≡ e.ipv4 → d.ipv6 ≡ e.ipv6 → d ≡ e
  DualStack-ext d e p q = cc

map-some_inj : {A : Type 0} (xs ys : List A) → map some xs ≡ map some ys → xs ≡ ys
map-some_inj [] [] h = refl
map-some_inj [] (y ∷ ys) h = cc
map-some_inj (x ∷ xs) [] h = cc
map-some_inj (x ∷ xs) (y ∷ ys) h = let ih = map-some_inj xs ys cc in cc

Result-cases {ℓ κ} :
    {E : Type ℓ} {A : Type κ} (r : Result E A) → ((a : A) × (r ≡ ok a)) ⊎ ((e : E) × (r ≡ err e))
Result-cases (ok a) = inl (a, refl)
Result-cases (err e) = inr (e, refl)

module _ {Str P : Type 0} (parse : Str → Option P) where
  parse_all_iff :
      (ss : List Str) (ps : List P) → (parse_all parse ss ≡ ok ps) ↔ (map parse ss ≡ map some ps)
  unfolding parse_all
  parse_all_iff [] [] = (λ h. refl, λ h. refl)
  parse_all_iff [] (p ∷ ps) = (λ h. cc, λ h. cc)
  parse_all_iff (s ∷ ss) [] = elim (Option-cases (parse s)) [
    | inl n ↦ rw (n, parse_all) (λ h. cc, λ h. cc)
    | inr q ↦ elim (Result-cases (parse_all parse ss)) [
      | inl r ↦ rw (q.1, parse_all, r.1) (λ h. cc, λ h. cc)
      | inr r ↦ rw (q.1, parse_all, r.1) (λ h. cc, λ h. cc)
    ]
  ]
  parse_all_iff (s ∷ ss) (p ∷ ps) = elim (Option-cases (parse s)) [
    | inl n ↦ rw (n, parse_all) (λ h. cc, λ h. cc)
    | inr q ↦
        let (f, g) = parse_all_iff ss ps in
        elim (Result-cases (parse_all parse ss)) [
          | inl r ↦
              rw (q.1, parse_all, r.1) (λ h. let k = f (r.1 ∙ cc) in cc, λ h. let k = g cc in cc)
          | inr r ↦ rw (q.1, parse_all, r.1) (λ h. cc, λ h. let k = g cc in cc)
        ]
  ]

  module _ {V : Type 0} (is4 : P → Bool) (value : P → V) where
    place_all_iff :
        (ps : List P) (a b : Option V) (d : DualStack V)
        → (place_all parse is4 value ps (record { ipv4 = a; ipv6 = b }) ≡ (d, none)) ↔ (
            (listed a ++ values_of parse is4 value true ps ≡ listed d.ipv4)
            × (listed b ++ values_of parse is4 value false ps ≡ listed d.ipv6))
    unfolding place_all values_of
    place_all_iff [] a b d = (
      (λ h. rw (listed-append a, listed-append b) (cc, cc)),
      λ h.
          let p = listed_inj a d.ipv4 (sym (listed-append a) ∙ h.0) in
          let q = listed_inj b d.ipv6 (sym (listed-append b) ∙ h.1) in cc,
    )
    place_all_iff (p ∷ ps) none none d = elim (Bool-cases (is4 p)) [
      | inl e ↦ rw (e, place_all, values_of) (place_all_iff ps (some (value p)) none d)
      | inr e ↦ rw (e, place_all, values_of) (place_all_iff ps none (some (value p)) d)
    ]
    place_all_iff (p ∷ ps) (some v) none d = elim (Bool-cases (is4 p)) [
      | inl e ↦ rw (e, place_all, values_of) (λ h. cc, λ h. absurd (not_two _ _ _ _ h.0))
      | inr e ↦ rw (e, place_all, values_of) (place_all_iff ps (some v) (some (value p)) d)
    ]
    place_all_iff (p ∷ ps) none (some w) d = elim (Bool-cases (is4 p)) [
      | inl e ↦ rw (e, place_all, values_of) (place_all_iff ps (some (value p)) (some w) d)
      | inr e ↦ rw (e, place_all, values_of) (λ h. cc, λ h. absurd (not_two _ _ _ _ h.1))
    ]
    place_all_iff (p ∷ ps) (some v) (some w) d = elim (Bool-cases (is4 p)) [
      | inl e ↦ rw (e, place_all, values_of) (λ h. cc, λ h. absurd (not_two _ _ _ _ h.0))
      | inr e ↦ rw (e, place_all, values_of) (λ h. cc, λ h. absurd (not_two _ _ _ _ h.1))
    ]

    -- What it is that strings describe a dual-stack value.
    abbrev pub Describe : List Str → DualStack V → Type 0
    Describe strings d =
        (length strings ≤ 2)
        × ((ps : List P) × ((map parse strings ≡ map some ps)
              × ((values_of parse is4 value true ps ≡ listed d.ipv4)
                  × (values_of parse is4 value false ps ≡ listed d.ipv6))))

    parse_dual_stack_iff :
        (strings : List Str) (d : DualStack V)
        → (parse_dual_stack parse is4 value strings ≡ (d, none)) ↔ Describe strings d
    unfolding parse_dual_stack
    parse_dual_stack_iff strings d = elim (Bool-cases (ltb 2 (length strings))) [
      | inl e ↦ rw (e, parse_dual_stack) (λ h. cc, λ h. absurd (omega (arith, h.0, ltb→lt _ _ e)))
      | inr e ↦
          let short : length strings ≤ 2 = ground (arith, e) in
          elim (Result-cases (parse_all parse strings)) [
            | inl r ↦
                let (f, g) = place_all_iff r.0 none none d in
                rw (e, parse_dual_stack, r.1)
                  (
                    (λ h. (short, (r.0, ((parse_all_iff strings r.0).0 r.1, f h)))),
                    λ h.
                        let q = (parse_all_iff strings h.1.0).1 h.1.1.0 in
                        let same : h.1.0 ≡ r.0 = cc in
                        g (
                          subst
                            (λ ps.
                              (values_of parse is4 value true ps ≡ listed d.ipv4)
                              × (values_of parse is4 value false ps ≡ listed d.ipv6))
                            same h.1.1.1),
                  )
            | inr r ↦
                rw (e, parse_dual_stack, r.1)
                  (λ h. cc, λ h. let q = (parse_all_iff strings h.1.0).1 h.1.1.0 in cc)
          ]
    ]

module _ {Str Addr Prefix Ip IpNet : Type 0} (net : Netip Str Addr Prefix Ip IpNet) where
  gateway-none :
      (strings : List Str) (a : DualStack Ip)
      → parse_dual_stack_gateway_from_strings net strings ≡ (a, none)
      → parse_dual_stack_address_from_strings net strings ≡ (a, none)
  unfolding parse_dual_stack_gateway_from_strings
  gateway-none strings a h =
      elim (Option-cases (parse_dual_stack_address_from_strings net strings).1) [
        | inl q ↦ let k = rw (q, parse_dual_stack_gateway_from_strings) at h in cc
        | inr q ↦ let k = rw (q.1, parse_dual_stack_gateway_from_strings) at h in cc
      ]

  -- Addresses, networks and gateways are read without an error exactly when there are at most two
  -- strings, all of them parse and no two are of one family, and what is returned then is the
  -- address (network) of each family, or nil.
  pub parse_dual_stack_from_strings_iff :
      (strings : List Str) (a : DualStack Ip) (n : DualStack IpNet)
      → ((parse_dual_stack_address_from_strings net strings ≡ (a, none))
          ↔ Describe net.parse_addr net.is4 net.as_slice strings a)
        × (((parse_dual_stack_gateway_from_strings net strings ≡ (a, none))
              ↔ Describe net.parse_addr net.is4 net.as_slice strings a)
            × ((parse_dual_stack_network_from_strings net strings ≡ (n, none))
                ↔ Describe net.parse_prefix (λ p. net.is4 (net.addr p)) net.ip_net strings n))
  unfolding parse_dual_stack_address_from_strings parse_dual_stack_network_from_strings
      parse_dual_stack_gateway_from_strings
  parse_dual_stack_from_strings_iff strings a n =
      let (f, g) = parse_dual_stack_iff net.parse_addr net.is4 net.as_slice strings a in
      (
        (f, g),
        (
          (
            (λ h. f (gateway-none strings a h)),
            λ h.
                let q = g h in
                rw (q, parse_dual_stack_gateway_from_strings, parse_dual_stack_address_from_strings)
                  (ap (λ r. (r.0, none)) q),
          ),
          parse_dual_stack_iff net.parse_prefix (λ p. net.is4 (net.addr p)) net.ip_net strings n,
        ),
      )
