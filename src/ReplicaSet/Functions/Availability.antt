-- ===== src/ReplicaSet/Functions/Availability.antt =====
-- util/rs_util.go: when a network function becomes available, and when the controller looks again.
use iml.Common.{
  ℕ, ◌+◌, ◌≡◌, refl, ap, sym, ◌∙◌, subst, true, not, Option, none, some, List, [], ◌∷◌,
  if◌then◌else◌, arith, Bool-cases, Option-cases, inl, inr, ◌⊎◌, ◌↔◌,
}
use mathlib.Core.List.{Memᴰ}
use mathlib.Core.List.Memᴰ.{head, tail}
use iml.Common.Int.{ℤ, pos, leb_ℤ, ltb_ℤ, ◌+ℤ◌, ◌-ℤ◌, ◌≤ℤ◌, +ℤ_parts, -ℤ_parts, one_sided}
use iml.ReplicaSet.Functions.{
  Condition, NetworkFunction, ready_condition, is_true, is_nf_ready, seconds, is_nf_available,
  is_zero, check_by, next_check, earlier, find_min_check,
}

due :
    (t now e : ℕ) (s : ℤ)
    → (not (ltb_ℤ (pos (now + e) -ℤ pos t) s) ≡ true) ↔ (pos t +ℤ s -ℤ pos now ≤ℤ pos e)
due t now e s = ground (
  arith,
  -ℤ_parts (pos (now + e)) (pos t),
  +ℤ_parts (pos t) s,
  -ℤ_parts (pos t +ℤ s) (pos now),
  one_sided s,
)

value : Option ℤ → ℤ
value none = pos 0
value (some d) = d

-- `nextNFAvailabilityCheck` of the ready condition.
due_check :
    (c : Condition) (min_ready : ℤ) (now e : ℕ) (d : ℤ)
    → check_by min_ready now (some c) ≡ some d
    → (not (ltb_ℤ (pos (now + e) -ℤ pos c.last_transition) (seconds min_ready)) ≡ true)
      ↔ (d ≤ℤ pos e)
unfolding value
due_check c min_ready now e d = elim (Bool-cases (is_zero c.last_transition)) [
  | inl z ↦ rw (z, check_by) (λ h. cc)
  | inr z ↦
      let next = pos c.last_transition +ℤ seconds min_ready -ℤ pos now in
      elim (Bool-cases (ltb_ℤ (pos 0) next)) [
        | inr n ↦ rw (z, n, check_by) (λ h. cc)
        | inl y ↦
            rw (z, y, check_by)
              (λ h.
                subst
                  (λ x.
                    (not (ltb_ℤ (pos (now + e) -ℤ pos c.last_transition) (seconds min_ready))
                      ≡ true)
                    ↔ (x ≤ℤ pos e))
                  (ap value h) (due c.last_transition now e (seconds min_ready)))
      ]
]

-- If `nextNFAvailabilityCheck` returns a duration, the network function is available once that
-- duration has passed, and not before.
pub next_check_available :
    (nf : NetworkFunction) (min_ready : ℤ) (now e : ℕ) (d : ℤ)
    → next_check nf min_ready now ≡ some d
    → (is_nf_available nf min_ready (now + e) ≡ true) ↔ (d ≤ℤ pos e)
unfolding next_check is_nf_available is_nf_ready
next_check_available nf min_ready now e d = elim (Option-cases (ready_condition nf.conditions)) [
  | inl n ↦ rw (n, next_check, is_nf_available) (λ h. cc)
  | inr (c, r) ↦ elim (Bool-cases (is_true c.status)) [
    | inr f ↦ rw (r, f, next_check, is_nf_available) (λ h. cc)
    | inl t ↦ elim (Bool-cases (leb_ℤ min_ready (pos 0))) [
      | inl l ↦ rw (r, t, l, next_check, is_nf_available) (λ h. cc)
      | inr l ↦ rw (r, t, l, next_check, is_nf_available) (due_check c min_ready now e d)
    ]
  ]
]

le_of_some : (c e : ℤ) → some c ≡ some e → c ≤ℤ e
unfolding value
le_of_some c e h = subst (λ x. c ≤ℤ x) (ap value h) (omega arith)

-- The lesser of a check and the least one so far.
lesser :
    (check least : Option ℤ) (e : ℤ)
    → ((check ≡ some e) ⊎ (least ≡ some e))
    → (l : ℤ) × ((if earlier check least then check else least) ≡ some l) × (l ≤ℤ e)
lesser (some c) none e (inl h) = (c, refl, le_of_some c e h)
lesser (some c) none e (inr h) = cc
lesser none least e (inl h) = cc
lesser none least e (inr h) = (e, h, omega arith)
lesser (some c) (some l) e h = elim (Bool-cases (ltb_ℤ c l)) [
  | inl y ↦ (
    c,
    rw y refl,
    elim h [ inl a ↦ le_of_some c e a | inr a ↦ ground (arith, y, le_of_some l e a) ],
  )
  | inr n ↦ (
    l,
    rw n refl,
    elim h [ inl a ↦ ground (arith, n, le_of_some c e a) | inr a ↦ le_of_some l e a ],
  )
]

least_so_far :
    (min_ready : ℤ) (now : ℕ) (l : ℤ) (nfs : List NetworkFunction)
    → (d : ℤ) × (find_min_check min_ready now (some l) nfs ≡ some d) × (d ≤ℤ l)
unfolding find_min_check
least_so_far min_ready now l [] = (l, refl, omega arith)
least_so_far min_ready now l (nf ∷ nfs) =
    let (m, e, le) = lesser (next_check nf min_ready now) (some l) l (inr refl) in
    let (d, f, le') = least_so_far min_ready now m nfs in (d, rw e f, omega (arith, le, le'))

-- The check that `findMinNextNFAvailabilitySimpleCheck` returns is no later than that of any network
-- function of the list that has one.
pub find_min_check_lem :
    (min_ready : ℤ) (now : ℕ) (least : Option ℤ) (nfs : List NetworkFunction) (nf : NetworkFunction)
    (e : ℤ)
    → Memᴰ nf nfs
    → next_check nf min_ready now ≡ some e
    → (d : ℤ) × (find_min_check min_ready now least nfs ≡ some d) × (d ≤ℤ e)
unfolding find_min_check
find_min_check_lem min_ready now least [] nf e m h = elim m [ ]
find_min_check_lem min_ready now least (x ∷ nfs) nf e (head q) h =
    let (l, p, le) =
      lesser (next_check x min_ready now) least e
        (inl (ap (λ y. next_check y min_ready now) (sym q) ∙ h)) in
    let (d, f, le') = least_so_far min_ready now l nfs in (d, rw p f, omega (arith, le, le'))
find_min_check_lem min_ready now least (x ∷ nfs) nf e (tail m) h =
    find_min_check_lem min_ready now
      (if earlier (next_check x min_ready now) least then next_check x min_ready now else least) nfs
      nf e m h
