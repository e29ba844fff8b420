-- ===== src/ReplicaSet/Expectations/Observed.antt =====
-- util/expectations.go: a deletion counts once, and a controller waits for all of them.
use iml.Common.{
  ℕ, zero, suc, ◌-◌, ◌≤◌, ◌<◌, ◌^◌, ◌≡◌, refl, sym, ap, ◌∙◌, subst, true, ◌||◌, ltb, ◌&&◌,
  if◌then◌else◌, ite, if_pos, if_neg, List, [], ◌∷◌, arith, Bool-cases, inl, inr, ◌↔◌, ◌⊎◌,
}
use mathlib.Core.Bool.{true≢false}
use mathlib.Core.List.{Memᴰ}
use mathlib.Core.List.Memᴰ.{head, tail}
use iml.Common.Int.{pos, leb_ℤ}
use iml.Common.Stores.{Stores, Sets}
use iml.ReplicaSet.Expectations.{
  ControlleeExpectations, expectations_timeout, UidTracking, satisfied_expectations, new_set,
  expect_deletions, deletion_observed, observe_all, is_satisfied,
}
use iml.ReplicaSet.Expectations.Tracked.{
  Tracked, Tracked-expect_deletions, Tracked-own, Tracked-same, Tracked-other,
}

zero_counts :
    (n at now : ℕ)
    → at - now ≤ expectations_timeout
    → ((leb_ℤ (pos 0) (pos 0) && leb_ℤ (pos n) (pos 0) || ltb expectations_timeout (at - now))
        ≡ true)
      ↔ (n ≡ 0)
zero_counts n at now h = ground arith

zero_or_pos : (n : ℕ) → (n ≡ 0) ⊎ (0 < n)
zero_or_pos zero = inl refl
zero_or_pos (suc n) = inr (omega arith)

module _ {K U : Type 0} (F : Sets U) (S : Stores K ControlleeExpectations)
    (T : Stores K F.Set) where
  -- The keys that are left when `seen` has been observed.
  abbrev left_of : K → List (K × U) → F.Set → F.Set
  left_of k [] s = s
  left_of k ((j, u) ∷ seen) s =
      left_of k seen (ite (S.dec k j) (if F.has u s then F.delete u s else s) s)

  Tracked-observe_all :
      (now : ℕ) (k : K) (seen : List (K × U)) (s : F.Set) (t : UidTracking F S T)
      → Tracked F S T now k s t
      → Tracked F S T now k (left_of k seen s) (observe_all F S T seen t)
  unfolding observe_all
  Tracked-observe_all now k [] s t h = h
  Tracked-observe_all now k ((j, u) ∷ seen) s t h = elim (S.dec k j) [
    | no n ↦ rw (if_neg (S.dec k j) n) (
        Tracked-observe_all now k seen s (deletion_observed F S T j u t)
          (Tracked-other F S T now k s t j u n h))
    | yes y ↦ elim (Bool-cases (F.has u s)) [
      | inl e ↦
          rw (if_pos (S.dec k j) y, e)
            (Tracked-observe_all now k seen (F.delete u s) (deletion_observed F S T j u t) (
              subst (λ i. Tracked F S T now k (F.delete u s) (deletion_observed F S T i u t)) y
                (Tracked-own F S T now k s t u h e)))
      | inr e ↦
          rw (if_pos (S.dec k j) y, e)
            (Tracked-observe_all now k seen s (deletion_observed F S T j u t) (
              subst (λ i. Tracked F S T now k s (deletion_observed F S T i u t)) y
                (Tracked-same F S T now k s t u h e)))
    ]
  ]

  has_deleted :
      (s : F.Set) (u v : U) → F.has v (F.delete u s) ≡ true → (F.has v s ≡ true) × ¬ (v ≡ u)
  has_deleted s u v h = elim (F.dec v u) [
    | yes y ↦ absurd (true≢false (sym h ∙ F.has-delete u s v ∙ if_pos (F.dec v u) y _ _))
    | no n ↦ (sym (if_neg (F.dec v u) n _ _) ∙ sym (F.has-delete u s v) ∙ h, n)
  ]

  has-left_of :
      (k : K) (seen : List (K × U)) (s : F.Set) (v : U)
      → F.has v (left_of k seen s) ≡ true
      → (F.has v s ≡ true) × ¬ Memᴰ (k, v) seen
  has-left_of k [] s v = λ h. (h, λ m. elim m [ ])
  has-left_of k ((j, u) ∷ seen) s v = elim (S.dec k j) [
    | no n ↦ rw (if_neg (S.dec k j) n) (λ h.
        let (a, b) = has-left_of k seen s v h in
        (a, λ m. elim m [ head e ↦ n (ap (λ p. p.0) e) | tail t ↦ b t ]))
    | yes y ↦ elim (Bool-cases (F.has u s)) [
      | inl e ↦
          rw (if_pos (S.dec k j) y, e)
            (λ h.
              let (a, b) = has-left_of k seen (F.delete u s) v h in
              let (c, d) = has_deleted s u v a in
              (c, λ m. elim m [ head q ↦ d (ap (λ p. p.1) q) | tail t ↦ b t ]))
      | inr e ↦
          rw (if_pos (S.dec k j) y, e)
            (λ h.
              let (a, b) = has-left_of k seen s v h in
              (
                a,
                λ m. elim m [
                  | head q ↦ true≢false (sym a ∙ ap (λ p. F.has p.1 s) q ∙ e)
                  | tail t ↦ b t
                ],
              ))
    ]
  ]

  later : {A : Type 0} {x y : K × U} {seen : List (K × U)} → A ⊎ Memᴰ x seen → A ⊎ Memᴰ x (y ∷ seen)
  later (inl a) = inl a
  later (inr m) = inr (tail m)

  left_or_seen :
      (k : K) (seen : List (K × U)) (s : F.Set) (v : U)
      → F.has v s ≡ true
      → (F.has v (left_of k seen s) ≡ true) ⊎ Memᴰ (k, v) seen
  left_or_seen k [] s v h = inl h
  left_or_seen k ((j, u) ∷ seen) s v h = elim (S.dec k j) [
    | no n ↦ rw (if_neg (S.dec k j) n) (later (left_or_seen k seen s v h))
    | yes y ↦ elim (Bool-cases (F.has u s)) [
      | inr e ↦ rw (if_pos (S.dec k j) y, e) (later (left_or_seen k seen s v h))
      | inl e ↦
          rw (if_pos (S.dec k j) y, e)
            (elim (F.dec v u) [
              | yes z ↦ inr (head (ap (λ a. (a, v)) y ∙ ap (λ b. (j, b)) z))
              | no n ↦ later (
                  left_or_seen k seen (F.delete u s) v
                    (F.has-delete u s v ∙ if_neg (F.dec v u) n _ _ ∙ h))
            ])
    ]
  ]

  has-new_set : (us : List U) (v : U) → F.has v (new_set F S T us) ≡ true → Memᴰ v us
  unfolding new_set
  has-new_set [] v h = absurd (true≢false (sym h ∙ F.has-empty v))
  has-new_set (u ∷ us) v h = elim (F.dec v u) [
    | yes y ↦ head y
    | no n ↦ tail (
        has-new_set us v
          (sym (if_neg (F.dec v u) n _ _) ∙ sym (F.has-insert u (new_set F S T us) v) ∙ h))
  ]

  has_of_mem : (us : List U) (v : U) → Memᴰ v us → F.has v (new_set F S T us) ≡ true
  unfolding new_set
  has_of_mem [] v m = elim m [ ]
  has_of_mem (u ∷ us) v m = elim (F.dec v u) [
    | yes y ↦ F.has-insert u (new_set F S T us) v ∙ if_pos (F.dec v u) y _ _
    | no n ↦
        F.has-insert u (new_set F S T us) v
        ∙ if_neg (F.dec v u) n _ _
        ∙ (elim m [ head e ↦ absurd (n e) | tail t ↦ has_of_mem us v t ])
  ]

  zero_ne : {n m : ℕ} → n ≡ suc m → n ≡ 0 → ⊥
  zero_ne p q = omega (arith, p, q)

  len_zero : (s : F.Set) → ((u : U) → ¬ (F.has u s ≡ true)) → F.len s ≡ 0
  len_zero s none_left = elim (zero_or_pos (F.len s)) [
    | inl e ↦ e
    | inr p ↦ let (u, h) = F.has_of_len s p in absurd (none_left u h)
  ]

  satisfied_len :
      (now at : ℕ) (k : K) (s : F.Set) (t : UidTracking F S T)
      → at - now ≤ expectations_timeout
      → Tracked F S T now k s t
      → (satisfied_expectations S at k t.counts ≡ true) ↔ (F.len s ≡ 0)
  unfolding satisfied_expectations is_satisfied
  satisfied_len now at k s t w h = rw h.counts (zero_counts (F.len s) at now w)

  -- Until the timeout, a controller that has asked for the deletion of `us` is told that its
  -- expectations are satisfied exactly when each of them has been observed for it, however often,
  -- in whatever order and mixed with whatever events of other controllers or other keys.
  pub satisfied_expectations_iff :
      (now at : ℕ) (k : K) (us : List U) (t : UidTracking F S T) (seen : List (K × U))
      → F.len (new_set F S T us) < 2 ^ 63
      → at - now ≤ expectations_timeout
      → (satisfied_expectations S at k
            (observe_all F S T seen (expect_deletions F S T now k us t)).counts
          ≡ true)
        ↔ ((u : U) → Memᴰ u us → Memᴰ (k, u) seen)
  satisfied_expectations_iff now at k us t seen fits w =
      let start = Tracked-expect_deletions F S T now k us t fits in
      let s = new_set F S T us in
      let (f, g) =
        satisfied_len now at k (left_of k seen s) _ w (Tracked-observe_all now k seen s _ start) in
      (
        λ ok u m. elim (left_or_seen k seen s u (has_of_mem us u m)) [
          | inr q ↦ q
          | inl q ↦ absurd (zero_ne (F.len-delete u (left_of k seen s) q) (f ok))
        ],
        λ all. g (
            len_zero (left_of k seen s)
              (λ u h. let (a, b) = has-left_of k seen s u h in b (all u (has-new_set us u a)))),
      )
