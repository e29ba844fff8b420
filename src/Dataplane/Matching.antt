-- ===== src/Dataplane/Matching.antt =====
-- Lists compared without their order: `ElementsMatchInAnyOrder` of
-- daemon/pkg/dataplane/vrf/util/vrf_util.go.
use iml.Common.{
  ℕ, zero, suc, ◌+◌, ◌-◌, ◌==◌, ◌≤◌, ◌≡◌, ◌↔◌, ◌⊎◌, inl, inr, ite, Bool, true, false, List, [], ◌∷◌,
  length, if◌then◌else◌, arith, refl, sym, ap, ==_iff, ◌∙◌,
}
use mathlib.Core.Quot
use mathlib.Core.Quot.{Quot}
use native.Mathlib.Nat.{ℕ_set}

module _ {T : Type 0} (dec : Discrete T) where
  -- `counts[v]++`; a key that the map does not hold counts 0.
  unfoldable pub count_up : T → (T → ℕ) → T → ℕ
  count_up v counts k = ite (dec k v) (suc (counts k)) (counts k)

  -- `counts[v]--`, where the count is positive.
  unfoldable pub count_down : T → (T → ℕ) → T → ℕ
  count_down v counts k = ite (dec k v) (counts k - 1) (counts k)

  -- The first loop, from an empty map.
  unfoldable pub count_all : List T → (T → ℕ) → T → ℕ
  count_all [] counts = counts
  count_all (v ∷ vs) counts = count_all vs (count_up v counts)

  -- The second loop: it gives up when a count falls below 0.
  unfoldable pub uncount_all : List T → (T → ℕ) → Bool
  uncount_all [] counts = true
  uncount_all (v ∷ vs) counts = elim (counts v) [
    | zero ↦ false
    | suc c ↦ uncount_all vs (count_down v counts)
  ]

  unfoldable pub elements_match_in_any_order : List T → List T → Bool
  elements_match_in_any_order p q =
      if length p == length q then uncount_all q (count_all p (λ k. 0)) else false

  -- How often an item stands in a list.
  unfoldable pub count : T → List T → ℕ
  count a [] = 0
  count a (x ∷ xs) = ite (dec a x) (suc (count a xs)) (count a xs)

  abbrev pub SameItems : List T → List T → Type 0
  SameItems p q = (a : T) → count a p ≡ count a q

  -- A list without its order.
  abbrev pub Bag : Type 0
  Bag = Quot SameItems

  -- The list without the first of an item.
  erase : T → List T → List T
  erase a [] = []
  erase a (x ∷ xs) = ite (dec a x) xs (x ∷ erase a xs)

  count-erase :
      (a v : T) (xs : List T)
      → 1 ≤ count v xs
      → count a xs ≡ ite (dec a v) (suc (count a (erase v xs))) (count a (erase v xs))
  unfolding count erase
  count-erase a v [] h = omega (arith, h)
  count-erase a v (x ∷ xs) h = elim (dec v x) [
    | yes p ↦ grind arith
    | no n ↦ let ih = count-erase a v xs in grind arith
  ]

  length-erase : (v : T) (xs : List T) → 1 ≤ count v xs → length xs ≡ suc (length (erase v xs))
  unfolding count erase
  length-erase v [] h = omega (arith, h)
  length-erase v (x ∷ xs) h = elim (dec v x) [
    | yes p ↦ grind arith
    | no n ↦ let ih = length-erase v xs in grind arith
  ]

  zero-or-suc : (n : ℕ) → (n ≡ 0) ⊎ ((m : ℕ) × (n ≡ suc m))
  zero-or-suc zero = inl refl
  zero-or-suc (suc m) = inr (m, refl)

  below-cons :
      (v : T) (vs : List T) (counts : T → ℕ) (m : ℕ)
      → counts v ≡ suc m
      → ((a : T) → count a (v ∷ vs) ≤ counts a) ↔ ((a : T) → count a vs ≤ count_down v counts a)
  unfolding count count_down
  below-cons v vs counts m q = (
    (λ h a. elim (dec a v) [
      | yes p ↦ let k = h a in grind arith
      | no n ↦ let k = h a in grind arith
    ]),
    λ h a. elim (dec a v) [
      | yes p ↦ let k = h a in let r = ap counts p in grind arith
      | no n ↦ let k = h a in grind arith
    ],
  )

  uncount_all-zero :
      (v : T) (vs : List T) (counts : T → ℕ) → counts v ≡ 0 → uncount_all (v ∷ vs) counts ≡ false
  unfolding uncount_all
  uncount_all-zero v vs counts z = rw (z, uncount_all) refl

  uncount_all-suc :
      (v : T) (vs : List T) (counts : T → ℕ) (m : ℕ)
      → counts v ≡ suc m
      → uncount_all (v ∷ vs) counts ≡ uncount_all vs (count_down v counts)
  unfolding uncount_all
  uncount_all-suc v vs counts m z = rw (z, uncount_all) refl

  count_self : (v : T) (vs : List T) → 1 ≤ count v (v ∷ vs)
  unfolding count
  count_self v vs = elim (dec v v) [ yes p ↦ grind arith | no n ↦ grind arith ]

  -- What the second loop tests, of any counts.
  uncount_all_iff :
      (vs : List T) (counts : T → ℕ)
      → (uncount_all vs counts ≡ true) ↔ ((a : T) → count a vs ≤ counts a)
  unfolding uncount_all count
  uncount_all_iff [] counts = (λ h a. omega arith, λ h. refl)
  uncount_all_iff (v ∷ vs) counts = elim (zero-or-suc (counts v)) [
    | inl z ↦
        let e = uncount_all-zero v vs counts z in
        ((λ h. cc), λ h. let k = h v in let c = count_self v vs in absurd (omega (arith, z)))
    | inr p ↦
        let e = uncount_all-suc v vs counts p.0 p.1 in
        let (f, g) = uncount_all_iff vs (count_down v counts) in
        let (b, c) = below-cons v vs counts p.0 p.1 in ((λ h. c (f (sym e ∙ h))), λ h. e ∙ g (b h))
  ]

  -- What the first loop counts.
  count_all-count :
      (p : List T) (counts : T → ℕ) (a : T) → count_all p counts a ≡ count a p + counts a
  unfolding count_all count count_up
  count_all-count [] counts a = omega arith
  count_all-count (v ∷ vs) counts a =
      let ih = count_all-count vs (count_up v counts) a in grind arith

  below-erase :
      (v : T) (p q : List T)
      → ((a : T) → count a (v ∷ q) ≤ count a p)
      → (1 ≤ count v p) × ((a : T) → count a q ≤ count a (erase v p))
  unfolding count
  below-erase v p q h =
      let one : 1 ≤ count v p = let k = h v in grind arith in
      (
        one,
        λ a.
            let k = h a in
            let e = count-erase a v p one in
            elim (dec a v) [ yes d ↦ grind arith | no n ↦ grind arith ],
      )

  -- Fewer of every item, fewer items.
  length_mono : (p q : List T) → ((a : T) → count a q ≤ count a p) → length q ≤ length p
  length_mono p [] h = omega arith
  length_mono p (v ∷ q) h =
      let (one, below) = below-erase v p q h in
      omega (arith, length_mono (erase v p) q below, length-erase v p one)

  SameItems-of_le :
      (p q : List T) → ((a : T) → count a q ≤ count a p) → length p ≡ length q → SameItems p q
  unfolding count
  SameItems-of_le [] [] h e a = refl
  SameItems-of_le (x ∷ p) [] h e a = omega (arith, e)
  SameItems-of_le p (v ∷ q) h e a =
      let (one, below) = below-erase v p q h in
      let ih = SameItems-of_le (erase v p) q below (omega (arith, length-erase v p one, e)) a in
      let k = count-erase a v p one in grind arith

  matching_counts :
      (p q : List T)
      → (uncount_all q (count_all p (λ k. 0)) ≡ true) ↔ ((a : T) → count a q ≤ count a p)
  matching_counts p q =
      let (f, g) = uncount_all_iff q (count_all p (λ k. 0)) in
      (
        (λ h a. let k = f h a in omega (arith, count_all-count p (λ k. 0) a)),
        λ h. g (λ a. let k = h a in omega (arith, count_all-count p (λ k. 0) a)),
      )

  guarded_iff : (b c : Bool) → ((if b then c else false) ≡ true) ↔ ((b ≡ true) × (c ≡ true))
  guarded_iff true c = ((λ h. (refl, h)), λ h. h.1)
  guarded_iff false c = ((λ h. cc), λ h. h.0)

  elements_match-SameItems :
      (p q : List T) → (elements_match_in_any_order p q ≡ true) ↔ SameItems p q
  unfolding elements_match_in_any_order
  elements_match-SameItems p q =
      let (f, g) = matching_counts p q in
      let (k, l) = guarded_iff (length p == length q) (uncount_all q (count_all p (λ k. 0))) in
      let (b, c) = ==_iff (length p) (length q) in
      (
        (λ h. SameItems-of_le p q (f ((k h).1)) (b ((k h).0))),
        λ h.
            let below = length_mono p q (λ a. omega (arith, h a)) in
            let above = length_mono q p (λ a. omega (arith, h a)) in
            l (c (omega (arith, below, above)), g (λ a. omega (arith, h a))),
      )

  -- `ElementsMatchInAnyOrder` decides whether two slices are one bag: it returns true exactly when
  -- they are equal in the quotient of the lists by holding every item as often.
  pub elements_match_in_any_order_iff :
      (p q : List T) → (elements_match_in_any_order p q ≡ true) ↔ Path Bag (Quot.mk p) (Quot.mk q)
  elements_match_in_any_order_iff p q =
      let (f, g) = elements_match-SameItems p q in
      ((λ h. Quot.sound (f h)), λ e. g (λ a. ap (Quot.lift ℕ_set (count a) (λ xs ys h. h a)) e))
