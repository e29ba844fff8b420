-- ===== src/Dataplane/Descendants/Returned.antt =====
-- What `vrfDescendants` returns: daemon/pkg/dataplane/vrf/targetvrf.go.
use iml.Common.{
  ℕ, zero, suc, ◌==◌, ◌||◌, ◌≤◌, ◌≡◌, ◌≢◌, ◌⊎◌, inl, inr, Bool, true, List, [], ◌∷◌, length, Option,
  some, arith, refl, sym, ap, ◌∙◌,
}
use mathlib.Core.List.{Memᴰ}
use iml.Dataplane.Descendants.{
  Link, group_children, Walk, visit_children, walk_from, reversed, vrf_descendants,
}
use iml.Dataplane.Descendants.Invariant.{
  has_index, queued, DeepestFirst, Kept, Inside, direct, deeper, Child, visit_children-Kept,
}
use iml.Dataplane.Descendants.Children.{group_children-holds, group_children-Child}
use iml.Dataplane.Descendants.Reached.{
  Closed, turn-Closed, unseen, left_over, visit_children-left_over,
}

List-cases : (q : List ℕ) → (q ≡ []) ⊎ ((m : ℕ) × (rest : List ℕ) × (q ≡ m ∷ rest))
List-cases [] = inl refl
List-cases (m ∷ rest) = inr (m, rest, refl)

abbrev Returns : List Link → (ℕ → List Link) → ℕ → Option (List Link) → Type 0
Returns links children vrf r =
    (v : Walk) × ((r ≡ some v.ordered) × (Kept links vrf v × (Closed children v × (v.queue ≡ []))))

popped-Kept :
    (links : List Link) (vrf : ℕ) (w : Walk) (m : ℕ) (rest : List ℕ)
    → w.queue ≡ m ∷ rest
    → Kept links vrf w
    → Kept links vrf (record { visited = w.visited; queue = rest; ordered = w.ordered })
unfolding queued
popped-Kept links vrf w m rest q k = record {
  seen = k.seen;
  order = k.order;
  inside = k.inside;
  pending = λ i h. k.pending i (rw (q, queued) (ground (arith, h)));
}

-- The whole walk, on fuel for what is left to do.
walk_from-Returns :
    (links : List Link) (children : ℕ → List Link) (vrf fuel : ℕ) (w : Walk)
    → ((m : ℕ) (c : Link) → Memᴰ c (children m) → Child links m c)
    → Kept links vrf w
    → Closed children w
    → left_over links w ≤ fuel
    → Returns links children vrf (walk_from fuel children w)
unfolding walk_from queued
walk_from-Returns links children vrf zero w all k c enough = elim (List-cases w.queue) [
  | inl e ↦ rw (e, walk_from) (w, (refl, (k, (c, e))))
  | inr p ↦ absurd (omega (arith, enough, ap (λ q. length q) p.2))
]
walk_from-Returns links children vrf (suc fuel) w all k c enough = elim (List-cases w.queue) [
  | inl e ↦ rw (e, walk_from) (w, (refl, (k, (c, e))))
  | inr p ↦
      let start : Walk = record { visited = w.visited; queue = p.1; ordered = w.ordered } in
      rw (p.2, walk_from)
        (walk_from-Returns links children vrf fuel (visit_children (children p.0) start) all
          (visit_children-Kept links vrf p.0 (children p.0) start (all p.0)
            (k.pending p.0 (rw (p.2, queued) (ground arith)))
            (popped-Kept links vrf w p.0 p.1 p.2 k))
          (turn-Closed children w p.0 p.1 p.2 c)
          (omega (
            arith,
            visit_children-left_over links (children p.0) start (λ d h. (all p.0 d h).1.0),
            enough,
            ap (λ q. length q) p.2,
          )))
]

-- Once the queue is empty, the children of what has been seen have been seen.
child-visited :
    (children : ℕ → List Link) (v : Walk) (i : ℕ) (c : Link)
    → Closed children v
    → v.queue ≡ []
    → v.visited i ≡ true
    → Memᴰ c (children i)
    → v.visited c.index ≡ true
child-visited children v i c closed q h m = elim (closed i h) [
  | inl waits ↦ let none_waits : queued i [] ≡ true = rw q at waits in unfold queued in cc
  | inr kids ↦ kids c m
]

Inside-visited :
    (links : List Link) (children : ℕ → List Link) (vrf : ℕ) (v : Walk)
    → ((c : Link) → Memᴰ c links → c.master ≢ 0 → Memᴰ c (children c.master))
    → Kept links vrf v
    → Closed children v
    → v.queue ≡ []
    → (c : Link) → Inside links vrf c
    → v.visited c.index ≡ true
Inside-visited links children vrf v holds k closed q c (direct d m n e) =
    child-visited children v c.master c closed q (k.seen c.master ∙ ground (arith, e)) (holds c m n)
Inside-visited links children vrf v holds k closed q c (deeper d p m n i e) =
    child-visited children v c.master c closed q
      (ap v.visited e ∙ Inside-visited links children vrf v holds k closed q p i) (holds c m n)

start-Kept :
    (links : List Link) (vrf : ℕ)
    → Kept links vrf (record { visited = λ i. i == vrf; queue = vrf ∷ []; ordered = [] })
unfolding queued has_index DeepestFirst reversed
start-Kept links vrf = record {
  seen = λ i. ground arith;
  order = refl;
  inside = λ c h. elim h [ ];
  pending = λ i h. ground (arith, h);
}

start-Closed :
    (children : ℕ → List Link) (vrf : ℕ)
    → Closed children (record { visited = λ i. i == vrf; queue = vrf ∷ []; ordered = [] })
unfolding queued
start-Closed children vrf i h = inl (ground (arith, h))

unseen-length : (visited : ℕ → Bool) (links : List Link) → unseen visited links ≤ length links
unfolding unseen
unseen-length visited [] = omega arith
unseen-length visited (l ∷ links) = let ih = unseen-length visited links in ground arith

start-left_over :
    (links : List Link) (vrf : ℕ)
    → left_over links (record { visited = λ i. i == vrf; queue = vrf ∷ []; ordered = [] })
      ≤ suc (length links)
start-left_over links vrf = omega (arith, unseen-length (λ i. i == vrf) links)

vrf_descendants-walk :
    (vrf : ℕ) (links ordered : List Link)
    → walk_from
        (suc (length links))
        (group_children links (λ m. []))
        (record { visited = λ i. i == vrf; queue = vrf ∷ []; ordered = [] })
      ≡ some ordered
    → vrf_descendants vrf links ≡ some (reversed ordered)
unfolding vrf_descendants
vrf_descendants-walk vrf links ordered e = rw (e, vrf_descendants) refl

-- `vrfDescendants` terminates on every listing, within a turn for the VRF and one for each link,
-- and
-- what it returns holds only links whose chain of masters leads to the VRF, no index twice nor the
-- VRF's own, each link before its master, which is the VRF or a later one; and the index of every
-- link
-- whose chain of masters leads to the VRF is the VRF's or that of a returned link, however
-- malformed
-- the listing is.
pub vrf_descendants-returns :
    (vrf : ℕ) (links : List Link)
    → (r : List Link) × ((vrf_descendants vrf links ≡ some r)
        × (DeepestFirst vrf r
            × (((c : Link) → Memᴰ c r → Inside links vrf c)
                × ((c : Link)
                    → Inside links vrf c
                    → (c.index == vrf || has_index c.index r) ≡ true))))
vrf_descendants-returns vrf links =
    let children = group_children links (λ m. []) in
    let start : Walk = record { visited = λ i. i == vrf; queue = vrf ∷ []; ordered = [] } in
    let (v, (e, (k, (closed, q)))) =
      walk_from-Returns links children vrf (suc (length links)) start
        (group_children-Child links links (λ m. []) (λ m c h. elim h [ ]) (λ c h. h))
        (start-Kept links vrf) (start-Closed children vrf) (start-left_over links vrf) in
    (
      reversed v.ordered,
      (
        vrf_descendants-walk vrf links v.ordered e,
        (
          k.order,
          (
            k.inside,
            λ c i.
                sym (k.seen c.index)
                ∙ Inside-visited links children vrf v
                    (λ d m n. group_children-holds links (λ j. []) d (inr (m, n))) k closed q c i,
          ),
        ),
      ),
    )
