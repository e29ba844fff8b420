-- ===== src/Dataplane/Descendants/Reached.antt =====
-- The walk of `vrfDescendants` ends and reaches every link inside the VRF:
-- daemon/pkg/dataplane/vrf/targetvrf.go.
use iml.Common.{
  ℕ, ◌+◌, ◌==◌, ==_iff, ◌≤◌, ◌≡◌, ◌⊎◌, inl, inr, Bool, true, false, List, [], ◌∷◌, length,
  if◌then◌else◌, arith, refl, sym, ap, ◌∙◌, subst, length-append, Bool-cases,
}
use mathlib.Core.List.{Memᴰ}
use mathlib.Core.List.Memᴰ.{head, tail}
use iml.Dataplane.Descendants.{Link, Walk, visit_child, visit_children}
use iml.Dataplane.Descendants.Invariant.{
  queued, queued-snoc, visit_child-cases, visit_children-visited,
}

-- Where the links that a queue waits for have their children seen.
abbrev pub Closed : (ℕ → List Link) → Walk → Type 0
Closed children w =
    (i : ℕ)
    → w.visited i ≡ true
    → (queued i w.queue ≡ true) ⊎ ((c : Link) → Memᴰ c (children i) → w.visited c.index ≡ true)

visit_child-sees : (c : Link) (w : Walk) → (visit_child c w).visited c.index ≡ true
visit_child-sees c w = elim (visit_child-cases c w) [
  | inl e ↦ rw e.1 e.0
  | inr e ↦ rw e.1 (ground arith)
]

visit_children-sees :
    (cs : List Link) (w : Walk) (c : Link)
    → Memᴰ c cs
    → (visit_children cs w).visited c.index ≡ true
unfolding visit_children
visit_children-sees [] w c m = elim m [ ]
visit_children-sees (d ∷ cs) w c (head e) =
    visit_children-visited cs (visit_child d w) c.index
      (ap (λ l. (visit_child d w).visited l.index) e ∙ visit_child-sees d w)
visit_children-sees (d ∷ cs) w c (tail m) = visit_children-sees cs (visit_child d w) c m

-- What was waiting waits, and what is newly seen waits too.
visit_child-waits :
    (c : Link) (w : Walk) (i : ℕ)
    → ((w.visited i ≡ true) → queued i w.queue ≡ true)
    → (visit_child c w).visited i ≡ true
    → queued i (visit_child c w).queue ≡ true
visit_child-waits c w i h =
    let q = queued-snoc i c.index w.queue in
    elim (visit_child-cases c w) [ inl e ↦ rw e.1 h | inr e ↦ rw e.1 (λ v. ground (arith, h)) ]

visit_child-queued :
    (c : Link) (w : Walk) (i : ℕ)
    → queued i w.queue ≡ true
    → queued i (visit_child c w).queue ≡ true
visit_child-queued c w i h =
    let q = queued-snoc i c.index w.queue in
    elim (visit_child-cases c w) [ inl e ↦ rw e.1 h | inr e ↦ rw e.1 (ground arith) ]

visit_children-queued :
    (cs : List Link) (w : Walk) (i : ℕ)
    → queued i w.queue ≡ true
    → queued i (visit_children cs w).queue ≡ true
unfolding visit_children
visit_children-queued [] w i h = h
visit_children-queued (c ∷ cs) w i h =
    visit_children-queued cs (visit_child c w) i (visit_child-queued c w i h)

visit_children-waits :
    (cs : List Link) (w : Walk) (i : ℕ)
    → (visit_children cs w).visited i ≡ true
    → (w.visited i ≡ true) ⊎ (queued i (visit_children cs w).queue ≡ true)
unfolding visit_children
visit_children-waits [] w i h = inl h
visit_children-waits (c ∷ cs) w i h = elim (visit_children-waits cs (visit_child c w) i h) [
  | inl v ↦ elim (Bool-cases (w.visited i)) [
    | inl e ↦ inl e
    | inr e ↦
        inr (visit_children-queued cs (visit_child c w) i (visit_child-waits c w i (λ t. cc) v))
  ]
  | inr q ↦ inr q
]

still_queued :
    (i m : ℕ) (rest : List ℕ) → (i == m) ≡ false → queued i (m ∷ rest) ≡ true → queued i rest ≡ true
unfolding queued
still_queued i m rest e h = ground (arith, e, h)

-- A turn of the outer loop.
pub turn-Closed :
    (children : ℕ → List Link) (w : Walk) (m : ℕ) (rest : List ℕ)
    → w.queue ≡ m ∷ rest
    → Closed children w
    → Closed children (
        visit_children
          (children m)
          (record { visited = w.visited; queue = rest; ordered = w.ordered }))
turn-Closed children w m rest q closed i v =
    let start : Walk = record { visited = w.visited; queue = rest; ordered = w.ordered } in
    let cs = children m in
    elim (visit_children-waits cs start i v) [
      | inr waits ↦ inl waits
      | inl before ↦ elim (Bool-cases (i == m)) [
        | inl e ↦ inr (λ c h.
            visit_children-sees cs start c (subst (λ j. Memᴰ c (children j)) ((==_iff i m).0 e) h))
        | inr e ↦ elim (closed i before) [
          | inl waits ↦
              inl (visit_children-queued cs start i (still_queued i m rest e (rw q at waits)))
          | inr kids ↦ inr (λ c h. visit_children-visited cs start c.index (kids c h))
        ]
      ]
    ]

-- How many links have an index that the walk has not seen.
unfoldable pub unseen : (ℕ → Bool) → List Link → ℕ
unseen visited [] = 0
unseen visited (l ∷ ls) = (if visited l.index then 0 else 1) + unseen visited ls

unseen_mono :
    (links : List Link) (i : ℕ) (visited : ℕ → Bool)
    → unseen (λ j. if j == i then true else visited j) links ≤ unseen visited links
unfolding unseen
unseen_mono [] i visited = omega arith
unseen_mono (l ∷ ls) i visited = let ih = unseen_mono ls i visited in ground arith

unseen-mark :
    (links : List Link) (c : Link) (visited : ℕ → Bool)
    → Memᴰ c links
    → visited c.index ≡ false
    → unseen (λ j. if j == c.index then true else visited j) links + 1 ≤ unseen visited links
unfolding unseen
unseen-mark [] c visited m f = elim m [ ]
unseen-mark (l ∷ ls) c visited (head e) f =
    let below = unseen_mono ls c.index visited in
    let same = ap (λ k. k.index) e in
    let new : visited l.index ≡ false = ap visited (sym same) ∙ f in
    ground (arith, below, same, new)
unseen-mark (l ∷ ls) c visited (tail m) f = let ih = unseen-mark ls c visited m f in ground arith

-- What the outer loop still has to do: the queue, and what may come into it.
abbrev pub left_over : List Link → Walk → ℕ
left_over links w = unseen w.visited links + length w.queue

visit_child-left_over :
    (links : List Link) (c : Link) (w : Walk)
    → Memᴰ c links
    → left_over links (visit_child c w) ≤ left_over links w
visit_child-left_over links c w m = elim (visit_child-cases c w) [
  | inl e ↦ rw e.1 (omega arith)
  | inr e ↦
      rw e.1
        (omega (arith, unseen-mark links c w.visited m e.0, length-append w.queue (c.index ∷ [])))
]

pub visit_children-left_over :
    (links cs : List Link) (w : Walk)
    → ((c : Link) → Memᴰ c cs → Memᴰ c links)
    → left_over links (visit_children cs w) ≤ left_over links w
unfolding visit_children
visit_children-left_over links [] w all = omega arith
visit_children-left_over links (c ∷ cs) w all = omega (
  arith,
  visit_children-left_over links cs (visit_child c w) (λ d h. all d (tail h)),
  visit_child-left_over links c w (all c (head refl)),
)
