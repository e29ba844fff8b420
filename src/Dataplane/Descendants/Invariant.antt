-- ===== src/Dataplane/Descendants/Invariant.antt =====
-- What the walk of `vrfDescendants` keeps: daemon/pkg/dataplane/vrf/targetvrf.go.
use iml.Common.{
  ℕ, ◌==◌, ◌||◌, ◌≡◌, ◌≢◌, ◌⊎◌, inl, inr, Bool, true, false, List, [], ◌∷◌, ◌++◌, if◌then◌else◌,
  arith, refl, sym, ap, ◌∙◌, subst, Bool-cases, ==_iff,
}
use mathlib.Core.List.{Memᴰ}
use mathlib.Core.List.Memᴰ
use mathlib.Core.List.Memᴰ.{head, tail}
use iml.Dataplane.Descendants.{Link, Walk, visit_child, visit_children, reversed}

-- Whether a list has a link of an index.
unfoldable pub has_index : ℕ → List Link → Bool
has_index i [] = false
has_index i (l ∷ ls) = i == l.index || has_index i ls

-- Whether an index is in a queue.
unfoldable pub queued : ℕ → List ℕ → Bool
queued i [] = false
queued i (j ∷ q) = i == j || queued i q

-- Every link stands before its master, which is the VRF or a later link, and no index twice nor
-- the VRF's.
unfoldable pub DeepestFirst : ℕ → List Link → Type 0
DeepestFirst vrf [] = Path Bool true true
DeepestFirst vrf (l ∷ ls) =
    ((l.master == vrf || has_index l.master ls) ≡ true)
    × (((l.index == vrf || has_index l.index ls) ≡ false) × DeepestFirst vrf ls)

-- The links of a listing whose chain of masters leads to the VRF.
pub data Inside (links : List Link) (vrf : ℕ) : Link → Type 0 where
  direct : (c : Link) → Memᴰ c links → c.master ≢ 0 → c.master ≡ vrf → Inside links vrf c
  deeper :
      (c p : Link)
      → Memᴰ c links
      → c.master ≢ 0
      → Inside links vrf p
      → c.master ≡ p.index
      → Inside links vrf c

pub link_of_index :
    (i : ℕ) (ls : List Link) → has_index i ls ≡ true → (p : Link) × (Memᴰ p ls × (i ≡ p.index))
unfolding has_index
link_of_index i [] h = cc
link_of_index i (l ∷ ls) h = elim (Bool-cases (i == l.index)) [
  | inl e ↦ (l, (head refl, (==_iff i l.index).0 e))
  | inr e ↦ let (p, (m, q)) = link_of_index i ls (ground (arith, h, e)) in (p, (tail m, q))
]

pub record Kept (links : List Link) (vrf : ℕ) (w : Walk) : Type 0 where
  pub seen : (i : ℕ) → w.visited i ≡ (i == vrf || has_index i (reversed w.ordered))
  pub order : DeepestFirst vrf (reversed w.ordered)
  pub inside : (c : Link) → Memᴰ c (reversed w.ordered) → Inside links vrf c
  pub pending : (i : ℕ) → queued i w.queue ≡ true → w.visited i ≡ true

reversed-snoc : (ls : List Link) (l : Link) → reversed (ls ++ (l ∷ [])) ≡ l ∷ reversed ls
unfolding reversed
reversed-snoc [] l = refl
reversed-snoc (x ∷ ls) l = ap (λ r. r ++ (x ∷ [])) (reversed-snoc ls l)

pub queued-snoc : (i j : ℕ) (q : List ℕ) → queued i (q ++ (j ∷ [])) ≡ (queued i q || i == j)
unfolding queued
queued-snoc i j [] = ground arith
queued-snoc i j (x ∷ q) = let ih = queued-snoc i j q in ground arith

-- The walk with a link that it has not seen.
abbrev pub marked : Link → Walk → Walk
marked c w = record {
  visited = λ i. if i == c.index then true else w.visited i;
  queue = w.queue ++ (c.index ∷ []);
  ordered = w.ordered ++ (c ∷ []);
}

pub visit_child-cases :
    (c : Link) (w : Walk)
    → ((w.visited c.index ≡ true) × (visit_child c w ≡ w))
      ⊎ ((w.visited c.index ≡ false) × (visit_child c w ≡ marked c w))
unfolding visit_child
visit_child-cases c w = elim (Bool-cases (w.visited c.index)) [
  | inl e ↦ inl (e, rw (e, visit_child) refl)
  | inr e ↦ inr (e, rw (e, visit_child) refl)
]

-- What the inner loop takes of a child.
abbrev pub Child : List Link → ℕ → Link → Type 0
Child links m c = (c.master ≡ m) × (Memᴰ c links × (c.master ≢ 0))

Kept-Inside :
    (links : List Link) (vrf m : ℕ) (c : Link) (w : Walk)
    → Child links m c
    → w.visited m ≡ true
    → Kept links vrf w
    → Inside links vrf c
Kept-Inside links vrf m c w child v k = elim (Bool-cases (m == vrf)) [
  | inl e ↦ direct c child.1.0 child.1.1 (child.0 ∙ (==_iff m vrf).0 e)
  | inr e ↦
      let s = k.seen m in
      let (p, (h, q)) = link_of_index m (reversed w.ordered) (ground (arith, s, v, e)) in
      deeper c p child.1.0 child.1.1 (k.inside p h) (child.0 ∙ q)
]

marked-Kept :
    (links : List Link) (vrf m : ℕ) (c : Link) (w : Walk)
    → Child links m c
    → w.visited m ≡ true
    → w.visited c.index ≡ false
    → Kept links vrf w
    → Kept links vrf (marked c w)
unfolding has_index DeepestFirst
marked-Kept links vrf m c w child v f k = record {
  seen = λ i. rw (reversed-snoc w.ordered c) (let e = k.seen i in ground arith);
  order =
      rw (reversed-snoc w.ordered c)
        (sym (k.seen c.master) ∙ ap w.visited child.0 ∙ v, (sym (k.seen c.index) ∙ f, k.order));
  inside = rw (reversed-snoc w.ordered c) (λ d h. elim (Memᴰ.cases_cons h) [
    | inl e ↦ subst (Inside links vrf) (sym e) (Kept-Inside links vrf m c w child v k)
    | inr t ↦ k.inside d t
  ]);
  pending = λ i h. let e = k.pending i in let q = queued-snoc i c.index w.queue in ground arith;
}

visit_child-Kept :
    (links : List Link) (vrf m : ℕ) (c : Link) (w : Walk)
    → Child links m c
    → w.visited m ≡ true
    → Kept links vrf w
    → Kept links vrf (visit_child c w)
visit_child-Kept links vrf m c w child v k = elim (visit_child-cases c w) [
  | inl h ↦ rw h.1 k
  | inr h ↦ rw h.1 (marked-Kept links vrf m c w child v h.0 k)
]

visit_child-visited :
    (c : Link) (w : Walk) (i : ℕ) → w.visited i ≡ true → (visit_child c w).visited i ≡ true
visit_child-visited c w i h = elim (visit_child-cases c w) [
  | inl e ↦ rw e.1 h
  | inr e ↦ rw e.1 (ground arith)
]

pub visit_children-visited :
    (cs : List Link) (w : Walk) (i : ℕ)
    → w.visited i ≡ true
    → (visit_children cs w).visited i ≡ true
unfolding visit_children
visit_children-visited [] w i h = h
visit_children-visited (c ∷ cs) w i h =
    visit_children-visited cs (visit_child c w) i (visit_child-visited c w i h)

pub visit_children-Kept :
    (links : List Link) (vrf m : ℕ) (cs : List Link) (w : Walk)
    → ((c : Link) → Memᴰ c cs → Child links m c)
    → w.visited m ≡ true
    → Kept links vrf w
    → Kept links vrf (visit_children cs w)
unfolding visit_children
visit_children-Kept links vrf m [] w all v k = k
visit_children-Kept links vrf m (c ∷ cs) w all v k =
    visit_children-Kept links vrf m cs (visit_child c w) (λ d h. all d (tail h))
      (visit_child-visited c w m v) (visit_child-Kept links vrf m c w (all c (head refl)) v k)
