-- ===== src/Dataplane/Descendants.antt =====
-- The links inside a VRF: `vrfDescendants` of daemon/pkg/dataplane/vrf/targetvrf.go and `reversed`
-- of
-- daemon/pkg/dataplane/vrf/appsubnet.go.
use iml.Common.{
  ℕ, zero, suc, ◌+◌, ◌==◌, ◌||◌, Bool, true, false, List, [], ◌∷◌, ◌++◌, length, Option, none, some,
  if◌then◌else◌,
}
use iml.Common.Texts.{Text}
pub mod Invariant
pub mod Children
pub mod Reached
pub mod Returned

-- What `Attrs()` and `Type()` of a `netlink.Link` give; a master of 0 is no master.
pub record Link : Type 0 where
  pub name : Text
  pub index : ℕ
  pub master : ℕ
  pub physical : Bool

-- `children[master] = append(children[master], link)`
unfoldable pub add_child : Link → (ℕ → List Link) → ℕ → List Link
add_child l children m = if m == l.master then children m ++ (l ∷ []) else children m

-- The first loop.
unfoldable pub group_children : List Link → (ℕ → List Link) → ℕ → List Link
group_children [] children = children
group_children (l ∷ ls) children =
    group_children ls (if l.master == 0 then children else add_child l children)

-- The variables of the walk.
pub record Walk : Type 0 where
  pub visited : ℕ → Bool
  pub queue : List ℕ
  pub ordered : List Link

-- The body of the inner loop.
unfoldable pub visit_child : Link → Walk → Walk
visit_child c w = if w.visited c.index then w else record {
  visited = λ i. if i == c.index then true else w.visited i;
  queue = w.queue ++ (c.index ∷ []);
  ordered = w.ordered ++ (c ∷ []);
}

unfoldable pub visit_children : List Link → Walk → Walk
visit_children [] w = w
visit_children (c ∷ cs) w = visit_children cs (visit_child c w)

-- The outer loop, as long as the queue holds an index: `none` when the fuel ends first.
unfoldable pub walk_from : ℕ → (ℕ → List Link) → Walk → Option (List Link)
walk_from zero children w = elim w.queue [ [] ↦ some w.ordered | master ∷ rest ↦ none ]
walk_from (suc fuel) children w = elim w.queue [
  | [] ↦ some w.ordered
  | master ∷ rest ↦ walk_from fuel children (
      visit_children (children master)
        (record { visited = w.visited; queue = rest; ordered = w.ordered }))
]

unfoldable pub reversed {ℓ} : {A : Type ℓ} → List A → List A
reversed [] = []
reversed (x ∷ xs) = reversed xs ++ (x ∷ [])

-- The walk takes an index from the queue for the VRF and for each link at most, so that one turn
-- for each of them is fuel enough.
unfoldable pub vrf_descendants : ℕ → List Link → Option (List Link)
vrf_descendants vrf links =
    elim (walk_from (suc (length links)) (group_children links (λ m. []))
      (record { visited = λ i. i == vrf; queue = vrf ∷ []; ordered = [] })) [
        | none ↦ none
        | some ordered ↦ some (reversed ordered)
      ]
