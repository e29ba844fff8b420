-- ===== src/ReplicaSet/Order/Tests.antt =====
-- Three running network functions at the time 1000, which the order puts in a circle.
use mathlib.Core.List.{Permᴰ}
use mathlib.Core.List.Permᴰ.{nil, cons, swap, trans}
use mathlib.Core.List.Permᴰ
use iml.Common.{
  ℕ, ◌≡◌, refl, Bool, true, false, ◌&&◌, ◌||◌, Option, none, some, List, [], ◌∷◌, ltb,
  if◌then◌else◌, length, if_cases,
}
use iml.Common.Int.{pos}
use iml.Common.Texts.{text_lt, text_eq}
use iml.ReplicaSet.Functions.{NetworkFunction, running, pending, ready, condition_true}
use iml.ReplicaSet.Replicas.{to_delete}
use iml.ReplicaSet.Order.{Ranked, less, get_nfs_to_delete}
use iml.ReplicaSet.Order.Less.{first_keys}
use iml.ReplicaSet.Order.Chosen.{Surplus, get_nfs_to_delete-Surplus}

-- The logarithm, from 256 to 1023.
abbrev log2 : ℕ → ℕ
log2 d = if ltb d 512 then 8 else 9

abbrev function : ℕ → ℕ → ℕ → NetworkFunction
function uid created since = record {
  uid = uid ∷ [];
  target_name = 116 ∷ [];
  created = created;
  deleting = false;
  phase = running;
  conditions = record { kind = ready; status = condition_true; last_transition = since } ∷ [];
}

abbrev first : Ranked
first = record { nf = function 1 400 500; rank = 3 }

abbrev second : Ranked
second = record { nf = function 2 590 600; rank = 3 }

abbrev third : Ranked
third = record { nf = function 0 1 600; rank = 3 }

program : Unit {0}
unfolding less get_nfs_to_delete to_delete
program = tt

-- The order is not transitive.
circle :
    (less log2 1000 first second ≡ true)
    × (less log2 1000 second third ≡ true)
    × (less log2 1000 third first ≡ true)
unfolding program iml.Common.Int.◌-ℤ◌
circle = (refl, refl, refl)

first_runs : less log2 1000 first second ≡ true
unfolding program iml.Common.Int.◌-ℤ◌
first_runs = refl

-- Not yet on a target, and not ready.
abbrev waiting : Ranked
waiting = record {
  nf = record {
    uid = 7 ∷ [];
    target_name = [];
    created = 900;
    deleting = false;
    phase = pending;
    conditions = [];
  };
  rank = 0;
}

waiting_runs :
    (text_lt (first_keys waiting.nf) (first_keys first.nf)
      || text_eq (first_keys waiting.nf) (first_keys first.nf) && ltb first.rank waiting.rank)
    ≡ true
unfolding iml.ReplicaSet.Functions.is_nf_ready
waiting_runs = refl

-- An insertion sort.
unfoldable insert : (Ranked → Ranked → Bool) → Ranked → List Ranked → List Ranked
insert f x [] = x ∷ []
insert f x (y ∷ ys) = let rest = insert f x ys in if f y x then y ∷ rest else x ∷ y ∷ ys

unfoldable sort : (Ranked → Ranked → Bool) → List Ranked → List Ranked
unfolding insert
sort f [] = []
sort f (x ∷ xs) = insert f x (sort f xs)

insert-Permᴰ :
    (f : Ranked → Ranked → Bool) (x : Ranked) (ys : List Ranked) → Permᴰ (insert f x ys) (x ∷ ys)
unfolding insert
insert-Permᴰ f x [] = Permᴰ.refl (x ∷ [])
insert-Permᴰ f x (y ∷ ys) =
    if_cases (λ (zs : List Ranked). Permᴰ zs (x ∷ y ∷ ys)) (f y x)
      (λ e. trans (cons refl (insert-Permᴰ f x ys)) (swap refl refl)) (λ e. Permᴰ.refl (x ∷ y ∷ ys))

sort-Permᴰ : (f : Ranked → Ranked → Bool) (xs : List Ranked) → Permᴰ (sort f xs) xs
unfolding sort
sort-Permᴰ f [] = nil
sort-Permᴰ f (x ∷ xs) = trans (insert-Permᴰ f x (sort f xs)) (cons refl (sort-Permᴰ f xs))

abbrev nfs : List NetworkFunction
nfs = first.nf ∷ waiting.nf ∷ []

waiting_deleted : get_nfs_to_delete sort log2 1000 nfs nfs 1 ≡ some (waiting.nf ∷ [])
unfolding program sort
waiting_deleted = refl

get_nfs_to_delete_example :
    (chosen : List NetworkFunction) × (rest : List NetworkFunction) × (get_nfs_to_delete sort log2
        1000 nfs nfs
        (to_delete (length nfs) (pos 1))
      ≡ some chosen)
    × Surplus nfs chosen rest 1
get_nfs_to_delete_example = get_nfs_to_delete-Surplus sort sort-Permᴰ log2 1000 nfs nfs 1
