-- ===== src/ReplicaSet/Order/Chosen.antt =====
-- util/rs_util.go: what `GetNFsToDelete` returns. Go's sort.Sort is only relied on to permute its list.
use mathlib.Core.List.{Permᴰ}
use mathlib.Core.List.Permᴰ.{nil, cons, swap, trans}
use mathlib.Core.List.Permᴰ
use iml.Common.{
  ℕ, zero, suc, ◌+◌, ◌≤◌, ◌≡◌, refl, ap, sym, ◌∙◌, subst, Bool, some, List, [], ◌∷◌, ◌++◌, ltb,
  arith, length, ◌⊎◌, if_cases, length-append,
}
use iml.Common.Int.{pos, ◌-ℤ◌, -ℤ_parts, one_sided}
use iml.ReplicaSet.Replicas.{to_delete}
use iml.ReplicaSet.Functions.{NetworkFunction}
use iml.ReplicaSet.Order.{Ranked, less, ranked, unranked, take, first_nfs, get_nfs_to_delete}

unranked-ranked : (related nfs : List NetworkFunction) → unranked (ranked related nfs) ≡ nfs
unfolding ranked
unranked-ranked related [] = refl
unranked-ranked related (nf ∷ nfs) =
    ap (λ (rest : List NetworkFunction). nf ∷ rest) (unranked-ranked related nfs)

length-Permᴰ : {xs ys : List NetworkFunction} → Permᴰ xs ys → length xs ≡ length ys
length-Permᴰ nil = refl
length-Permᴰ (cons e p) = ap suc (length-Permᴰ p)
length-Permᴰ (swap e f) = refl
length-Permᴰ (trans p q) = length-Permᴰ p ∙ length-Permᴰ q

drop : ℕ → List NetworkFunction → List NetworkFunction
drop zero nfs = nfs
drop (suc n) [] = []
drop (suc n) (nf ∷ nfs) = drop n nfs

take-drop : (n : ℕ) (nfs : List NetworkFunction) → take n nfs ++ drop n nfs ≡ nfs
unfolding drop
take-drop zero nfs = refl
take-drop (suc n) [] = refl
take-drop (suc n) (nf ∷ nfs) = ap (λ (rest : List NetworkFunction). nf ∷ rest) (take-drop n nfs)

length-take : (n : ℕ) (nfs : List NetworkFunction) → n ≤ length nfs → length (take n nfs) ≡ n
length-take zero nfs h = refl
length-take (suc n) [] h = absurd (omega (arith, h))
length-take (suc n) (nf ∷ nfs) h = ap suc (length-take n nfs (omega (arith, h)))

-- The surplus of network functions is deleted, or as many of it as a burst allows.
pub record Surplus (nfs chosen rest : List NetworkFunction) (replicas : ℕ) : Type 0 where
  pub number : length chosen ≡ to_delete (length nfs) (pos replicas)
  pub whole : Permᴰ (chosen ++ rest) nfs
  pub enough : (length chosen ≡ 0) ⊎ (replicas ≤ length rest)

to_delete_bound :
    (l n : ℕ)
    → (to_delete l (pos n) ≤ l) × ((to_delete l (pos n) ≡ 0) ⊎ (n + to_delete l (pos n) ≤ l))
unfolding to_delete
to_delete_bound l n = ground (arith, -ℤ_parts (pos l) (pos n), one_sided (pos l -ℤ pos n))

-- The first of a permutation of the network functions, as many as are to be deleted.
abbrev Chosen : List NetworkFunction → ℕ → List NetworkFunction → Type 0
Chosen nfs replicas list =
    (chosen : List NetworkFunction) × (rest : List NetworkFunction) × (first_nfs list
        (to_delete (length nfs) (pos replicas))
      ≡ some chosen)
    × Surplus nfs chosen rest replicas

first_nfs-Chosen :
    (nfs list : List NetworkFunction) (replicas : ℕ) → Permᴰ list nfs → Chosen nfs replicas list
first_nfs-Chosen nfs list replicas p =
    let d = to_delete (length nfs) (pos replicas) in
    let (within, left) = to_delete_bound (length nfs) replicas in
    let same : length list ≡ length nfs = length-Permᴰ p in
    let fits : d ≤ length list = omega (arith, same, within) in
    let number : length (take d list) ≡ d = length-take d list fits in
    let split = take-drop d list in
    let whole = length-append (take d list) (drop d list) in
    (
      take d list,
      drop d list,
      ground (arith, fits),
      record {
        number = number;
        whole = subst (λ (l : List NetworkFunction). Permᴰ l nfs) (sym split) p;
        enough = ground (arith, number, left, same, whole, ap length split);
      },
    )

module _ (sort : (Ranked → Ranked → Bool) → List Ranked → List Ranked)
    (permutes : (f : Ranked → Ranked → Bool) (xs : List Ranked) → Permᴰ (sort f xs) xs)
    (log2 : ℕ → ℕ) (now : ℕ) where
  sorted : List NetworkFunction → List NetworkFunction → List NetworkFunction
  sorted nfs related = unranked (sort (less log2 now) (ranked related nfs))

  sorted-Permᴰ : (nfs related : List NetworkFunction) → Permᴰ (sorted nfs related) nfs
  unfolding sorted
  sorted-Permᴰ nfs related =
      subst (Permᴰ (sorted nfs related)) (unranked-ranked related nfs)
        (Permᴰ.map (λ (x : Ranked). x.nf) (permutes (less log2 now) (ranked related nfs)))

  -- Go's sort.Sort permutes its list. Then `GetNFsToDelete`, asked for as many network functions as
  -- `manageReplicas` wants to delete, does not run out of the list's bounds: it returns that many,
  -- which are some of the active ones, each at most once, and at least the replicas wanted are left.
  pub get_nfs_to_delete-Surplus :
      (nfs related : List NetworkFunction) (replicas : ℕ)
      → (chosen : List NetworkFunction) × (rest : List NetworkFunction) × (get_nfs_to_delete sort
            log2 now nfs related
            (to_delete (length nfs) (pos replicas))
          ≡ some chosen)
        × Surplus nfs chosen rest replicas
  unfolding get_nfs_to_delete sorted
  get_nfs_to_delete-Surplus nfs related replicas =
      let d = to_delete (length nfs) (pos replicas) in
      if_cases (Chosen nfs replicas) (ltb d (length nfs))
        (λ e. first_nfs-Chosen nfs (sorted nfs related) replicas (sorted-Permᴰ nfs related))
        (λ e. first_nfs-Chosen nfs nfs replicas (Permᴰ.refl nfs))
