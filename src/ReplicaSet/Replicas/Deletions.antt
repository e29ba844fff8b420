-- ===== src/ReplicaSet/Replicas/Deletions.antt =====
-- replicas.go: after a round of deletions the controller waits for those that succeeded.
use iml.Common.{
  ℕ, ◌-◌, ◌≤◌, ◌<◌, ◌^◌, ◌≡◌, ◌≢◌, refl, sym, ap, ◌∙◌, true, List, [], ◌∷◌, ◌++◌, ◌↔◌, ◌⊎◌, inl,
  inr,
}
use mathlib.Core.List.{Memᴰ}
use mathlib.Core.List.Memᴰ.{head, tail}
use mathlib.Core.List.Memᴰ
use iml.Common.Stores.{Stores, Sets}
use iml.ReplicaSet.Expectations.{
  ControlleeExpectations, expectations_timeout, UidTracking, satisfied_expectations, new_set,
  expect_deletions, deletion_observed, observe_all,
}
use iml.ReplicaSet.Expectations.Observed.{satisfied_expectations_iff}
use iml.ReplicaSet.Replicas.{Deletion, deleted, gone, failed, delete_each, delete_nfs}

module _ {K U E : Type 0} (F : Sets U) (S : Stores K ControlleeExpectations) (T : Stores K F.Set)
    (answer : U → Deletion E) where
  abbrev pub events_of : K → U → Deletion E → List (K × U)
  events_of k u deleted = []
  events_of k u gone = (k, u) ∷ []
  events_of k u (failed e) = (k, u) ∷ []

  -- The deletions that did not succeed, as events.
  abbrev pub not_deleted : K → List U → List (K × U)
  not_deleted k [] = []
  not_deleted k (u ∷ us) = events_of k u (answer u) ++ not_deleted k us

  Deletion-cases : (a : Deletion E) → (a ≡ deleted) ⊎ ((a ≡ gone) ⊎ ((e : E) × (a ≡ failed e)))
  Deletion-cases deleted = inl refl
  Deletion-cases gone = inr (inl refl)
  Deletion-cases (failed e) = inr (inr (e, refl))

  -- A round of deletions observes those that did not succeed.
  delete_each-observe_all :
      (k : K) (us : List U) (t : UidTracking F S T)
      → (delete_each F S T answer k us t).tracking ≡ observe_all F S T (not_deleted k us) t
  unfolding delete_each observe_all
  delete_each-observe_all k [] t = refl
  delete_each-observe_all k (u ∷ us) t = elim (Deletion-cases (answer u)) [
    | inl e ↦ rw (e, delete_each) (delete_each-observe_all k us t)
    | inr (inl e) ↦
        rw (e, delete_each) (delete_each-observe_all k us (deletion_observed F S T k u t))
    | inr (inr (x, e)) ↦
        rw (e, delete_each) (delete_each-observe_all k us (deletion_observed F S T k u t))
  ]

  observe_all-append :
      (a b : List (K × U)) (t : UidTracking F S T)
      → observe_all F S T (a ++ b) t ≡ observe_all F S T b (observe_all F S T a t)
  unfolding observe_all
  observe_all-append [] b t = refl
  observe_all-append ((k, u) ∷ a) b t = observe_all-append a b (deletion_observed F S T k u t)

  absurd_gone : (a : Deletion E) → a ≡ gone → ¬ (a ≡ deleted)
  absurd_gone a p q = cc

  absurd_failed : (a : Deletion E) (x : E) → a ≡ failed x → ¬ (a ≡ deleted)
  absurd_failed a x p q = cc

  not_deleted_by : (u v : U) → u ≡ v → ¬ (answer v ≡ deleted) → answer u ≢ deleted
  not_deleted_by u v q n d = n (ap answer (sym q) ∙ d)

  shifted :
      (k : K) (us : List U) (u v : U)
      → answer u ≢ deleted
      → Memᴰ u (v ∷ us)
      → (Memᴰ u us → Memᴰ (k, u) (not_deleted k us))
      → Memᴰ (k, u) ((k, v) ∷ not_deleted k us)
  shifted k us u v n (head q) f = head (ap (λ x. (k, x)) q)
  shifted k us u v n (tail m) f = tail (f m)

  mem_of_not_deleted :
      (k : K) (us : List U) (u : U) → Memᴰ (k, u) (not_deleted k us) → answer u ≢ deleted
  mem_of_not_deleted k [] u = λ m. elim m [ ]
  mem_of_not_deleted k (v ∷ us) u = elim (Deletion-cases (answer v)) [
    | inl e ↦ rw (e, events_of) (mem_of_not_deleted k us u)
    | inr (inl e) ↦
        rw (e, events_of)
          (λ m. elim m [
            | head q ↦ not_deleted_by u v (ap (λ p. p.1) q) (absurd_gone (answer v) e)
            | tail m' ↦ mem_of_not_deleted k us u m'
          ])
    | inr (inr (x, e)) ↦
        rw (e, events_of)
          (λ m. elim m [
            | head q ↦ not_deleted_by u v (ap (λ p. p.1) q) (absurd_failed (answer v) x e)
            | tail m' ↦ mem_of_not_deleted k us u m'
          ])
  ]

  mem-not_deleted :
      (k : K) (us : List U) (u : U)
      → answer u ≢ deleted
      → Memᴰ u us
      → Memᴰ (k, u) (not_deleted k us)
  mem-not_deleted k [] u n m = elim m [ ]
  mem-not_deleted k (v ∷ us) u n m = elim (Deletion-cases (answer v)) [
    | inl e ↦
        rw (e, events_of)
          (elim m [ head q ↦ absurd (n (ap answer q ∙ e)) | tail m' ↦ mem-not_deleted k us u n m' ])
    | inr (inl e) ↦ rw (e, events_of) (shifted k us u v n m (mem-not_deleted k us u n))
    | inr (inr (x, e)) ↦ rw (e, events_of) (shifted k us u v n m (mem-not_deleted k us u n))
  ]

  -- Until the timeout, after a round of deletions of `us` the controller is told that its
  -- expectations are satisfied exactly when each key whose deletion the API server accepted has
  -- been observed for it; those that it refused or did not find count as observed.
  pub delete_nfs_satisfied_iff :
      (now at : ℕ) (k : K) (us : List U) (t : UidTracking F S T) (seen : List (K × U))
      → F.len (new_set F S T us) < 2 ^ 63
      → at - now ≤ expectations_timeout
      → (satisfied_expectations S at k
            (observe_all F S T seen (delete_nfs F S T answer now k us t).tracking).counts
          ≡ true)
        ↔ ((u : U) → Memᴰ u us → (answer u ≢ deleted) ⊎ Memᴰ (k, u) seen)
  unfolding delete_nfs
  delete_nfs_satisfied_iff now at k us t seen fits w =
      let start = expect_deletions F S T now k us t in
      let same : observe_all F S T (not_deleted k us ++ seen) start
          ≡ observe_all F S T seen (delete_each F S T answer k us start).tracking =
        observe_all-append (not_deleted k us) seen start
        ∙ ap (observe_all F S T seen) (sym (delete_each-observe_all k us start)) in
      let (f, g) =
        satisfied_expectations_iff F S T now at k us t (not_deleted k us ++ seen) fits w in
      let read = ap (λ x. satisfied_expectations S at k x.counts) same in
      (
        λ ok u m. elim (Memᴰ.append_cases (not_deleted k us) (f (read ∙ ok) u m)) [
          | inl d ↦ inl (mem_of_not_deleted k us u d)
          | inr q ↦ inr q
        ],
        λ all.
            sym read
            ∙ g (λ u m. elim (all u m) [
              | inl n ↦ Memᴰ.append_left seen (mem-not_deleted k us u n m)
              | inr q ↦ Memᴰ.append_right (not_deleted k us) q
            ]),
      )
