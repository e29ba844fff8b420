-- ===== src/ReplicaSet/Replicas/Creations.antt =====
-- replicas.go: what the controller waits for after a round of creations.
use iml.Common.{
  ℕ, zero, suc, ◌+◌, ◌-◌, ◌≤◌, ◌<◌, ◌^◌, ◌≡◌, refl, ◌∙◌, ap, Option, some, arith, if_pos,
}
use iml.Common.Int.{pos, add64, i64, i64_of_pos, add64_pred, ◌-ℤ◌, ◌+ℤ◌}
use iml.Common.Stores.{Stores}
use iml.ReplicaSet.Expectations.{
  ControlleeExpectations, expect_creations, creation_observed, lower_expectations,
}
use iml.ReplicaSet.SlowStart.Batches.{good, good-le, slow_start_batch_lem}
use iml.ReplicaSet.Replicas.{
  Creation, created, terminating, refused, creation_error, Created, observe_creations, create_nfs,
}

module _ {E : Type 0} (answers : ℕ → Creation E) where
  -- How many of the first `n` creations were accepted, and how many met a namespace that terminates.
  abbrev pub accepted : ℕ → ℕ
  accepted zero = 0
  accepted (suc n) = elim (answers n) [
    | created ↦ suc (accepted n)
    | terminating ↦ accepted n
    | refused e ↦ accepted n
  ]

  abbrev pub ignored : ℕ → ℕ
  ignored zero = 0
  ignored (suc n) = elim (answers n) [
    | created ↦ ignored n
    | terminating ↦ suc (ignored n)
    | refused e ↦ ignored n
  ]

  abbrev pub errors : ℕ → Option E
  errors n = creation_error (answers n)

  good-counts : (n : ℕ) → good errors n ≡ accepted n + ignored n
  unfolding creation_error
  good-counts zero = refl
  good-counts (suc n) = let rest = good-counts n in ground (arith, rest)

module _ {K E : Type 0} (S : Stores K ControlleeExpectations) (answers : ℕ → Creation E) where
  abbrev pub waiting : ℕ → ℕ → ControlleeExpectations
  waiting now n = record { add = pos n; del = pos 0; timestamp = now }

  expected :
      (now : ℕ) (k : K) (n : ℕ) (s : S.Store)
      → n < 2 ^ 63
      → S.get k (expect_creations S now k (pos n) s) ≡ some (waiting now n)
  unfolding expect_creations i64
  expected now k n s h =
      S.get-add k _ s k
      ∙ if_pos (S.dec k k) refl _ _
      ∙ ap (λ m. some (record { add = m; del = pos 0; timestamp = now })) (i64_of_pos n h)

  observed_one :
      (now : ℕ) (k : K) (n : ℕ) (s : S.Store)
      → suc n < 2 ^ 63
      → S.get k s ≡ some (waiting now (suc n))
      → S.get k (creation_observed S k s) ≡ some (waiting now n)
  unfolding creation_observed lower_expectations ◌-ℤ◌ ◌+ℤ◌ i64 add64
  observed_one now k n s h e =
      rw (e, creation_observed, lower_expectations)
        (S.get-add k _ s k
          ∙ if_pos (S.dec k k) refl _ _
          ∙ ap (λ m. some (record { add = m; del = pos 0; timestamp = now })) (add64_pred n h))

  observed_many :
      (now : ℕ) (k : K) (n left : ℕ) (s : S.Store)
      → n + left < 2 ^ 63
      → S.get k s ≡ some (waiting now (n + left))
      → S.get k (observe_creations S answers n k s) ≡ some (waiting now left)
  unfolding observe_creations
  observed_many now k zero left s h e = e ∙ ap (λ m. some (waiting now m)) (omega arith)
  observed_many now k (suc n) left s h e =
      observed_many now k n left (creation_observed S k s) (omega arith) (
        observed_one now k (n + left) s (omega arith)
          (e ∙ ap (λ m. some (waiting now m)) (omega arith)))

  -- A round of `diff` creations ends, after at most `diff` calls, and leaves the controller waiting
  -- for as many creations as were accepted, and for those that met a namespace that terminates too.
  pub create_nfs_lem :
      (now : ℕ) (k : K) (diff : ℕ) (s : S.Store)
      → diff < 2 ^ 63
      → (r : Created S.Store E) × (calls : ℕ) × (create_nfs S answers now k diff s ≡ some r)
        × (calls ≤ diff)
        × (S.get k r.counts ≡ some (waiting now (accepted answers calls + ignored answers calls)))
  unfolding create_nfs
  create_nfs_lem now k diff s h =
      let (r, e, within, count, out) = slow_start_batch_lem (errors answers) diff 1 (omega arith) in
      let skip = diff - r.successes in
      let start = expect_creations S now k (pos diff) s in
      let below = good-le (errors answers) r.calls in
      (
        record { counts = observe_creations S answers skip k start; error = r.error },
        r.calls,
        rw (e, create_nfs) refl,
        within,
        observed_many now k skip (good (errors answers) r.calls) start (omega (arith, count, below))
              (expected now k diff s h
                ∙ ap (λ m. some (waiting now m)) (omega (arith, count, below)))
            ∙ ap (λ m. some (waiting now m)) (good-counts answers r.calls),
      )
