-- ===== src/ReplicaSet/SlowStart.antt =====
-- replicas.go: `slowStartBatch`. The calls of the function are numbered in the order in which they
-- finish, and `answers` gives each its error. The loop runs on fuel; counts stay below 2^62, so
-- that a doubled batch size does not overflow.
pub mod Batches
use iml.Common.{
  ℕ, zero, suc, ◌+◌, ◌-◌, ◌*◌, Bool, true, false, Option, none, some, List, [], ◌∷◌, ◌==◌, length,
  if◌then◌else◌,
}
use Prim.Native.Nat.{min}

module _ {E : Type 0} (answers : ℕ → Option E) where
  -- The errors of the calls from `calls` on, in one batch.
  unfoldable pub batch_errors : ℕ → ℕ → List E
  batch_errors calls zero = []
  batch_errors calls (suc n) =
      let rest = batch_errors (suc calls) n in
      elim (answers calls) [ none ↦ rest | some e ↦ e ∷ rest ]

  pub record Started : Type 0 where
    pub calls : ℕ
    pub successes : ℕ
    pub error : Option E

  unfoldable pub slow_loop : ℕ → ℕ → ℕ → ℕ → ℕ → Option Started
  unfolding batch_errors
  slow_loop fuel remaining successes zero calls =
      some (record { calls = calls; successes = successes; error = none })
  slow_loop zero remaining successes (suc b) calls = none
  slow_loop (suc fuel) remaining successes (suc b) calls =
      let size = suc b in
      let errors = batch_errors calls size in
      let left = remaining - size in
      let failures = length errors in
      let more = slow_loop fuel left (successes + size) (min (2 * size) left) (calls + size) in
      elim errors [
        | [] ↦ more
        | e ∷ es ↦ some (record {
          calls = calls + size;
          successes = successes + (size - failures);
          error = some e;
        })
      ]

  unfoldable pub slow_start_batch : ℕ → ℕ → Option Started
  unfolding slow_loop
  slow_start_batch count initial = slow_loop count count 0 (min count initial) 0
