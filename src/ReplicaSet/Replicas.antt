-- ===== src/ReplicaSet/Replicas.antt =====
-- replicas.go: the two branches of `manageReplicas`, after the number of network functions is
-- compared with the replicas wanted. The answers of the API server to the creations, in the order in
-- which they finish, and to the deletions are parameters; the network functions to delete are given
-- by their keys.
pub mod Creations
pub mod Deletions
use iml.Common.{ℕ, zero, suc, ◌-◌, Option, none, some, List, [], ◌∷◌, if◌then◌else◌, length}
use Prim.Native.Nat.{min}
use iml.Common.Int.{ℤ, pos, pos_part, neg_part, ◌-ℤ◌}
use iml.Common.Stores.{Stores, Sets}
use iml.ReplicaSet.Expectations.{
  ControlleeExpectations, expect_creations, creation_observed, UidTracking, expect_deletions,
  deletion_observed,
}
use iml.ReplicaSet.SlowStart.{Started, slow_start_batch}

abbrev pub burst_replicas : ℕ
burst_replicas = 500

-- How many network functions to create or to delete.
unfoldable pub to_create : ℕ → ℤ → ℕ
to_create active replicas = min (neg_part (pos active -ℤ replicas)) burst_replicas

unfoldable pub to_delete : ℕ → ℤ → ℕ
to_delete active replicas = min (pos_part (pos active -ℤ replicas)) burst_replicas

pub record Created (Store E : Type 0) : Type 0 where
  pub counts : Store
  pub error : Option E

-- The API server's answers to a creation. `terminating` is the error of a namespace that terminates.
pub data Creation (E : Type 0) : Type 0 where
  created terminating : Creation E
  refused : E → Creation E

-- What the function that is given to `slowStartBatch` returns: the error of a namespace that terminates
-- is no error.
unfoldable pub creation_error : {E : Type 0} → Creation E → Option E
creation_error created = none
creation_error terminating = none
creation_error (refused e) = some e

module _ {K E : Type 0} (S : Stores K ControlleeExpectations) (answers : ℕ → Creation E) where
  -- `CreationObserved` for each creation that was skipped or whose error was returned.
  unfoldable pub observe_creations : ℕ → K → S.Store → S.Store
  observe_creations zero k s = s
  observe_creations (suc n) k s = observe_creations n k (creation_observed S k s)

  -- `none` if the fuel of `slow_start_batch` ran out.
  unfoldable pub create_nfs : ℕ → K → ℕ → S.Store → Option (Created S.Store E)
  unfolding slow_start_batch observe_creations
  create_nfs now k diff s =
      let expected = expect_creations S now k (pos diff) s in
      elim (slow_start_batch (λ i. creation_error (answers i)) diff 1) [
        | none ↦ none
        | some r ↦
            some (record {
              counts = observe_creations (diff - r.successes) k expected;
              error = r.error;
            })
      ]

-- The API server's answers to a deletion.
pub data Deletion (E : Type 0) : Type 0 where
  deleted gone : Deletion E
  failed : E → Deletion E

pub record Deleted (Tracking E : Type 0) : Type 0 where
  pub tracking : Tracking
  pub errors : List E

module _ {K U E : Type 0} (F : Sets U) (S : Stores K ControlleeExpectations) (T : Stores K F.Set)
    (answer : U → Deletion E) where
  -- The goroutines, in the order in which they finish, with the errors that they report, of which
  -- `manageReplicas` returns the first.
  unfoldable pub delete_each : K → List U → UidTracking F S T → Deleted (UidTracking F S T) E
  delete_each k [] t = record { tracking = t; errors = [] }
  delete_each k (u ∷ us) t =
      let rest = delete_each k us t in
      let observed = delete_each k us (deletion_observed F S T k u t) in
      elim (answer u) [
        | deleted ↦ rest
        | gone ↦ observed
        | failed e ↦ record { tracking = observed.tracking; errors = e ∷ observed.errors }
      ]

  unfoldable pub delete_nfs : ℕ → K → List U → UidTracking F S T → Deleted (UidTracking F S T) E
  unfolding delete_each
  delete_nfs now k us t = delete_each k us (expect_deletions F S T now k us t)
