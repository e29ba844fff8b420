-- ===== src/ReplicaSet/Status/Tests.antt =====
-- A replica set whose creations have failed, and then work again.
use iml.Common.{ℕ, zero, suc, ◌≡◌, refl, true, Option, none, some, [], ◌∷◌}
use iml.Common.Int.{pos}
use iml.Common.Results.{Result, ok}
use iml.Conditions.{get_condition}
use iml.ReplicaSet.Status.{
  Words, ReplicaSet, calculate_status, failure_condition, update_replica_set_status,
}
use iml.ReplicaSet.Status.Failure.{is_some, calculate_status-failure}

abbrev words : Words
words = record {
  replica_failure = 82 ∷ 70 ∷ [];
  condition_true = 84 ∷ [];
  failed_create = 67 ∷ [];
  failed_delete = 68 ∷ [];
}

abbrev before : ReplicaSet
before = record {
  generation = 4;
  wanted = pos 2;
  min_ready_seconds = pos 0;
  status = record {
    replicas = pos 0;
    fully_labeled_replicas = pos 0;
    ready_replicas = pos 0;
    available_replicas = pos 0;
    observed_generation = 3;
    conditions = [];
  };
}

failure_recorded :
    (calculate_status words (λ nf. true) before [] (some (33 ∷ [])) 5).conditions
    ≡ failure_condition words 5 (67 ∷ []) (33 ∷ []) ∷ []
unfolding calculate_status
failure_recorded = refl

calculate_status-failure_example :
    is_some (
      get_condition
        (calculate_status words (λ nf. true) before [] (some (33 ∷ [])) 5).conditions
        (82 ∷ 70 ∷ []))
    ≡ true
calculate_status-failure_example =
    calculate_status-failure words (λ nf. true) before [] (some (33 ∷ [])) 5

abbrev conflict_once : ReplicaSet → ℕ → Option ℕ
conflict_once rs zero = some 409
conflict_once rs (suc i) = none

abbrev refetched : ℕ → Result ℕ ReplicaSet
refetched i = ok (record before { generation = 5 })

-- A conflict is tried again once, with the generation that was acted on.
written_twice :
    (update_replica_set_status conflict_once refetched before before.status).result
    ≡ ok (record before {
      generation = 5;
      status = record before.status { observed_generation = 4 };
    })
unfolding update_replica_set_status
written_twice = refl
