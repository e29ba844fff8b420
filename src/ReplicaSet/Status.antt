-- ===== src/ReplicaSet/Status.antt =====
-- status.go, and the time of the next reconciliation (networkfunctionreplicaset_controller.go). Whether
-- the labels of a network function match those of the template, which k8s.io decides, is a parameter.
pub mod Failure
mod Tests
use iml.Common.{
  ℕ, zero, suc, ◌-◌, Bool, true, false, not, ◌&&◌, ◌==◌, Option, none, some, List, [], ◌∷◌, ltb,
  if◌then◌else◌, length,
}
use iml.Common.Int.{ℤ, pos, ltb_ℤ, eqb_ℤ, i32}
use iml.Common.Results.{Result, ok, err}
use iml.Common.Texts.{Text, text_eq}
use iml.Conditions.{Condition, get_condition, set_condition, filter_conditions}
use iml.ReplicaSet.Functions.{
  NetworkFunction, ready_count, available_count, next_check, find_min_check, seconds, earlier,
}

pub record Status : Type 0 where
  pub replicas : ℤ
  pub fully_labeled_replicas : ℤ
  pub ready_replicas : ℤ
  pub available_replicas : ℤ
  pub observed_generation : ℕ
  pub conditions : List Condition

pub record ReplicaSet : Type 0 where
  pub generation : ℕ
  pub wanted : ℤ
  pub min_ready_seconds : ℤ
  pub status : Status

-- The texts "ReplicaFailure", "True", "FailedCreate" and "FailedDelete" are parameters.
pub record Words : Type 0 where
  pub replica_failure : Text
  pub condition_true : Text
  pub failed_create : Text
  pub failed_delete : Text

unfoldable pub labeled_count : (NetworkFunction → Bool) → List NetworkFunction → ℕ
labeled_count labeled [] = 0
labeled_count labeled (nf ∷ nfs) =
    let rest = labeled_count labeled nfs in if labeled nf then suc rest else rest

module _ (words : Words) where
  -- Why the replicas are not as wanted.
  abbrev pub failure_reason : ℕ → ℤ → Text
  failure_reason active wanted =
      if ltb_ℤ (pos active) wanted
      then words.failed_create
      else if ltb_ℤ wanted (pos active)
      then words.failed_delete
      else []

  -- `NewReplicaSetCondition` for the error of `manageReplicas`, at a time.
  abbrev pub failure_condition : ℕ → Text → Text → Condition
  failure_condition now reason message = record {
    kind = words.replica_failure;
    status = words.condition_true;
    reason = reason;
    message = message;
    last_transition = now;
  }

  -- The conditions, given the text of the error of `manageReplicas`.
  unfoldable pub failure_conditions : ℕ → List Condition → Option Text → Text → List Condition
  unfolding get_condition set_condition filter_conditions
  failure_conditions now cs none reason = elim (get_condition cs words.replica_failure) [
    | none ↦ cs
    | some c ↦ filter_conditions cs words.replica_failure
  ]
  failure_conditions now cs (some message) reason = elim (get_condition cs words.replica_failure) [
    | none ↦ set_condition now cs (failure_condition now reason message)
    | some c ↦ cs
  ]

  unfoldable pub calculate_status :
      (NetworkFunction → Bool) → ReplicaSet → List NetworkFunction → Option Text → ℕ → Status
  unfolding failure_conditions labeled_count ready_count available_count i32
  calculate_status labeled rs nfs error now = record rs.status {
    conditions =
        failure_conditions now rs.status.conditions error (failure_reason (length nfs) rs.wanted);
    replicas = i32 (pos (length nfs));
    fully_labeled_replicas = i32 (pos (labeled_count labeled nfs));
    ready_replicas = i32 (pos (ready_count nfs));
    available_replicas = i32 (pos (available_count rs.min_ready_seconds now nfs));
  }

abbrev pub conditions_equal : List Condition → List Condition → Bool
conditions_equal [] [] = true
conditions_equal [] (d ∷ ds) = false
conditions_equal (c ∷ cs) [] = false
conditions_equal (c ∷ cs) (d ∷ ds) =
    text_eq c.kind d.kind
    && text_eq c.status d.status
    && text_eq c.reason d.reason
    && text_eq c.message d.message
    && c.last_transition == d.last_transition
    && conditions_equal cs ds

-- Nothing is to be written.
unfoldable pub is_steady : ReplicaSet → Status → Bool
is_steady rs s =
    eqb_ℤ rs.status.replicas s.replicas
    && eqb_ℤ rs.status.fully_labeled_replicas s.fully_labeled_replicas
    && eqb_ℤ rs.status.ready_replicas s.ready_replicas
    && eqb_ℤ rs.status.available_replicas s.available_replicas
    && rs.generation == rs.status.observed_generation
    && conditions_equal rs.status.conditions s.conditions

-- What was sent to the API server, the first first, and what is returned.
pub record Updated (E : Type 0) : Type 0 where
  pub sent : List ReplicaSet
  pub result : Result E ReplicaSet

module _ {E : Type 0} (update : ReplicaSet → ℕ → Option E) (get : ℕ → Result E ReplicaSet) where
  abbrev pub after_get : Result E ReplicaSet → (ReplicaSet → Updated E) → Updated E
  after_get (err e) retry = record { sent = []; result = err e }
  after_get (ok rs) retry = retry rs

  -- The loop, with the number of the attempt and of the retries that are left.
  unfoldable pub update_loop : ℕ → ℕ → Status → ReplicaSet → Updated E
  update_loop i zero new rs =
      let written = record rs { status = new } in
      elim (update written i) [
        | none ↦ record { sent = written ∷ []; result = ok written }
        | some e ↦ record { sent = written ∷ []; result = err e }
      ]
  update_loop i (suc retries) new rs =
      let written = record rs { status = new } in
      let rest = after_get (get i) (update_loop (suc i) retries new) in
      elim (update written i) [
        | none ↦ record { sent = written ∷ []; result = ok written }
        | some e ↦ record rest { sent = written ∷ rest.sent }
      ]

  unfoldable pub update_replica_set_status : ReplicaSet → Status → Updated E
  unfolding update_loop is_steady
  update_replica_set_status rs new =
      if is_steady rs new
      then record { sent = []; result = ok rs }
      else update_loop 0 1 (record new { observed_generation = rs.generation }) rs
