-- ===== src/Deployment/Scaling.antt =====
-- replicas.go, rolling.go and recreate.go: the requests that scale and delete replica sets. The API
-- server is a parameter that answers each request, knowing all earlier ones; the log of the
-- requests, the latest first, is the state. An update is logged with the object it was copied from.
pub mod Requests
pub mod RollingUpdate
pub mod Available
pub mod Recreate
pub mod Cleanup
use iml.Common.{
  ℕ, Bool, true, false, not, ◌&&◌, ◌||◌, if◌then◌else◌, Option, none, some, List, [], ◌∷◌, ◌++◌,
}
use iml.Common.Int.{ℤ, pos, add32, sub32, min_ℤ, leb_ℤ, ltb_ℤ, eqb_ℤ}
use iml.Deployment.Objects.{
  ReplicaSet, replica_count, available_replica_count, actual_replica_count, filter_alive,
  created_before, revision_before, Sort, sort_by,
}
use iml.Deployment.Fenceposts.{
  IntOrStrings, Deployment, max_unavailable, max_surge, new_rs_new_replicas, deployment_complete,
}

pub data Request : Type 0 where
  update_rs : ReplicaSet → ReplicaSet → Request
  delete_rs : ReplicaSet → Request

pub data Answer : Type 0 where
  done not_found : Answer
  failed : ℕ → Answer

pub data Error : Type 0 where
  api_error : ℕ → Error
  api_not_found invalid_scale unsupported_strategy : Error

abbrev pub Log : Type 0
Log = List Request

abbrev pub Api : Type 0
Api = Log → Request → Answer

abbrev pub error_of : Answer → Option Error
error_of done = none
error_of not_found = some api_not_found
error_of (failed n) = some (api_error n)

abbrev pub note_is : Option ℤ → ℤ → Bool
note_is none n = false
note_is (some m) n = eqb_ℤ m n

unfoldable pub annotations_need_update : ReplicaSet → ℤ → ℤ → Bool
annotations_need_update rs desired max =
    not (note_is rs.desired_note desired) || not (note_is rs.max_note max)

-- What `DeepCopy`, the new scale and `SetReplicasAnnotations` make of a replica set.
unfoldable pub scaled_copy : ReplicaSet → ℤ → ℤ → ℤ → ReplicaSet
scaled_copy rs new_scale desired max = record rs {
  replicas = new_scale;
  desired_note = some desired;
  max_note = some max;
}

pub record Scaled : Type 0 where
  pub log : Log
  pub scaled : Bool
  pub updated : ReplicaSet
  pub error : Option Error

pub record Count : Type 0 where
  pub log : Log
  pub count : ℤ
  pub error : Option Error

pub record Step : Type 0 where
  pub log : Log
  pub scaled : Bool
  pub error : Option Error

abbrev pub is_cleanable : ReplicaSet → Bool
is_cleanable rs =
    eqb_ℤ rs.status_replicas (pos 0)
    && eqb_ℤ rs.replicas (pos 0)
    && leb_ℤ rs.generation rs.observed_generation
    && not rs.deleting

module _ (I : IntOrStrings) (api : Api) (d : Deployment I) where
  -- `scaleReplicaSet`: `scaled` is never set.
  unfoldable pub scale_replica_set : Log → ReplicaSet → ℤ → Bool → Scaled
  unfolding annotations_need_update scaled_copy
  scale_replica_set log rs new_scale force_update =
      let max = add32 d.replicas (max_surge I d) in
      let request = update_rs rs (scaled_copy rs new_scale d.replicas max) in
      if not force_update && eqb_ℤ rs.replicas new_scale
      then record { log = log; scaled = false; updated = rs; error = none }
      else if not (eqb_ℤ rs.replicas new_scale) || annotations_need_update rs d.replicas max
      then record {
        log = request ∷ log;
        scaled = false;
        updated = rs;
        error = error_of (api log request);
      }
      else record { log = log; scaled = false; updated = rs; error = none }

  -- The loop of `cleanupUnhealthyReplicas`.
  unfoldable pub cleanup_loop : ℤ → Log → ℤ → List ReplicaSet → Count
  cleanup_loop limit log total [] = record { log = log; count = total; error = none }
  cleanup_loop limit log total (rs ∷ rss) =
      let skipped = cleanup_loop limit log total rss in
      let down = min_ℤ (sub32 limit total) (sub32 rs.replicas rs.available_replicas) in
      let new = sub32 rs.replicas down in
      let s = scale_replica_set log rs new false in
      let more = cleanup_loop limit s.log (add32 total down) rss in
      if leb_ℤ limit total
      then record { log = log; count = total; error = none }
      else if eqb_ℤ rs.replicas (pos 0)
      then skipped
      else if eqb_ℤ rs.replicas rs.available_replicas
      then skipped
      else if ltb_ℤ rs.replicas new
      then record { log = log; count = pos 0; error = some invalid_scale }
      else elim s.error [
        | some e ↦ record { log = s.log; count = total; error = some e }
        | none ↦ more
      ]

  unfoldable pub cleanup_unhealthy : Log → List ReplicaSet → ℤ → Count
  unfolding cleanup_loop
  cleanup_unhealthy log old_rss limit =
      cleanup_loop limit log (pos 0) (sort_by created_before old_rss)

  -- The loop of `scaleDownOldReplicaSetsForRollingUpdate`.
  unfoldable pub down_loop : ℤ → Log → ℤ → List ReplicaSet → Count
  down_loop limit log total [] = record { log = log; count = total; error = none }
  down_loop limit log total (rs ∷ rss) =
      let skipped = down_loop limit log total rss in
      let down = min_ℤ rs.replicas (sub32 limit total) in
      let new = sub32 rs.replicas down in
      let s = scale_replica_set log rs new false in
      let more = down_loop limit s.log (add32 total down) rss in
      if leb_ℤ limit total
      then record { log = log; count = total; error = none }
      else if eqb_ℤ rs.replicas (pos 0)
      then skipped
      else if ltb_ℤ rs.replicas new
      then record { log = log; count = pos 0; error = some invalid_scale }
      else elim s.error [
        | some e ↦ record { log = s.log; count = total; error = some e }
        | none ↦ more
      ]

  unfoldable pub scale_down_old : Log → List ReplicaSet → List ReplicaSet → Count
  unfolding down_loop
  scale_down_old log all_rss old_rss =
      let min_available = sub32 d.replicas (max_unavailable I d) in
      let available = available_replica_count all_rss in
      if leb_ℤ available min_available
      then record { log = log; count = pos 0; error = none }
      else down_loop (sub32 available min_available) log (pos 0) (sort_by created_before old_rss)

  -- The error on an unsupported strategy comes before any request.
  unfoldable pub reconcile_new : Log → List ReplicaSet → ReplicaSet → Step
  unfolding scale_replica_set
  reconcile_new log all_rss current =
      if eqb_ℤ current.replicas d.replicas
      then record { log = log; scaled = false; error = none }
      else if ltb_ℤ d.replicas current.replicas
      then (let s = scale_replica_set log current d.replicas false in
          record { log = s.log; scaled = s.scaled; error = s.error })
      else elim (new_rs_new_replicas I d all_rss current) [
        | none ↦ record { log = log; scaled = false; error = some unsupported_strategy }
        | some n ↦
            let s = scale_replica_set log current n false in
            record { log = s.log; scaled = s.scaled; error = s.error }
      ]

  -- `reconcileOldReplicaSets` drops the errors of its two loops. The replica sets that it scales
  -- down after the clean-up are the ones read before it, sorted.
  unfoldable pub reconcile_old : Log → List ReplicaSet → List ReplicaSet → ReplicaSet → Step
  unfolding cleanup_unhealthy scale_down_old
  reconcile_old log all_rss old_rss current =
      let min_available = sub32 d.replicas (max_unavailable I d) in
      let new_unavailable = sub32 current.replicas current.available_replicas in
      let max_down = sub32 (sub32 (replica_count all_rss) min_available) new_unavailable in
      let sorted = sort_by created_before old_rss in
      let c = cleanup_unhealthy log old_rss max_down in
      let s = scale_down_old c.log (sorted ++ current ∷ []) sorted in
      if eqb_ℤ (replica_count old_rss) (pos 0)
      then record { log = log; scaled = false; error = none }
      else if leb_ℤ max_down (pos 0)
      then record { log = log; scaled = false; error = none }
      else elim c.error [
        | some e ↦ record { log = c.log; scaled = false; error = none }
        | none ↦ elim s.error [
          | some e ↦ record { log = s.log; scaled = false; error = none }
          | none ↦ record {
            log = s.log;
            scaled = ltb_ℤ (pos 0) (add32 c.count s.count);
            error = none;
          }
        ]
      ]

  -- The loop of `cleanupOldReplicaSets`: a missing object is no error.
  unfoldable pub delete_loop : Log → List ReplicaSet → Step
  delete_loop log [] = record { log = log; scaled = false; error = none }
  delete_loop log (rs ∷ rss) =
      let skipped = delete_loop log rss in
      let more = delete_loop (delete_rs rs ∷ log) rss in
      if not (is_cleanable rs) then skipped else elim (api log (delete_rs rs)) [
        | failed n ↦ record { log = delete_rs rs ∷ log; scaled = false; error = some (api_error n) }
        | _ ↦ more
      ]

  -- `revision_before` is no order where revisions are malformed, so that the sort is an argument.
  unfoldable pub cleanup_old : Sort → Log → List ReplicaSet → Step
  unfolding delete_loop
  cleanup_old sort log old_rss = delete_loop log (sort revision_before (filter_alive old_rss))

  -- A step, and what follows unless it failed or scaled.
  abbrev pub then_unless : Step → Step → Step
  then_unless s more = elim s.error [ some e ↦ s | none ↦ if s.scaled then s else more ]

  unfoldable pub apply_rolling_update :
      Sort → Log → List ReplicaSet → List ReplicaSet → ReplicaSet → Step
  unfolding reconcile_new reconcile_old cleanup_old
  apply_rolling_update sort log all_rss old_rss current =
      let up = reconcile_new log all_rss current in
      let down = reconcile_old up.log all_rss old_rss current in
      then_unless up (
        then_unless down (
          if deployment_complete I d
          then cleanup_old sort down.log old_rss
          else record { log = down.log; scaled = false; error = none }))

  -- `scaleDownOldReplicaSetsForRecreate`, with the result so far.
  unfoldable pub recreate_loop : Log → Bool → List ReplicaSet → Step
  recreate_loop log scaled [] = record { log = log; scaled = scaled; error = none }
  recreate_loop log scaled (rs ∷ rss) =
      let s = scale_replica_set log rs (pos 0) false in
      let skipped = recreate_loop log scaled rss in
      let more = recreate_loop s.log (s.scaled || scaled) rss in
      if eqb_ℤ rs.replicas (pos 0) then skipped else elim s.error [
        | some e ↦ record { log = s.log; scaled = false; error = some e }
        | none ↦ more
      ]

  unfoldable pub old_pods_running : List ReplicaSet → Bool
  old_pods_running old_rss = ltb_ℤ (pos 0) (actual_replica_count old_rss)

  unfoldable pub apply_recreate : Sort → Log → List ReplicaSet → ReplicaSet → Step
  unfolding recreate_loop old_pods_running scale_replica_set cleanup_old
  apply_recreate sort log old_rss current =
      let down = recreate_loop log false old_rss in
      let s = scale_replica_set down.log current d.replicas false in
      let up : Step = record { log = s.log; scaled = s.scaled; error = s.error } in
      then_unless down (
        if old_pods_running old_rss
        then record { log = down.log; scaled = false; error = none }
        else then_unless up (
            if deployment_complete I d
            then cleanup_old sort up.log old_rss
            else record { log = up.log; scaled = false; error = none }))
