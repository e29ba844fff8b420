-- ===== src/Deployment/Tests.antt =====
-- Runs of the deployment controller on a deployment of four replicas with an old replica set of
-- three and a new one of one.
use iml.Common.{
  ℕ, ◌+◌, ◌≤◌, ◌≡◌, refl, Bool, true, false, Option, none, some, List, [], ◌∷◌, ◌⊎◌, arith, ◌^◌,
  ◌<◌,
}
use Prim.Native.Nat.{min}
use mathlib.Core.List.{Memᴰ}
use mathlib.Core.List.Memᴰ.{head, tail}
use iml.Common.Int.{ℤ, pos, pos_part, eqb_ℤ, add32}
use iml.Deployment.Objects.{
  ReplicaSet, revision, available_replica_count, replica_count, insert_by, sort_by, created_before,
  filter_alive, revision_before,
}
use iml.Deployment.Fenceposts.{
  IntOrStrings, Strategy, rolling_update, recreate, Deployment, max_unavailable, max_surge,
  new_rs_new_replicas, resolve_fenceposts,
}
use iml.Deployment.Fenceposts.Surge.{new_rs_new_replicas_bounds}
use iml.Deployment.Scaling.{
  Api, delete_rs, done, scale_down_old, down_loop, scale_replica_set, cleanup_old,
}
use iml.Deployment.Scaling.Requests.{IsCount, taken, Shrinks}
use iml.Deployment.Scaling.RollingUpdate.{sum_replicas}
use iml.Deployment.Scaling.Available.{spare, scale_down_old_bounded, scale_down_old_exact}
use iml.Deployment.Scaling.Cleanup.{
  mem-sort_by, mem_of_sort_by, Deletes, cleanup_old-Deletes, cleanup_old_all,
}

-- Values that are integers, never percentages.
abbrev integers : IntOrStrings
integers = record { Value = ℤ; from_zero = pos 0; scaled_value = λ v total up. some v }

abbrev accepting : Api
accepting log r = done

abbrev rs_of : ℕ → ℕ → ReplicaSet
rs_of name n = record {
  name = name ∷ [];
  uid = name ∷ [];
  spec_hash = name ∷ [];
  created = name;
  deleting = false;
  generation = pos 1;
  replicas = pos n;
  desired_note = some (pos 4);
  max_note = some (pos 6);
  revision_note = revision (pos name);
  status_replicas = pos n;
  ready_replicas = pos n;
  available_replicas = pos n;
  observed_generation = pos 1;
}

abbrev four : Strategy integers → Deployment integers
four s = record {
  replicas = pos 4;
  strategy = s;
  generation = pos 1;
  status_replicas = pos 4;
  updated_replicas = pos 1;
  available_replicas = pos 4;
  observed_generation = pos 1;
}

-- Surge 2, unavailable 1.
abbrev rolling : Deployment integers
rolling = four (rolling_update (some (pos 2)) (some (pos 1)))

abbrev recreating : Deployment integers
recreating = four recreate

abbrev old_rs : ReplicaSet
old_rs = rs_of 1 3

abbrev new_rs : ReplicaSet
new_rs = rs_of 2 1

abbrev empty_rs : ReplicaSet
empty_rs = rs_of 0 0

abbrev all_rss : List ReplicaSet
all_rss = old_rs ∷ new_rs ∷ []

abbrev old_rss : List ReplicaSet
old_rss = old_rs ∷ []

unavailable_run : max_unavailable integers rolling ≡ pos 2
unfolding max_unavailable resolve_fenceposts iml.Common.Int.i32
unavailable_run = refl

surge_run : max_surge integers rolling ≡ pos 2
unfolding max_surge resolve_fenceposts iml.Common.Int.i32
surge_run = refl

available_run : available_replica_count all_rss ≡ pos 4
unfolding available_replica_count add32 iml.Common.Int.i32 iml.Common.Int.◌+ℤ◌
available_run = refl

count_run : replica_count all_rss ≡ pos 4
unfolding replica_count add32 iml.Common.Int.i32 iml.Common.Int.◌+ℤ◌
count_run = refl

IsCount-unavailable : IsCount (max_unavailable integers rolling)
IsCount-unavailable = rw unavailable_run (refl, omega arith)

IsCount-surge : IsCount (max_surge integers rolling)
IsCount-surge = rw surge_run (refl, omega arith)

IsCount-available : IsCount (available_replica_count all_rss)
IsCount-available = rw available_run (refl, omega arith)

counts_fit : IsCount (replica_count all_rss)
counts_fit = rw count_run (refl, omega arith)

available_fits :
    pos_part (available_replica_count all_rss) + pos_part (max_unavailable integers rolling)
    < 2 ^ 31
available_fits = rw (available_run, unavailable_run) (omega arith)

surge_fits : 4 + pos_part (max_surge integers rolling) < 2 ^ 31
surge_fits = rw surge_run (omega arith)

new_rs_new_replicas_bounds_example :
    (n : ℤ) × (new_rs_new_replicas integers rolling all_rss new_rs ≡ some n)
    × IsCount n
    × (1 ≤ pos_part n)
    × (pos_part n ≤ 4)
    × (pos_part n ≡ 1
        ⊎ pos_part (replica_count all_rss) + pos_part n
          ≤ 4 + pos_part (max_surge integers rolling) + 1)
new_rs_new_replicas_bounds_example =
    new_rs_new_replicas_bounds integers rolling (some (pos 2)) (some (pos 1)) all_rss new_rs refl
      (refl, omega arith) IsCount-surge (refl, omega arith) counts_fit surge_fits (omega arith)

scale_down_old_bounded_example :
    let r = scale_down_old integers accepting rolling [] all_rss old_rss in
    Shrinks r.log × (taken r.log ≤ taken [] + spare integers rolling all_rss)
scale_down_old_bounded_example =
    scale_down_old_bounded integers accepting rolling [] all_rss old_rss (refl, omega arith)
      IsCount-unavailable IsCount-available available_fits
      ((refl, omega arith), (refl, omega arith), tt) tt

down_run : (scale_down_old integers accepting rolling [] all_rss old_rss).error ≡ none
unfolding scale_down_old down_loop max_unavailable resolve_fenceposts available_replica_count
    sort_by insert_by created_before scale_replica_set max_surge add32 iml.Common.Int.i32
    iml.Common.Int.◌+ℤ◌ iml.Common.Int.sub32 iml.Common.Int.◌-ℤ◌
down_run = refl

scale_down_old_exact_example :
    taken (scale_down_old integers accepting rolling [] all_rss old_rss).log
    ≡ taken [] + min (spare integers rolling all_rss) (sum_replicas old_rss)
scale_down_old_exact_example =
    scale_down_old_exact integers accepting rolling [] all_rss old_rss (refl, omega arith)
      IsCount-unavailable IsCount-available available_fits
      ((refl, omega arith), (refl, omega arith), tt) tt down_run

-- Two of the three old replicas are taken away.
spare_run : spare integers rolling all_rss ≡ 2
spare_run = rw (available_run, unavailable_run) refl

cleanup_old-Deletes_example :
    Deletes
      (old_rs ∷ empty_rs ∷ [])
      (cleanup_old integers accepting rolling sort_by [] (old_rs ∷ empty_rs ∷ [])).log
cleanup_old-Deletes_example =
    cleanup_old-Deletes integers accepting rolling (old_rs ∷ empty_rs ∷ []) sort_by
      (λ rs rss m. mem_of_sort_by revision_before rss m)

cleanup_run :
    (cleanup_old integers accepting rolling sort_by [] (old_rs ∷ empty_rs ∷ [])).error ≡ none
unfolding cleanup_old filter_alive revision_before sort_by
cleanup_run = refl

cleanup_old_all_example :
    Memᴰ
      (delete_rs empty_rs)
      (cleanup_old integers accepting rolling sort_by [] (old_rs ∷ empty_rs ∷ [])).log
cleanup_old_all_example =
    cleanup_old_all integers accepting rolling (old_rs ∷ empty_rs ∷ []) sort_by
      (λ rs rss m. mem-sort_by revision_before rss m) empty_rs (tail (head refl)) refl cleanup_run
