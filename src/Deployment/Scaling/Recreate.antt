-- ===== src/Deployment/Scaling/Recreate.antt =====
-- recreate.go: the order in which a recreating deployment replaces its replica sets.
use iml.Common.{◌++◌, ℕ, ◌+◌, ◌≡◌, true, List, [], ◌∷◌}
use iml.Common.Int.{pos, pos_part, eqb_ℤ}
use iml.Deployment.Objects.{ReplicaSet}
use iml.Deployment.Fenceposts.{IntOrStrings, Deployment}
use iml.Deployment.Scaling.{update_rs, delete_rs, Log, Api}
use iml.Deployment.Scaling.Requests.{IsCount}
use mathlib.Core.List.{Memᴰ}

-- A log of requests that only scale replica sets to zero.
abbrev pub ToZero : Log → Type 0
ToZero [] = Unit {0}
ToZero (update_rs rs copy ∷ log) = (copy.replicas ≡ pos 0) × ToZero log
ToZero (delete_rs rs ∷ log) = ⊥

-- The numbers of network functions that the replica sets of a list report, and their sum.
abbrev pub Reported : List ReplicaSet → Type 0
Reported [] = Unit {0}
Reported (rs ∷ rss) = IsCount rs.status_replicas × Reported rss

abbrev pub reported : List ReplicaSet → ℕ
reported [] = 0
reported (rs ∷ rss) = pos_part rs.status_replicas + reported rss

module _ (I : IntOrStrings) (api : Api) (d : Deployment I) where
  -- No replica set of an old version has network functions, or is to have any.
  abbrev pub AllGone : List ReplicaSet → Type 0
  AllGone [] = Unit {0}
  AllGone (rs ∷ rss) =
      (eqb_ℤ rs.replicas (pos 0) ≡ true) × (rs.status_replicas ≡ pos 0) × AllGone rss

  -- The requests of a log come after those of another.
  abbrev Adds : Log → Log → Type 0
  Adds log after = (more : Log) × (after ≡ more ++ log)
