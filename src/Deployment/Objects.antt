-- ===== src/Deployment/Objects.antt =====
-- The fields of NetworkFunctionReplicaSet and NetworkFunctionDeployment that the controller reads,
-- and the functions of util/nf_util.go over lists of replica sets. Pointers to replica counts are
-- set: the API server fills in their default.
use iml.Common.{ℕ, Bool, not, ◌==◌, ltb, if◌then◌else◌, Option, none, some, List, [], ◌∷◌}
use iml.Common.Texts.{Text, text_lt}
use iml.Common.Int.{ℤ, pos, add32, ltb_ℤ, eqb_ℤ}

-- The revision annotation: missing, an int64, or a text that strconv.ParseInt refuses.
pub data RevisionNote : Type 0 where
  no_revision : RevisionNote
  revision : ℤ → RevisionNote
  malformed : RevisionNote

-- The two replica annotations are the numbers that they print, or `none` if they are missing or
-- print no int32. `deleting` is `DeletionTimestamp != nil`, `created` an instant.
pub record ReplicaSet : Type 0 where
  pub name : Text
  pub uid : Text
  pub spec_hash : Text
  pub created : ℕ
  pub deleting : Bool
  pub generation : ℤ
  pub replicas : ℤ
  pub desired_note : Option ℤ
  pub max_note : Option ℤ
  pub revision_note : RevisionNote
  pub status_replicas : ℤ
  pub ready_replicas : ℤ
  pub available_replicas : ℤ
  pub observed_generation : ℤ

unfoldable pub available_replica_count : List ReplicaSet → ℤ
available_replica_count [] = pos 0
available_replica_count (rs ∷ rss) = add32 (available_replica_count rss) rs.available_replicas

unfoldable pub replica_count : List ReplicaSet → ℤ
replica_count [] = pos 0
replica_count (rs ∷ rss) = add32 (replica_count rss) rs.replicas

unfoldable pub actual_replica_count : List ReplicaSet → ℤ
actual_replica_count [] = pos 0
actual_replica_count (rs ∷ rss) = add32 (actual_replica_count rss) rs.status_replicas

unfoldable pub ready_replica_count : List ReplicaSet → ℤ
ready_replica_count [] = pos 0
ready_replica_count (rs ∷ rss) = add32 (ready_replica_count rss) rs.ready_replicas

unfoldable pub filter_replica_sets : (ReplicaSet → Bool) → List ReplicaSet → List ReplicaSet
filter_replica_sets p [] = []
filter_replica_sets p (rs ∷ rss) =
    let rest = filter_replica_sets p rss in if p rs then rs ∷ rest else rest

unfoldable pub filter_active : List ReplicaSet → List ReplicaSet
unfolding filter_replica_sets
filter_active = filter_replica_sets (λ rs. ltb_ℤ (pos 0) rs.replicas)

unfoldable pub filter_alive : List ReplicaSet → List ReplicaSet
unfolding filter_replica_sets
filter_alive = filter_replica_sets (λ rs. not rs.deleting)

-- `ReplicaSetsByCreationTimestamp.Less`.
unfoldable pub created_before : ReplicaSet → ReplicaSet → Bool
created_before a b =
    if a.created == b.created then text_lt a.name b.name else ltb a.created b.created

-- `Revision`: 0 where the annotation is missing, `none` for the error of ParseInt.
abbrev pub revision_of : RevisionNote → Option ℤ
revision_of no_revision = some (pos 0)
revision_of (revision v) = some v
revision_of malformed = none

abbrev pub less_revision : Option ℤ → Option ℤ → Bool → Bool
less_revision (some v) (some w) tie = if eqb_ℤ v w then tie else ltb_ℤ v w
less_revision _ _ tie = tie

-- `ReplicaSetsByRevision.Less`.
unfoldable pub revision_before : ReplicaSet → ReplicaSet → Bool
unfolding created_before
revision_before a b =
    less_revision (revision_of a.revision_note) (revision_of b.revision_note) (created_before a b)

-- `MaxRevision`, with the result so far.
unfoldable pub max_revision : ℤ → List ReplicaSet → ℤ
max_revision m [] = m
max_revision m (rs ∷ rss) =
    max_revision (elim (revision_of rs.revision_note) [ none ↦ m | some v ↦ v ]) rss

-- A sort of replica sets by any order, such as sort.Sort.
abbrev pub Sort : Type 0
Sort = (ReplicaSet → ReplicaSet → Bool) → List ReplicaSet → List ReplicaSet

-- sort.Sort as an insertion sort: any sort gives this list by a total order, as `created_before` is
-- between distinct names.
unfoldable pub insert_by :
    (ReplicaSet → ReplicaSet → Bool) → ReplicaSet → List ReplicaSet → List ReplicaSet
insert_by less a [] = a ∷ []
insert_by less a (b ∷ bs) =
    let rest = insert_by less a bs in if less b a then b ∷ rest else a ∷ b ∷ bs

unfoldable pub sort_by : (ReplicaSet → ReplicaSet → Bool) → List ReplicaSet → List ReplicaSet
unfolding insert_by
sort_by less [] = []
sort_by less (a ∷ as') = insert_by less a (sort_by less as')
