-- ===== src/Deployment/Fenceposts/Surge.antt =====
-- nf_util.go: the fenceposts of a rolling update, and how far the new replica set is scaled up.
use iml.Common.{
  ◌+◌, ◌≤◌, ◌<◌, ◌^◌, ◌≡◌, refl, List, false, if◌then◌else◌, Option, some, arith, Bool-cases, inl,
  inr, ◌⊎◌, ◌∙◌,
}
use iml.Common.Int.{ℤ, pos, pos_part, add32, sub32, min_ℤ, leb_ℤ, eqb_ℤ}
use iml.Deployment.Objects.{ReplicaSet, replica_count}
use iml.Deployment.Fenceposts.{
  IntOrStrings, Deployment, rolling_update, max_unavailable, max_surge, new_rs_new_replicas,
}
use iml.Deployment.Scaling.Requests.{IsCount, IsCount-sub32, IsCount-add32}

scale_up :
    (a b : ℤ)
    → IsCount a
    → IsCount b
    → IsCount (min_ℤ a b)
      × ((pos_part (min_ℤ a b) ≤ pos_part a) × (pos_part (min_ℤ a b) ≤ pos_part b))
scale_up a b ha hb = ground arith

module _ (I : IntOrStrings) (d : Deployment I) where
  open I use {Value}

  -- For a rolling update of a deployment that wants replicas, MaxUnavailable is MaxSurge, whatever
  -- the strategy's own limit on unavailable replicas.
  pub max_unavailable-max_surge :
      (s u : Option Value)
      → d.strategy ≡ rolling_update s u
      → eqb_ℤ d.replicas (pos 0) ≡ false
      → max_unavailable I d ≡ max_surge I d
  unfolding max_unavailable max_surge
  max_unavailable-max_surge s u h n = rw (h, n)

  by_strategy :
      (s u : Option Value) (all_rss : List ReplicaSet) (rs : ReplicaSet)
      → d.strategy ≡ rolling_update s u
      → new_rs_new_replicas I d all_rss rs ≡ (
          let max_total = add32 d.replicas (max_surge I d) in
          if leb_ℤ max_total (replica_count all_rss)
          then some rs.replicas
          else some (
              add32 rs.replicas
                (min_ℤ (sub32 max_total (replica_count all_rss)) (sub32 d.replicas rs.replicas))))
  unfolding new_rs_new_replicas
  by_strategy s u all_rss rs h = rw h

  -- In a rolling update of counts that fit in an int32, the new scale of a replica set that is not
  -- above the deployment's replicas is between its present scale and the deployment's replicas, and
  -- if it is a larger one, all replica sets together stay within the replicas plus MaxSurge.
  pub new_rs_new_replicas_bounds :
      (s u : Option Value) (all_rss : List ReplicaSet) (rs : ReplicaSet)
      → d.strategy ≡ rolling_update s u
      → IsCount d.replicas
      → IsCount (max_surge I d)
      → IsCount rs.replicas
      → IsCount (replica_count all_rss)
      → pos_part d.replicas + pos_part (max_surge I d) < 2 ^ 31
      → pos_part rs.replicas ≤ pos_part d.replicas
      → (n : ℤ) × (new_rs_new_replicas I d all_rss rs ≡ some n)
        × IsCount n
        × (pos_part rs.replicas ≤ pos_part n)
        × (pos_part n ≤ pos_part d.replicas)
        × (pos_part n ≡ pos_part rs.replicas
            ⊎ pos_part (replica_count all_rss) + pos_part n
              ≤ pos_part d.replicas + pos_part (max_surge I d) + pos_part rs.replicas)
  new_rs_new_replicas_bounds s u all_rss rs h hd hs hr ht fits le =
      let room = sub32 (add32 d.replicas (max_surge I d)) (replica_count all_rss) in
      let missing = sub32 d.replicas rs.replicas in
      let (sum, hsum) = IsCount-add32 d.replicas (max_surge I d) hd hs fits in
      let r = IsCount-sub32 (add32 d.replicas (max_surge I d)) (replica_count all_rss) hsum ht in
      let m = IsCount-sub32 d.replicas rs.replicas hd hr in
      elim (Bool-cases (leb_ℤ (add32 d.replicas (max_surge I d)) (replica_count all_rss))) [
        | inl e ↦ (rs.replicas, by_strategy s u all_rss rs h ∙ rw e, hr, omega arith, le, inl refl)
        | inr e ↦
            let (cm, ub) = scale_up room missing (ground (arith, r)) (ground (arith, m)) in
            let (g, hg) =
              IsCount-add32 rs.replicas (min_ℤ room missing) hr cm (omega (arith, ub, m)) in
            (
              add32 rs.replicas (min_ℤ room missing),
              by_strategy s u all_rss rs h ∙ rw e,
              hg,
              omega (arith, g),
              omega (arith, g, ub, m),
              inr (ground (arith, g, ub, r)),
            )
      ]
