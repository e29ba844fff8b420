-- ===== src/Deployment/Scaling/Available.antt =====
-- rolling.go: how many replicas the scaling down of old replica sets takes away.
use iml.Common.{
  ℕ, ◌+◌, ◌-◌, ◌≤◌, ◌<◌, ◌^◌, ◌≡◌, refl, Bool, true, false, none, List, [], ◌∷◌, arith, Bool-cases,
  inl, inr,
}
use Prim.Native.Nat.{min}
use iml.Common.Int.{pos, pos_part, sub32, leb_ℤ, sub32_parts, one_sided}
use iml.Deployment.Objects.{ReplicaSet, available_replica_count, created_before, insert_by, sort_by}
use iml.Deployment.Fenceposts.{IntOrStrings, Deployment, max_unavailable}
use iml.Deployment.Scaling.{Log, Api, scale_down_old}
use iml.Deployment.Scaling.Requests.{IsCount, Counted, taken, Shrinks, IsCount-sub32}
use iml.Deployment.Scaling.RollingUpdate.{sum_replicas, down_loop-Bounded}

module _ (less : ReplicaSet → ReplicaSet → Bool) where
  insert_by-Counted :
      (rs : ReplicaSet) (rss : List ReplicaSet)
      → Counted (rs ∷ rss)
      → Counted (insert_by less rs rss)
  unfolding insert_by
  insert_by-Counted rs [] c = c
  insert_by-Counted rs (b ∷ rss) c = elim (Bool-cases (less b rs)) [
    | inl e ↦ rw e (c.2.0, c.2.1, insert_by-Counted rs rss (c.0, c.1, c.2.2))
    | inr e ↦ rw e c
  ]

  pub sort_by-Counted : (rss : List ReplicaSet) → Counted rss → Counted (sort_by less rss)
  unfolding sort_by
  sort_by-Counted [] c = c
  sort_by-Counted (rs ∷ rss) c =
      insert_by-Counted rs (sort_by less rss) (c.0, c.1, sort_by-Counted rss c.2)

  sum-insert_by :
      (rs : ReplicaSet) (rss : List ReplicaSet)
      → sum_replicas (insert_by less rs rss) ≡ pos_part rs.replicas + sum_replicas rss
  unfolding insert_by
  sum-insert_by rs [] = refl
  sum-insert_by rs (b ∷ rss) = elim (Bool-cases (less b rs)) [
    | inl e ↦ rw e (omega (arith, sum-insert_by rs rss))
    | inr e ↦ rw e
  ]

  pub sum-sort_by : (rss : List ReplicaSet) → sum_replicas (sort_by less rss) ≡ sum_replicas rss
  unfolding sort_by
  sum-sort_by [] = refl
  sum-sort_by (rs ∷ rss) = omega (arith, sum-insert_by rs (sort_by less rss), sum-sort_by rss)

-- The available replicas above the deployment's replicas less MaxUnavailable.
abbrev pub spare : (I : IntOrStrings) → Deployment I → List ReplicaSet → ℕ
spare I d all_rss =
    pos_part (available_replica_count all_rss)
    + pos_part (max_unavailable I d)
    - pos_part d.replicas

module _ (I : IntOrStrings) (api : Api) (d : Deployment I) (log : Log)
    (all_rss old : List ReplicaSet) (hr : IsCount d.replicas) (hm : IsCount (max_unavailable I d))
    (ha : IsCount (available_replica_count all_rss))
    (fits : pos_part (available_replica_count all_rss) + pos_part (max_unavailable I d) < 2 ^ 31)
    (ho : Counted old) (s : Shrinks log) where
  limit-spare :
      let min = sub32 d.replicas (max_unavailable I d) in
      let limit = sub32 (available_replica_count all_rss) min in
      (leb_ℤ (available_replica_count all_rss) min ≡ false
        → IsCount limit × (pos_part limit ≡ spare I d all_rss))
      × (leb_ℤ (available_replica_count all_rss) min ≡ true → spare I d all_rss ≡ 0)
  limit-spare =
      let m = IsCount-sub32 d.replicas (max_unavailable I d) hr hm in
      let l =
        sub32_parts (available_replica_count all_rss) (sub32 d.replicas (max_unavailable I d))
          (omega arith) (omega arith) in
      let o =
        one_sided
          (sub32 (available_replica_count all_rss) (sub32 d.replicas (max_unavailable I d))) in
      (
        λ e. ((ground (arith, m, l, o), ground (arith, m, l, o)), ground (arith, m, l, o)),
        λ e. ground (arith, m, l, o),
      )

  -- Whatever the API server answers, every update that one call of
  -- `scaleDownOldReplicaSetsForRollingUpdate` sends scales a replica set down to a count, and together
  -- they take away no more replicas than are available above the deployment's replicas less what the
  -- function MaxUnavailable returns, which takes the surge of ResolveFenceposts for it. The clean-up of unhealthy
  -- replicas and the scaling of the current replica set are not part of it.
  pub scale_down_old_bounded :
      Shrinks (scale_down_old I api d log all_rss old).log
      × (taken (scale_down_old I api d log all_rss old).log ≤ taken log + spare I d all_rss)
  unfolding scale_down_old
  scale_down_old_bounded =
      let min = sub32 d.replicas (max_unavailable I d) in
      elim (Bool-cases (leb_ℤ (available_replica_count all_rss) min)) [
        | inl e ↦ rw e (s, omega arith)
        | inr e ↦
            let (hl, lim) = limit-spare.0 e in
            let b =
              down_loop-Bounded I api d (sub32 (available_replica_count all_rss) min) hl log (pos 0)
                (sort_by created_before old) (sort_by-Counted created_before old ho)
                (omega arith, omega arith) (omega arith) s in
            rw e (b.shrinks, omega (arith, b.within))
      ]

  -- If the API server accepts every update, `scaleDownOldReplicaSetsForRollingUpdate` takes away all
  -- the replicas of the old replica sets, or as many as are available above the deployment's
  -- replicas less MaxUnavailable where those are fewer.
  pub scale_down_old_exact :
      (scale_down_old I api d log all_rss old).error ≡ none
      → taken (scale_down_old I api d log all_rss old).log
        ≡ taken log + min (spare I d all_rss) (sum_replicas old)
  unfolding scale_down_old
  scale_down_old_exact =
      let low = sub32 d.replicas (max_unavailable I d) in
      elim (Bool-cases (leb_ℤ (available_replica_count all_rss) low)) [
        | inl e ↦ rw e (λ ok. omega (arith, limit-spare.1 e))
        | inr e ↦
            let (hl, lim) = limit-spare.0 e in
            let b =
              down_loop-Bounded I api d (sub32 (available_replica_count all_rss) low) hl log (pos 0)
                (sort_by created_before old) (sort_by-Counted created_before old ho)
                (omega arith, omega arith) (omega arith) s in
            rw e (λ ok.
              omega (arith, (b.exact ok).0, (b.exact ok).1, lim, sum-sort_by created_before old))
      ]
