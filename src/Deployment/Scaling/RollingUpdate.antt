-- ===== src/Deployment/Scaling/RollingUpdate.antt =====
-- rolling.go: how much `scaleDownOldReplicaSetsForRollingUpdate` takes away.
use iml.Common.{
  ℕ, ◌+◌, ◌≤◌, ◌≡◌, ap, none, List, [], ◌∷◌, arith, Bool-cases, Option-cases, inl, inr,
}
use Prim.Native.Nat.{min}
use iml.Common.Int.{ℤ, pos, pos_part, add32, sub32, min_ℤ, leb_ℤ, eqb_ℤ}
use iml.Deployment.Objects.{ReplicaSet}
use iml.Deployment.Fenceposts.{IntOrStrings, Deployment}
use iml.Deployment.Scaling.{update_rs, Log, Api, Count, error_of, down_loop}
use iml.Deployment.Scaling.Requests.{
  IsCount, Counted, taken, Shrinks, take_step, scale_sends, IsCount-add32, zero_of_eqb, pos_of_eqb,
  lt_of_leb_false, left_over,
}

abbrev pub sum_replicas : List ReplicaSet → ℕ
sum_replicas [] = 0
sum_replicas (rs ∷ rss) = pos_part rs.replicas + sum_replicas rss

module _ (I : IntOrStrings) (api : Api) (d : Deployment I) (limit : ℤ) (hl : IsCount limit) where
  -- What the loop has taken when it returns, from `total` taken before it.
  pub record Bounded (log : Log) (total : ℤ) (rss : List ReplicaSet) (r : Count) : Type 0 where
    pub counted : IsCount r.count
    pub within : taken r.log + pos_part total ≤ taken log + pos_part limit
    pub shrinks : Shrinks r.log
    pub exact :
        r.error ≡ none
        → (taken r.log + pos_part total ≡ taken log + pos_part r.count)
          × (pos_part r.count ≡ min (pos_part limit) (pos_part total + sum_replicas rss))

  pub down_loop-Bounded :
      (log : Log) (total : ℤ) (rss : List ReplicaSet)
      → Counted rss
      → IsCount total
      → pos_part total ≤ pos_part limit
      → Shrinks log
      → Bounded log total rss (down_loop I api d limit log total rss)
  unfolding down_loop
  down_loop-Bounded log total [] c ht le s = record {
    counted = ht;
    within = omega arith;
    shrinks = s;
    exact = λ e. (omega arith, omega arith);
  }
  down_loop-Bounded log total (rs ∷ rss) c ht le s = elim (Bool-cases (leb_ℤ limit total)) [
    | inl full ↦ rw full (record {
      counted = ht;
      within = omega arith;
      shrinks = s;
      exact = λ e. (omega arith, ground arith);
    })
    | inr room ↦ elim (Bool-cases (eqb_ℤ rs.replicas (pos 0))) [
      | inl empty ↦
          let ih = down_loop-Bounded log total rss c.2 ht le s in
          rw (room, empty)
            (record {
              counted = ih.counted;
              within = ih.within;
              shrinks = ih.shrinks;
              exact = λ e. (
                (ih.exact e).0,
                omega (arith, zero_of_eqb rs.replicas c.0 empty, (ih.exact e).1),
              );
            })
      | inr some_left ↦
          let down = min_ℤ rs.replicas (sub32 limit total) in
          let (hd, dr, dl, dp, de) =
            take_step rs.replicas limit total c.0 hl ht (lt_of_leb_false limit total hl ht room) in
          let (ne, split, stay, differ) =
            left_over rs.replicas down c.0 hd (dp (pos_of_eqb rs.replicas c.0 some_left)) dr in
          let (copy, scale, sent, answer) =
            scale_sends I api d log rs (sub32 rs.replicas down) differ in
          let (sum, ha) = IsCount-add32 total down ht hd (omega arith) in
          let kept : pos_part copy.replicas ≡ pos_part (sub32 rs.replicas down) =
            ap pos_part scale in
          let s' : Shrinks (update_rs rs copy ∷ log) = (rw scale ne, rw scale (omega arith), s) in
          elim (Option-cases (error_of (api log (update_rs rs copy)))) [
            | inr (x, f) ↦
                rw (room, some_left, stay, answer, f, sent)
                  (record { counted = ht; within = omega arith; shrinks = s'; exact = λ e. cc })
            | inl f ↦
                let ih =
                  down_loop-Bounded (update_rs rs copy ∷ log) (add32 total down) rss c.2 ha
                    (omega arith) s' in
                rw (room, some_left, stay, answer, f, sent)
                  (record {
                    counted = ih.counted;
                    within = omega (arith, ih.within);
                    shrinks = ih.shrinks;
                    exact = λ e. (omega (arith, (ih.exact e).0), omega (arith, (ih.exact e).1, de));
                  })
          ]
    ]
  ]
