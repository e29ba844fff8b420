-- ===== src/Deployment/Scaling/Requests.antt =====
-- replicas.go and rolling.go: what one scaling request does to the log.
use iml.Common.{ℕ, ◌+◌, ◌-◌, ◌≤◌, ◌<◌, ◌^◌, ◌≡◌, refl, true, false, List, [], ◌∷◌, arith, ◌⊎◌}
use iml.Common.Int.{
  ℤ, pos, pos_part, neg_part, add32, sub32, min_ℤ, leb_ℤ, ltb_ℤ, eqb_ℤ, add32_parts, sub32_parts,
  one_sided,
}
use iml.Deployment.Objects.{ReplicaSet}
use iml.Deployment.Fenceposts.{IntOrStrings, Deployment, max_surge}
use iml.Deployment.Scaling.{
  update_rs, delete_rs, Log, Api, scaled_copy, error_of, scale_replica_set,
}

-- The values of a replica count: an int32 that is not negative.
abbrev pub IsCount : ℤ → Type 0
IsCount z = (neg_part z ≡ 0) × (pos_part z < 2 ^ 31)

abbrev pub Counted : List ReplicaSet → Type 0
Counted [] = Unit {0}
Counted (rs ∷ rss) = IsCount rs.replicas × IsCount rs.available_replicas × Counted rss

-- The replicas that the updates of a log take away.
abbrev pub taken : Log → ℕ
taken [] = 0
taken (update_rs rs copy ∷ log) = pos_part rs.replicas - pos_part copy.replicas + taken log
taken (delete_rs rs ∷ log) = taken log

-- No update of a log scales up or below zero.
abbrev pub Shrinks : Log → Type 0
Shrinks [] = Unit {0}
Shrinks (update_rs rs copy ∷ log) =
    (neg_part copy.replicas ≡ 0) × (pos_part copy.replicas ≤ pos_part rs.replicas) × Shrinks log
Shrinks (delete_rs rs ∷ log) = Shrinks log

pub IsCount-sub32 :
    (a b : ℤ)
    → IsCount a
    → IsCount b
    → (pos_part (sub32 a b) ≡ pos_part a - pos_part b)
      × (neg_part (sub32 a b) ≡ pos_part b - pos_part a)
IsCount-sub32 a b ha hb = (
  omega (arith, sub32_parts a b (omega arith) (omega arith), one_sided (sub32 a b)),
  omega (arith, sub32_parts a b (omega arith) (omega arith), one_sided (sub32 a b)),
)

pub IsCount-add32 :
    (a b : ℤ)
    → IsCount a
    → IsCount b
    → pos_part a + pos_part b < 2 ^ 31
    → (pos_part (add32 a b) ≡ pos_part a + pos_part b) × IsCount (add32 a b)
IsCount-add32 a b ha hb h = (
  omega (arith, add32_parts a b (omega arith) (omega arith), one_sided (add32 a b)),
  (
    omega (arith, add32_parts a b (omega arith) (omega arith), one_sided (add32 a b)),
    omega (arith, add32_parts a b (omega arith) (omega arith), one_sided (add32 a b)),
  ),
)

pub zero_of_eqb : (r : ℤ) → IsCount r → eqb_ℤ r (pos 0) ≡ true → pos_part r ≡ 0
zero_of_eqb r h e = ground arith

pub pos_of_eqb : (r : ℤ) → IsCount r → eqb_ℤ r (pos 0) ≡ false → 0 < pos_part r
pos_of_eqb r h e = ground arith

pub lt_of_leb_false :
    (a b : ℤ) → IsCount a → IsCount b → leb_ℤ a b ≡ false → pos_part b < pos_part a
lt_of_leb_false a b ha hb e = ground arith

-- What is left after a part is taken away is another count, and not a larger one.
pub left_over :
    (r down : ℤ)
    → IsCount r
    → IsCount down
    → 0 < pos_part down
    → pos_part down ≤ pos_part r
    → let new = sub32 r down in
      (neg_part new ≡ 0)
      × (pos_part new + pos_part down ≡ pos_part r)
      × (ltb_ℤ r new ≡ false)
      × (eqb_ℤ r new ≡ false)
left_over r down hr hd p h = (
  omega (arith, IsCount-sub32 r down hr hd),
  omega (arith, IsCount-sub32 r down hr hd),
  ground (arith, IsCount-sub32 r down hr hd),
  ground (arith, IsCount-sub32 r down hr hd),
)

-- The replicas to take away from `r`, with `t` of at most `l` taken away so far.
pub take_step :
    (r l t : ℤ)
    → IsCount r
    → IsCount l
    → IsCount t
    → pos_part t < pos_part l
    → let down = min_ℤ r (sub32 l t) in
      IsCount down
      × (pos_part down ≤ pos_part r)
      × (pos_part t + pos_part down ≤ pos_part l)
      × (0 < pos_part r → 0 < pos_part down)
      × (pos_part down ≡ pos_part r ⊎ pos_part t + pos_part down ≡ pos_part l)
take_step r l t hr hl ht h = ground (arith, IsCount-sub32 l t hl ht)

module _ (I : IntOrStrings) (api : Api) (d : Deployment I) where
  -- A new scale is sent to the API server.
  pub scale_sends :
      (log : Log) (rs : ReplicaSet) (n : ℤ)
      → eqb_ℤ rs.replicas n ≡ false
      → (copy : ReplicaSet) × (copy.replicas ≡ n)
        × ((scale_replica_set I api d log rs n false).log ≡ update_rs rs copy ∷ log)
        × ((scale_replica_set I api d log rs n false).error
            ≡ error_of (api log (update_rs rs copy)))
  unfolding scale_replica_set
  scale_sends log rs n h =
      (scaled_copy rs n d.replicas (add32 d.replicas (max_surge I d)), refl, rw h, rw h)
