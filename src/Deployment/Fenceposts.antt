-- ===== src/Deployment/Fenceposts.antt =====
-- util/nf_util.go: `ResolveFenceposts` and what is computed from it. k8s.io's IntOrString is not
-- part of the repository: its type and `GetScaledValueFromIntOrPercent` are parameters.
pub mod Surge
use iml.Common.{List, Bool, true, false, ◌&&◌, if◌then◌else◌, Option, none, some, arith}
use iml.Common.Int.{ℤ, pos, i32, add32, sub32, min_ℤ, leb_ℤ, eqb_ℤ}
use iml.Deployment.Objects.{ReplicaSet, replica_count}

pub record IntOrStrings : Type 1 where
  pub Value : Type 0
  pub from_zero : Value
  -- The value scaled to a total, rounded up or down, or an error.
  pub scaled_value : Value → ℤ → Bool → Option ℤ

module _ (I : IntOrStrings) where
  open I use {Value, from_zero, scaled_value}

  -- The strategy with the fields of `RollingUpdate`; `other` is any other text.
  pub data Strategy : Type 0 where
    rolling_update : Option Value → Option Value → Strategy
    recreate : Strategy
    other : Strategy

  pub record Deployment : Type 0 where
    pub replicas : ℤ
    pub strategy : Strategy
    pub generation : ℤ
    pub status_replicas : ℤ
    pub updated_replicas : ℤ
    pub available_replicas : ℤ
    pub observed_generation : ℤ

  abbrev pub value_or_default : Option Value → Value
  value_or_default none = from_zero
  value_or_default (some v) = v

  -- Surge and unavailable, or the error with the results 0 and 0.
  abbrev pub fix_zero : ℤ → ℤ → ℤ × ℤ
  fix_zero surge unavailable =
      if eqb_ℤ surge (pos 0) && eqb_ℤ unavailable (pos 0)
      then (i32 surge, i32 (pos 1))
      else (i32 surge, i32 unavailable)

  unfoldable pub resolve_fenceposts : Option Value → Option Value → ℤ → Option (ℤ × ℤ)
  resolve_fenceposts max_surge max_unavailable desired =
      elim (scaled_value (value_or_default max_surge) desired true) [
        | none ↦ none
        | some surge ↦ elim (scaled_value (value_or_default max_unavailable) desired false) [
          | none ↦ none
          | some unavailable ↦ some (fix_zero surge unavailable)
        ]
      ]

  abbrev pub first_result : Option (ℤ × ℤ) → ℤ
  first_result none = pos 0
  first_result (some (a, b)) = a

  abbrev pub max_unavailable_by : Strategy → ℤ → ℤ
  max_unavailable_by (rolling_update s u) n =
      if eqb_ℤ n (pos 0) then pos 0 else first_result (resolve_fenceposts s u n)
  max_unavailable_by _ n = pos 0

  -- `maxUnavailable, _, _ := ResolveFenceposts(…)`.
  unfoldable pub max_unavailable : Deployment → ℤ
  max_unavailable d = max_unavailable_by d.strategy d.replicas

  abbrev pub max_surge_by : Strategy → ℤ → ℤ
  max_surge_by (rolling_update s u) n = first_result (resolve_fenceposts s u n)
  max_surge_by _ n = pos 0

  unfoldable pub max_surge : Deployment → ℤ
  max_surge d = max_surge_by d.strategy d.replicas

  abbrev pub min_available_by : Strategy → ℤ → ℤ → ℤ
  min_available_by (rolling_update s u) n m = sub32 n m
  min_available_by _ n m = pos 0

  unfoldable pub min_available : Deployment → ℤ
  unfolding max_unavailable
  min_available d = min_available_by d.strategy d.replicas (max_unavailable d)

  abbrev pub new_replicas_by : Strategy → ℤ → ℤ → ℤ → ℤ → Option ℤ
  new_replicas_by (rolling_update s u) desired surge current_pod_count replicas =
      let max_total = add32 desired surge in
      if leb_ℤ max_total current_pod_count
      then some replicas
      else some
          (add32 replicas (min_ℤ (sub32 max_total current_pod_count) (sub32 desired replicas)))
  new_replicas_by recreate desired surge current_pod_count replicas = some desired
  new_replicas_by other desired surge current_pod_count replicas = none

  -- `NewRSNewReplicas`; `none` is the error on an unsupported strategy.
  unfoldable pub new_rs_new_replicas : Deployment → List ReplicaSet → ReplicaSet → Option ℤ
  unfolding max_surge
  new_rs_new_replicas d all_rss new_rs =
      new_replicas_by d.strategy d.replicas (max_surge d) (replica_count all_rss) new_rs.replicas

  unfoldable pub deployment_complete : Deployment → Bool
  deployment_complete d =
      eqb_ℤ d.updated_replicas d.replicas
      && eqb_ℤ d.status_replicas d.replicas
      && eqb_ℤ d.available_replicas d.replicas
      && leb_ℤ d.generation d.observed_generation
