-- ===== src/Conditions/Tests.antt =====
-- Conditions of a deployment and of a replica set.
use iml.Common.{ℕ, ◌≡◌, refl, true, some, List, [], ◌∷◌}
use iml.Conditions.{Condition, get_condition, same_state, set_nf_deployment_condition}
use iml.Conditions.Kept.{get-set_nf_deployment_condition}

-- A condition of the type 65 with a status and a time.
abbrev condition : ℕ → ℕ → Condition
condition status time = record {
  kind = 65 ∷ [];
  status = status ∷ [];
  reason = [];
  message = [];
  last_transition = time;
}

abbrev before : List Condition
before = condition 70 5 ∷ []

found : get_condition before (65 ∷ []) ≡ some (condition 70 5)
unfolding get_condition
found = refl

get-set_nf_deployment_condition_example :
    (r : Condition) × (get_condition (set_nf_deployment_condition before (condition 84 9)) (65 ∷ [])
      ≡ some r)
    × (same_state r (condition 84 9) ≡ true)
    × (get_condition (set_nf_deployment_condition before (condition 84 9)) (66 ∷ [])
        ≡ get_condition before (66 ∷ []))
get-set_nf_deployment_condition_example =
    get-set_nf_deployment_condition before (condition 84 9) (66 ∷ []) refl
