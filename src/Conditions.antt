-- ===== src/Conditions.antt =====
-- The conditions in the statuses of deployments (util/nf_util.go) and of replica sets
-- (util/rs_util.go). The two object types have the same list of conditions; a time is 0 if unset.
pub mod Kept
mod Tests
use iml.Common.{
  ℕ, zero, suc, Bool, true, false, not, ◌&&◌, Option, none, some, List, [], ◌∷◌, ◌++◌,
  if◌then◌else◌,
}
use iml.Common.Texts.{Text, text_eq}

pub record Condition : Type 0 where
  pub kind : Text
  pub status : Text
  pub reason : Text
  pub message : Text
  pub last_transition : ℕ

-- `GetNfDeploymentCondition` and `GetCondition`.
unfoldable pub get_condition : List Condition → Text → Option Condition
get_condition [] k = none
get_condition (c ∷ cs) k =
    let rest = get_condition cs k in if text_eq c.kind k then some c else rest

-- `filterConditions` and `RemoveCondition`.
unfoldable pub filter_conditions : List Condition → Text → List Condition
filter_conditions [] k = []
filter_conditions (c ∷ cs) k =
    let rest = filter_conditions cs k in if not (text_eq c.kind k) then c ∷ rest else rest

unfoldable pub equal_conditions : Condition → Condition → Bool
equal_conditions a b =
    text_eq a.kind b.kind
    && text_eq a.status b.status
    && text_eq a.reason b.reason
    && text_eq a.message b.message

abbrev pub same_state : Condition → Condition → Bool
same_state a b = text_eq a.status b.status && text_eq a.reason b.reason

-- `SetNfDeploymentCondition`
unfoldable pub set_nf_deployment_condition : List Condition → Condition → List Condition
unfolding get_condition filter_conditions
set_nf_deployment_condition cs c = elim (get_condition cs c.kind) [
  | none ↦ filter_conditions cs c.kind ++ c ∷ []
  | some current ↦
      if same_state current c
      then cs
      else if not (text_eq current.status c.status)
      then filter_conditions cs c.kind
        ++ record c { last_transition = current.last_transition } ∷ []
      else filter_conditions cs c.kind ++ c ∷ []
]

abbrev pub timed_by : ℕ → ℕ → Condition → Condition
timed_by now zero c = record c { last_transition = now }
timed_by now (suc n) c = c

abbrev pub timed : ℕ → Condition → Condition
timed now c = timed_by now c.last_transition c

-- `SetCondition`, with the time of the call.
unfoldable pub set_condition : ℕ → List Condition → Condition → List Condition
unfolding get_condition filter_conditions equal_conditions
set_condition now cs c = elim (get_condition cs c.kind) [
  | none ↦ cs ++ timed now c ∷ []
  | some current ↦
      if equal_conditions c current
      then cs
      else filter_conditions cs c.kind
        ++ record c { last_transition = current.last_transition } ∷ []
]
