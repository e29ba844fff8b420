-- ===== src/Targets.antt =====
-- operator/internal/controller/core/p4target/util/p4target_util.go: the taints and the conditions of a
-- target, as lists. A function that changes an element through a pointer returns the new list.
pub mod Removed
mod Tests
use iml.Common.{
  ℕ, Bool, true, false, not, ◌&&◌, ◌||◌, Option, none, some, List, [], ◌∷◌, ◌++◌, if◌then◌else◌,
}
use iml.Common.Texts.{Text, text_eq}
use iml.Conditions.{Condition, get_condition, equal_conditions}

pub record Taint : Type 0 where
  pub key : Text
  pub value : Text
  pub effect : Text
  pub time_added : ℕ

unfoldable pub taints_are_equal : Taint → Taint → Bool
taints_are_equal a b = text_eq a.key b.key && text_eq a.value b.value && text_eq a.effect b.effect

unfoldable pub get_taint : List Taint → Text → Option Taint
get_taint [] k = none
get_taint (t ∷ taints) k = let rest = get_taint taints k in if text_eq t.key k then some t else rest

-- The assignments through the pointer that `GetTaint` returns.
unfoldable pub set_taint : Taint → List Taint → List Taint
set_taint new [] = []
set_taint new (t ∷ taints) =
    let rest = set_taint new taints in
    if text_eq t.key new.key then record new { key = t.key } ∷ taints else t ∷ rest

-- The taints that are appended go to a list that is not returned.
unfoldable pub add_each : List Taint → Bool → List Taint → List Taint × Bool
unfolding get_taint set_taint taints_are_equal
add_each taints updated [] = (taints, updated)
add_each taints updated (new ∷ more) =
    let kept = add_each taints true more in
    let changed = add_each (set_taint new taints) true more in
    elim (get_taint taints new.key) [
      | none ↦ kept
      | some t ↦ if not (taints_are_equal t new) then changed else kept
    ]

abbrev pub is_nonempty : {A : Type 0} → List A → Bool
is_nonempty [] = false
is_nonempty (x ∷ xs) = true

unfoldable pub add_taints : List Taint → List Taint → List Taint × Bool
unfolding add_each
add_taints [] new = (new, is_nonempty new)
add_taints (t ∷ taints) new = add_each (t ∷ taints) false new

abbrev pub has_key : Text → List Text → Bool
has_key k [] = false
has_key k (j ∷ keys) = text_eq k j || has_key k keys

unfoldable pub remove_taints : List Taint → List Text → List Taint × Bool
remove_taints [] keys = ([], false)
remove_taints (t ∷ taints) keys =
    let (rest, updated) = remove_taints taints keys in
    if has_key t.key keys then (rest, true) else (t ∷ rest, updated)

-- The assignments through the pointer that `GetCondition` returns.
unfoldable pub put_condition : Condition → List Condition → List Condition
put_condition new [] = []
put_condition new (c ∷ cs) =
    let rest = put_condition new cs in
    if text_eq c.kind new.kind then record new { kind = c.kind } ∷ cs else c ∷ rest

unfoldable pub add_each_condition : List Condition → Bool → List Condition → List Condition × Bool
unfolding get_condition put_condition equal_conditions
add_each_condition cs updated [] = (cs, updated)
add_each_condition cs updated (new ∷ more) =
    let added = add_each_condition (cs ++ new ∷ []) true more in
    let changed = add_each_condition (put_condition new cs) true more in
    let kept = add_each_condition cs updated more in
    elim (get_condition cs new.kind) [
      | none ↦ added
      | some c ↦ if not (equal_conditions c new) then changed else kept
    ]

unfoldable pub add_conditions : List Condition → List Condition → List Condition × Bool
unfolding add_each_condition
add_conditions [] new = (new, is_nonempty new)
add_conditions (c ∷ cs) new = add_each_condition (c ∷ cs) false new

-- `updated` is set for what is kept.
unfoldable pub remove_conditions : List Condition → List Text → List Condition × Bool
remove_conditions [] kinds = ([], false)
remove_conditions (c ∷ cs) kinds =
    let (rest, updated) = remove_conditions cs kinds in
    if not (has_key c.kind kinds) then (c ∷ rest, true) else (rest, updated)

pub data Readiness : Type 0 where
  ready not_ready unknown : Readiness

-- The taints of the controller, each with its key, without a value and with the effect NoSchedule.
pub record ReadinessTaints : Type 0 where
  pub unreachable_taint : Taint
  pub not_ready_taint : Taint

-- One taint is removed and another one added.
abbrev pub replace_taint : List Taint → Taint → Taint → List Taint × Bool
replace_taint taints old new =
    let (left, removed) = remove_taints taints (old.key ∷ []) in
    let (all, added) = add_taints left (new ∷ []) in (all, removed || added)

unfoldable pub ensure_readiness_taints :
    ReadinessTaints → List Taint → Readiness → List Taint × Bool
unfolding add_taints remove_taints
ensure_readiness_taints r taints ready =
    remove_taints taints (r.unreachable_taint.key ∷ r.not_ready_taint.key ∷ [])
ensure_readiness_taints r taints not_ready =
    replace_taint taints r.unreachable_taint r.not_ready_taint
ensure_readiness_taints r taints unknown =
    replace_taint taints r.not_ready_taint r.unreachable_taint
