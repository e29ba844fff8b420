-- ===== src/Placement.antt =====
-- operator/internal/controller/core/networkfunction/networkfunction_controller.go: the placement of
-- network functions on targets. The API server's network functions are a list; what it and the cache
-- answer to a call is part of the call. The mutex of the scheduler makes a call one step.
pub mod Capacity
mod Tests
use iml.Common.{
  ℕ, zero, suc, Bool, true, false, not, ◌&&◌, ◌||◌, Option, none, some, List, [], ◌∷◌,
  if◌then◌else◌,
}
use iml.Common.Int.{ℤ, pos, leb_ℤ, ltb_ℤ, ◌-ℤ◌}
use iml.Common.Results.{Result, ok, err}
use iml.Common.Texts.{Text, text_eq}

pub data TaintEffect : Type 0 where
  no_schedule prefer_no_schedule no_execute : TaintEffect

-- A target with the effects of its taints and its capacity of `loom.io/nf-slots`, 0 if it has none.
pub record Target : Type 0 where
  pub name : Text
  pub taints : List TaintEffect
  pub slots : ℤ

pub record Function : Type 0 where
  pub key : Text
  pub target_name : Text

abbrev pub is_empty : Text → Bool
is_empty [] = true
is_empty (x ∷ xs) = false

abbrev pub effect_eq : TaintEffect → TaintEffect → Bool
effect_eq no_schedule no_schedule = true
effect_eq prefer_no_schedule prefer_no_schedule = true
effect_eq no_execute no_execute = true
effect_eq _ _ = false

abbrev pub has_effect : TaintEffect → List TaintEffect → Bool
has_effect e [] = false
has_effect e (f ∷ effects) = effect_eq e f || has_effect e effects

unfoldable pub has_taint_with_effects : List TaintEffect → List TaintEffect → Bool
has_taint_with_effects [] effects = false
has_taint_with_effects (t ∷ taints) effects =
    has_effect t effects || has_taint_with_effects taints effects

-- `used[target]` of `countUsedSlots`, for a name that is not empty.
unfoldable pub count_used_slots : List Function → Text → ℕ
count_used_slots [] target = 0
count_used_slots (nf ∷ nfs) target =
    let rest = count_used_slots nfs target in
    if not (is_empty nf.target_name) && text_eq nf.target_name target then suc rest else rest

-- One pass of the loop of `filterFeasible`.
unfoldable pub is_feasible : List Function → Target → Bool
unfolding has_taint_with_effects count_used_slots
is_feasible nfs t =
    if has_taint_with_effects t.taints (no_schedule ∷ no_execute ∷ [])
    then false
    else if leb_ℤ t.slots (pos 0)
    then false
    else ltb_ℤ (pos 0) (t.slots -ℤ pos (count_used_slots nfs t.name))

unfoldable pub filter_feasible : List Function → List Target → List Target
unfolding is_feasible
filter_feasible nfs [] = []
filter_feasible nfs (t ∷ targets) =
    let rest = filter_feasible nfs targets in if is_feasible nfs t then t ∷ rest else rest

-- The network function of a key, and the list with its target set.
unfoldable pub find_nf : Text → List Function → Option Function
find_nf key [] = none
find_nf key (nf ∷ nfs) = let rest = find_nf key nfs in if text_eq nf.key key then some nf else rest

unfoldable pub bind_nf : Text → Text → List Function → List Function
bind_nf key target [] = []
bind_nf key target (nf ∷ nfs) =
    let rest = bind_nf key target nfs in
    if text_eq nf.key key then record nf { target_name = target } ∷ nfs else nf ∷ rest

-- A call of the scheduler with the answers that it gets: the errors of the two reads, the targets that
-- match, from the cache, and the error of the patch, a conflict if the network function has changed.
pub record Request : Type 0 where
  pub key : Text
  pub get_error : Option ℕ
  pub targets : Result ℕ (List Target)
  pub list_error : Option ℕ
  pub patch_error : Option ℕ

pub data Outcome : Type 0 where
  bound_already : Text → Outcome
  scheduled : Text → Outcome
  no_matching_targets not_found : Outcome
  refused : ℕ → Outcome

-- `updateNFWithChosenTarget`
abbrev pub update_nf_with_chosen_target : Request → List Function → Target → List Function × Outcome
update_nf_with_chosen_target r nfs t = elim r.patch_error [
  | some e ↦ (nfs, refused e)
  | none ↦ (bind_nf r.key t.name nfs, scheduled t.name)
]

-- The first feasible target is picked.
abbrev pub pick_node : Request → List Function → List Target → List Function × Outcome
pick_node r nfs [] = (nfs, no_matching_targets)
pick_node r nfs (t ∷ feasible) = update_nf_with_chosen_target r nfs t

abbrev pub with_targets : Request → List Function → Result ℕ (List Target) → List Function × Outcome
with_targets r nfs (err e) = (nfs, refused e)
with_targets r nfs (ok targets) = elim r.list_error [
  | some e ↦ (nfs, refused e)
  | none ↦ pick_node r nfs (filter_feasible nfs targets)
]

abbrev pub with_live : Request → List Function → Option Function → List Function × Outcome
with_live r nfs none = (nfs, not_found)
with_live r nfs (some live) =
    if not (is_empty live.target_name)
    then (nfs, bound_already live.target_name)
    else with_targets r nfs r.targets

unfoldable pub schedule_network_function : Request → List Function → List Function × Outcome
unfolding filter_feasible find_nf bind_nf
schedule_network_function r nfs = elim r.get_error [
  | some e ↦ (nfs, refused e)
  | none ↦ with_live r nfs (find_nf r.key nfs)
]

unfoldable pub delete_nf : Text → List Function → List Function
delete_nf key [] = []
delete_nf key (nf ∷ nfs) =
    let rest = delete_nf key nfs in if text_eq nf.key key then rest else nf ∷ rest

-- Between calls of the scheduler network functions come, with the target that their users ask for or
-- with an empty one, have their targets changed by users, and go.
pub data Action : Type 0 where
  creates assigns : Text → Text → Action
  deletes : Text → Action
  schedules : Request → Action

unfoldable pub step : List Function → Action → List Function
unfolding schedule_network_function delete_nf bind_nf
step nfs (creates key target) = record { key = key; target_name = target } ∷ nfs
step nfs (assigns key target) = bind_nf key target nfs
step nfs (deletes key) = delete_nf key nfs
step nfs (schedules r) = (schedule_network_function r nfs).0

unfoldable pub run : List Function → List Action → List Function
unfolding step
run nfs [] = nfs
run nfs (a ∷ acts) = run (step nfs a) acts
