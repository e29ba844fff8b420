-- ===== src/Placement/Tests.antt =====
-- Two network functions for one slot, and a target with a taint.
use iml.Common.{
  ℕ, ◌≤◌, ◌≡◌, refl, Bool, true, false, none, some, List, [], ◌∷◌, arith, if◌then◌else◌,
}
use iml.Common.Int.{pos}
use iml.Common.Results.{ok}
use iml.Common.Texts.{Text, text_eq}
use iml.Placement.{
  Target, no_execute, count_used_slots, Request, schedule_network_function, scheduled,
  no_matching_targets, Action, creates, schedules, run,
}
use iml.Placement.Capacity.{Within, run-count_used_slots}

abbrev tainted : Target
tainted = record { name = 1 ∷ []; taints = no_execute ∷ []; slots = pos 9 }

abbrev single : Target
single = record { name = 2 ∷ []; taints = []; slots = pos 1 }

abbrev request : ℕ → Request
request n = record {
  key = n ∷ [];
  get_error = none;
  targets = ok (tainted ∷ single ∷ []);
  list_error = none;
  patch_error = none;
}

abbrev calls : List Action
calls = creates (7 ∷ []) [] ∷ creates (8 ∷ []) [] ∷ schedules (request 7) ∷ []

first_scheduled :
    (schedule_network_function (request 7) (run [] (creates (7 ∷ []) [] ∷ []))).1
    ≡ scheduled (2 ∷ [])
unfolding schedule_network_function run iml.Common.Int.◌-ℤ◌
first_scheduled = refl

second_waits : (schedule_network_function (request 8) (run [] calls)).1 ≡ no_matching_targets
unfolding schedule_network_function run iml.Common.Int.◌-ℤ◌
second_waits = refl

abbrev cap : Text → ℕ
cap name = if text_eq name (1 ∷ []) then 9 else 1

abbrev both_wanted : List Action
both_wanted =
    creates (7 ∷ []) []
    ∷ creates (8 ∷ []) []
    ∷ creates (9 ∷ []) (2 ∷ [])
    ∷ schedules (request 7)
    ∷ schedules (request 8)
    ∷ []

calls-Within : Within cap both_wanted
calls-Within = ((omega arith, (omega arith, tt)), ((omega arith, (omega arith, tt)), tt))

run-count_used_slots_example : count_used_slots (run [] both_wanted) (2 ∷ []) ≤ 2
run-count_used_slots_example = run-count_used_slots cap both_wanted (2 ∷ []) calls-Within
