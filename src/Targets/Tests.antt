-- ===== src/Targets/Tests.antt =====
-- Taints of a target: keys are single bytes.
use iml.Common.{ℕ, ◌≡◌, refl, true, false, [], ◌∷◌}
use iml.Conditions.{Condition}
use iml.Targets.{
  Taint, add_taints, remove_taints, add_conditions, remove_conditions, ReadinessTaints, not_ready,
  ensure_readiness_taints,
}

abbrev taint : ℕ → ℕ → Taint
taint key value = record { key = key ∷ []; value = value ∷ []; effect = 78 ∷ []; time_added = 0 }

-- A new taint is lost if there is another one, although the taints are said to have changed.
new_lost : add_taints (taint 1 5 ∷ []) (taint 2 6 ∷ []) ≡ (taint 1 5 ∷ [], true)
unfolding add_taints
new_lost = refl

first_added : add_taints [] (taint 2 6 ∷ []) ≡ (taint 2 6 ∷ [], true)
unfolding add_taints
first_added = refl

changed : add_taints (taint 1 5 ∷ []) (taint 1 6 ∷ []) ≡ (taint 1 6 ∷ [], true)
unfolding add_taints
changed = refl

removed : remove_taints (taint 1 5 ∷ taint 2 6 ∷ []) ((2 ∷ []) ∷ []) ≡ (taint 1 5 ∷ [], true)
unfolding remove_taints
removed = refl

abbrev condition : ℕ → Condition
condition kind = record {
  kind = kind ∷ [];
  status = 84 ∷ [];
  reason = [];
  message = [];
  last_transition = 3;
}

condition_added :
    add_conditions (condition 1 ∷ []) (condition 2 ∷ []) ≡ (condition 1 ∷ condition 2 ∷ [], true)
unfolding add_conditions
condition_added = refl

-- The only condition is removed, and nothing is said to have changed.
condition_removed : remove_conditions (condition 1 ∷ []) ((1 ∷ []) ∷ []) ≡ ([], false)
unfolding remove_conditions
condition_removed = refl

abbrev readiness : ReadinessTaints
readiness = record { unreachable_taint = taint 8 0; not_ready_taint = taint 9 0 }

-- A target without taints gets the one for not being ready; a target with another taint does not.
not_ready_marked : ensure_readiness_taints readiness [] not_ready ≡ (taint 9 0 ∷ [], true)
unfolding ensure_readiness_taints
not_ready_marked = refl

not_ready_unmarked :
    ensure_readiness_taints readiness (taint 1 5 ∷ []) not_ready ≡ (taint 1 5 ∷ [], true)
unfolding ensure_readiness_taints
not_ready_unmarked = refl
