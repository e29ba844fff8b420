-- ===== src/NfManager/System.antt =====
-- nf_mgr.go: the manager with its goroutines. At most one has the manager's lock; the others wait for
-- it. Calls of `EnsurePresent` and `EnsureAbsent` come between the stages of the one that runs.
use iml.Common.{ℕ, zero, suc, Bool, Option, none, some, List, [], ◌∷◌}
use iml.Common.Int.{ℤ}
use iml.Common.Maps.{empty}
use iml.NfManager.Handle.{new_deployment_handle}
use iml.NfManager.Manager.{Manager, OpType, Function, Task, Answers, ensure}
use iml.NfManager.Work.{run_stage}

pub record System (K : Type 0) : Type 0 where
  pub manager : Manager K
  pub waiting : List (Task K)
  pub running : Option (Task K)

pub data Action (K : Type 0) : Type 0 where
  ensures : OpType → Function K → Action K
  locks : ℕ → Action K
  runs : Answers → Action K

-- The manager that `NewManager` returns.
abbrev pub new_manager : {K : Type 0} → ℤ → Bool → Manager K
new_manager slots has_interface = record {
  max_nf_slots = slots;
  has_interface = has_interface;
  programs = empty;
  ops = [];
  handles = λ i. new_deployment_handle;
  next = 0;
}

abbrev pub initial : {K : Type 0} → Manager K → System K
initial m = record { manager = m; waiting = []; running = none }

abbrev pub add_waiting : {K : Type 0} → Option (Task K) → List (Task K) → List (Task K)
add_waiting none ts = ts
add_waiting (some t) ts = t ∷ ts

-- The task at a place in the list, and the others.
abbrev pub take_waiting : {K : Type 0} → ℕ → List (Task K) → Option (Task K) × List (Task K)
take_waiting n [] = (none, [])
take_waiting zero (t ∷ ts) = (some t, ts)
take_waiting (suc n) (t ∷ ts) = let (r, rest) = take_waiting n ts in (r, t ∷ rest)

module _ {K : Type 0} (dec : Discrete K) where
  unfoldable pub step : System K → Action K → System K
  unfolding ensure run_stage
  step s (ensures type f) =
      let (m, h, t) = ensure dec s.manager type f in
      record s { manager = m; waiting = add_waiting t s.waiting }
  step s (locks n) = elim s.running [
    | some t ↦ s
    | none ↦ let (t, rest) = take_waiting n s.waiting in record s { waiting = rest; running = t }
  ]
  step s (runs a) = elim s.running [
    | none ↦ s
    | some t ↦
        let (m, next) = run_stage dec s.manager t a in record s { manager = m; running = next }
  ]

  unfoldable pub run : System K → List (Action K) → System K
  unfolding step
  run s [] = s
  run s (a ∷ as') = run (step s a) as'
