-- ===== src/Placement/Capacity.antt =====
-- networkfunction_controller.go: the scheduler gives no target more network functions than it has slots.
use iml.Common.{
  ℕ, suc, ◌+◌, ◌≤◌, ◌<◌, ◌≡◌, refl, ap, ◌∙◌, subst, Bool, true, not, ◌&&◌, Option, none, some, List,
  [], ◌∷◌, if◌then◌else◌, arith, Bool-cases, Option-cases, inl, inr,
}
use iml.Common.Int.{pos, pos_part, -ℤ_parts}
use iml.Common.Results.{Result, ok, err}
use iml.Common.Texts.{Text, text_eq, eq_of_text_eq}
use iml.Placement.{
  Target, Function, is_empty, count_used_slots, is_feasible, filter_feasible, find_nf, bind_nf,
  Request, Outcome, pick_node, with_targets, with_live, schedule_network_function, delete_nf,
  Action, creates, assigns, deletes, schedules, step, run,
}

-- The targets of a list, and those of the calls, have no more slots than their names are given.
abbrev pub WithinAll : (Text → ℕ) → List Target → Type 0
WithinAll cap [] = Unit {0}
WithinAll cap (t ∷ targets) = (pos_part t.slots ≤ cap t.name) × WithinAll cap targets

abbrev pub WithinResult : (Text → ℕ) → Result ℕ (List Target) → Type 0
WithinResult cap (ok targets) = WithinAll cap targets
WithinResult cap (err e) = Unit {0}

abbrev pub Within : (Text → ℕ) → List Action → Type 0
Within cap [] = Unit {0}
Within cap (creates key target ∷ acts) = Within cap acts
Within cap (assigns key target ∷ acts) = Within cap acts
Within cap (deletes key ∷ acts) = Within cap acts
Within cap (schedules r ∷ acts) = WithinResult cap r.targets × Within cap acts

abbrev target_empty : Option Function → Bool
target_empty none = true
target_empty (some nf) = is_empty nf.target_name

module _ (m : Text) where
  count-bind :
      (key target : Text) (nfs : List Function) (live : Function)
      → find_nf key nfs ≡ some live
      → is_empty live.target_name ≡ true
      → count_used_slots (bind_nf key target nfs) m ≡ (
          if not (is_empty target) && text_eq target m
          then suc (count_used_slots nfs m)
          else count_used_slots nfs m)
  unfolding count_used_slots find_nf bind_nf
  count-bind key target [] live h e = cc
  count-bind key target (nf ∷ nfs) live h e = elim (Bool-cases (text_eq nf.key key)) [
    | inl k ↦
        let found : some nf ≡ some live = rw k at h in
        let unbound : is_empty nf.target_name ≡ true = ap target_empty found ∙ e in
        rw (k, count_used_slots) (ground (arith, unbound))
    | inr k ↦
        let rest = count-bind key target nfs live (rw k at h) e in
        rw (k, count_used_slots) (ground (arith, rest))
  ]

  count-assign :
      (key target : Text) (nfs : List Function)
      → count_used_slots (bind_nf key target nfs) m ≤ (
          if not (is_empty target) && text_eq target m
          then suc (count_used_slots nfs m)
          else count_used_slots nfs m)
  unfolding count_used_slots bind_nf
  count-assign key target [] = ground arith
  count-assign key target (nf ∷ nfs) =
      let rest = count-assign key target nfs in ground (arith, rest)

  count-delete :
      (key : Text) (nfs : List Function)
      → count_used_slots (delete_nf key nfs) m ≤ count_used_slots nfs m
  unfolding count_used_slots delete_nf
  count-delete key [] = omega arith
  count-delete key (nf ∷ nfs) = let rest = count-delete key nfs in ground (arith, rest)

-- The bound is kept.
abbrev Kept : (Text → ℕ) → Text → List Function → Type 0
Kept cap m nfs = count_used_slots nfs m ≤ cap m

abbrev FirstKept : (Text → ℕ) → Text → List Function × Outcome → Type 0
FirstKept cap m r = Kept cap m r.0

is_feasible-free :
    (nfs : List Function) (t : Target)
    → is_feasible nfs t ≡ true
    → count_used_slots nfs t.name < pos_part t.slots
unfolding is_feasible
is_feasible-free nfs t h = ground (arith, -ℤ_parts t.slots (pos (count_used_slots nfs t.name)))

-- What is picked has a slot left, and no more slots than its name is given.
abbrev Room : (Text → ℕ) → List Function → List Target → Type 0
Room cap nfs [] = Unit {0}
Room cap nfs (t ∷ targets) = count_used_slots nfs t.name < cap t.name

filter_feasible-Room :
    (cap : Text → ℕ) (nfs : List Function) (targets : List Target)
    → WithinAll cap targets
    → Room cap nfs (filter_feasible nfs targets)
unfolding filter_feasible
filter_feasible-Room cap nfs [] w = tt
filter_feasible-Room cap nfs (t ∷ targets) (w, ws) = elim (Bool-cases (is_feasible nfs t)) [
  | inl f ↦ rw (f, filter_feasible) (omega (arith, is_feasible-free nfs t f, w))
  | inr f ↦ rw (f, filter_feasible) (filter_feasible-Room cap nfs targets ws)
]

module _ (cap : Text → ℕ) (m : Text) where
  bind-Kept :
      (key target : Text) (nfs : List Function) (live : Function)
      → find_nf key nfs ≡ some live
      → is_empty live.target_name ≡ true
      → count_used_slots nfs target < cap target
      → Kept cap m nfs
      → Kept cap m (bind_nf key target nfs)
  bind-Kept key target nfs live h e room kept =
      let count = count-bind m key target nfs live h e in
      elim (Bool-cases (text_eq target m)) [
        | inl q ↦
            let same = eq_of_text_eq target m q in
            let here : count_used_slots nfs m < cap m =
              subst (λ (n : Text). count_used_slots nfs n < cap n) same room in
            ground (arith, count, here, q)
        | inr q ↦ ground (arith, count, q)
      ]

  pick_node-Kept :
      (r : Request) (nfs : List Function) (live : Function) (feasible : List Target)
      → find_nf r.key nfs ≡ some live
      → is_empty live.target_name ≡ true
      → Room cap nfs feasible
      → Kept cap m nfs
      → FirstKept cap m (pick_node r nfs feasible)
  pick_node-Kept r nfs live [] h e room kept = kept
  pick_node-Kept r nfs live (t ∷ feasible) h e room kept = elim (Option-cases r.patch_error) [
    | inl p ↦ rw p (bind-Kept r.key t.name nfs live h e room kept)
    | inr (x, p) ↦ rw p kept
  ]

  with_targets-Kept :
      (r : Request) (nfs : List Function) (live : Function) (targets : Result ℕ (List Target))
      → find_nf r.key nfs ≡ some live
      → is_empty live.target_name ≡ true
      → WithinResult cap targets
      → Kept cap m nfs
      → FirstKept cap m (with_targets r nfs targets)
  with_targets-Kept r nfs live (err x) h e w kept = kept
  with_targets-Kept r nfs live (ok targets) h e w kept = elim (Option-cases r.list_error) [
    | inl l ↦ rw l (
        pick_node-Kept r nfs live (filter_feasible nfs targets) h e
          (filter_feasible-Room cap nfs targets w) kept)
    | inr (x, l) ↦ rw l kept
  ]

  with_live-Kept :
      (r : Request) (nfs : List Function) (live : Option Function)
      → find_nf r.key nfs ≡ live
      → WithinResult cap r.targets
      → Kept cap m nfs
      → FirstKept cap m (with_live r nfs live)
  with_live-Kept r nfs none h w kept = kept
  with_live-Kept r nfs (some live) h w kept = elim (Bool-cases (is_empty live.target_name)) [
    | inl e ↦ rw e (with_targets-Kept r nfs live r.targets h e w kept)
    | inr e ↦ rw e kept
  ]

  schedule-Kept :
      (r : Request) (nfs : List Function)
      → WithinResult cap r.targets
      → Kept cap m nfs
      → FirstKept cap m (schedule_network_function r nfs)
  unfolding schedule_network_function
  schedule-Kept r nfs w kept = elim (Option-cases r.get_error) [
    | inl g ↦ rw g (with_live-Kept r nfs (find_nf r.key nfs) refl w kept)
    | inr (x, g) ↦ rw g kept
  ]

-- How many times users give the target to a network function themselves.
abbrev pub assigned : List Action → Text → ℕ
assigned [] m = 0
assigned (creates key target ∷ acts) m =
    let rest = assigned acts m in
    if not (is_empty target) && text_eq target m then suc rest else rest
assigned (assigns key target ∷ acts) m =
    let rest = assigned acts m in
    if not (is_empty target) && text_eq target m then suc rest else rest
assigned (deletes key ∷ acts) m = assigned acts m
assigned (schedules r ∷ acts) m = assigned acts m

WithinAll-more :
    (cap : Text → ℕ) (k : ℕ) (targets : List Target)
    → WithinAll cap targets
    → WithinAll (λ n. cap n + k) targets
WithinAll-more cap k [] w = tt
WithinAll-more cap k (t ∷ targets) (w, ws) = (omega (arith, w), WithinAll-more cap k targets ws)

WithinResult-more :
    (cap : Text → ℕ) (k : ℕ) (r : Result ℕ (List Target))
    → WithinResult cap r
    → WithinResult (λ n. cap n + k) r
WithinResult-more cap k (ok targets) w = WithinAll-more cap k targets w
WithinResult-more cap k (err e) w = tt

module _ (cap : Text → ℕ) (m : Text) where
  run-Kept :
      (nfs : List Function) (acts : List Action) (k : ℕ)
      → Within cap acts
      → Kept (λ n. cap n + k) m nfs
      → Kept (λ n. cap n + (k + assigned acts m)) m (run nfs acts)
  unfolding run step count_used_slots
  run-Kept nfs [] k w kept = omega (arith, kept)
  run-Kept nfs (creates key target ∷ acts) k w kept =
      elim (Bool-cases (not (is_empty target) && text_eq target m)) [
        | inl e ↦
            let rest =
              run-Kept (record { key = key; target_name = target } ∷ nfs) acts (suc k) w
                (ground (arith, e, kept)) in
            ground (arith, e, rest)
        | inr e ↦
            let rest =
              run-Kept (record { key = key; target_name = target } ∷ nfs) acts k w
                (ground (arith, e, kept)) in
            ground (arith, e, rest)
      ]
  run-Kept nfs (assigns key target ∷ acts) k w kept =
      let count = count-assign m key target nfs in
      elim (Bool-cases (not (is_empty target) && text_eq target m)) [
        | inl e ↦
            let rest =
              run-Kept (bind_nf key target nfs) acts (suc k) w (ground (arith, e, count, kept)) in
            ground (arith, e, rest)
        | inr e ↦
            let rest =
              run-Kept (bind_nf key target nfs) acts k w (ground (arith, e, count, kept)) in
            ground (arith, e, rest)
      ]
  run-Kept nfs (deletes key ∷ acts) k w kept =
      run-Kept (delete_nf key nfs) acts k w (omega (arith, count-delete m key nfs, kept))
  run-Kept nfs (schedules r ∷ acts) k (w, ws) kept =
      run-Kept (schedule_network_function r nfs).0 acts k ws
        (schedule-Kept (λ n. cap n + k) m r nfs (WithinResult-more cap k r.targets w) kept)

-- Network functions are created, with any target or none, given another target by users, and deleted,
-- and calls of the scheduler run one after the other, each with any errors and any list of targets,
-- however old. If no list gives a target more slots than `cap` has for its name, then there
-- are never more network functions bound to a target than `cap` has for it and the number of times
-- that users gave it to one; where they never did, never more than `cap` has for it.
pub run-count_used_slots :
    (cap : Text → ℕ) (acts : List Action) (target : Text)
    → Within cap acts
    → count_used_slots (run [] acts) target ≤ cap target + assigned acts target
unfolding count_used_slots
run-count_used_slots limit acts target w =
    omega (arith, run-Kept limit target [] acts 0 w (omega arith))
