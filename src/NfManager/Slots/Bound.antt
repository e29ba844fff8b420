-- ===== src/NfManager/Slots/Bound.antt =====
-- nf_mgr.go: a switch never has more network functions than slots.
use iml.Common.{
  ℕ, suc, ◌≤◌, ◌≡◌, refl, ap, subst, Bool, Option, none, some, List, [], ◌∷◌, arith, Bool-cases,
  Option-cases, inl, inr, length,
}
use iml.Common.Int.{ℤ, pos_part}
use iml.Common.Texts.{Text}
use iml.NfManager.Handle.{Handle}
use iml.NfManager.Manager.{
  Manager, OpType, op_present, op_absent, TrackedOp, Function, Task, is_deployed, deployed_count,
  deployed_keys, get_deployed_network_functions, ensure, find_op, same_type, track, first_stage,
}
use iml.NfManager.Work.{run_stage}
use iml.NfManager.System.{
  System, Action, ensures, locks, runs, step, run, new_manager, initial, add_waiting,
}
use iml.NfManager.Slots.Stages.{Smaller-ensure}
use iml.NfManager.Slots.Kept.{
  IsFirst, Room, AllFirst, Keeps, Keeps-Smaller, take_waiting-AllFirst, Keeps-run_stage_at,
}

length_or : {A : Type 0} → ℕ → Option (List A) → ℕ
length_or n none = n
length_or n (some l) = length l

module _ {K : Type 0} (dec : Discrete K) where
  record Sound (slots : ℤ) (s : System K) : Type 0 where
    keeps : Keeps slots s.manager s.running
    first : AllFirst s.waiting

  IsFirst-first_stage : (type : OpType) → IsFirst (first_stage dec type)
  IsFirst-first_stage op_present = tt
  IsFirst-first_stage op_absent = tt

  ensure-AllFirst :
      (m : Manager K) (type : OpType) (f : Function K) (ts : List (Task K))
      → AllFirst ts
      → AllFirst (add_waiting (ensure dec m type f).2 ts)
  unfolding ensure track
  ensure-AllFirst m type f ts w = elim (Option-cases (find_op dec f.key m.ops)) [
    | inl e ↦ rw (e, ensure) (IsFirst-first_stage type, w)
    | inr (o, e) ↦ elim (Bool-cases (same_type dec o.op_type type)) [
      | inl s ↦ rw (e, s, ensure) w
      | inr s ↦ rw (e, s, ensure) (IsFirst-first_stage type, w)
    ]
  ]

  step-Sound :
      (slots : ℤ) (s : System K) (a : Action K) → Sound slots s → Sound slots (step dec s a)
  unfolding step run_stage
  step-Sound slots s (ensures type f) h = record {
    keeps = Keeps-Smaller s.running (Smaller-ensure dec s.manager type f) h.keeps;
    first = ensure-AllFirst s.manager type f s.waiting h.first;
  }
  step-Sound slots s (locks n) h = elim (Option-cases s.running) [
    | inr (t, e) ↦ rw (e, step) h
    | inl e ↦
        let (r, f) = take_waiting-AllFirst n s.waiting h.first in
        rw (e, step)
          (record {
            keeps = record {
              same = h.keeps.same;
              distinct = h.keeps.distinct;
              within = h.keeps.within;
              room = r s.manager;
            };
            first = f;
          })
  ]
  step-Sound slots s (runs a) h = elim (Option-cases s.running) [
    | inl e ↦ rw (e, step) h
    | inr (t, e) ↦
        rw (e, step)
          (record {
            keeps =
                Keeps-run_stage_at dec slots t.stage s.manager t a
                  (record {
                    same = h.keeps.same;
                    distinct = h.keeps.distinct;
                    within = h.keeps.within;
                    room = tt;
                  })
                  (subst (Room s.manager) e h.keeps.room);
            first = h.first;
          })
  ]

  run-Sound :
      (slots : ℤ) (s : System K) (acts : List (Action K))
      → Sound slots s
      → Sound slots (run dec s acts)
  unfolding run
  run-Sound slots s [] h = h
  run-Sound slots s (a ∷ acts) h = run-Sound slots (step dec s a) acts (step-Sound slots s a h)

  length-deployed_keys :
      (hs : ℕ → Handle) (ops : List (K × TrackedOp))
      → length (deployed_keys hs ops) ≡ deployed_count hs ops
  unfolding deployed_keys deployed_count
  length-deployed_keys hs [] = refl
  length-deployed_keys hs ((k, o) ∷ ops) = elim (Bool-cases (is_deployed hs o)) [
    | inl e ↦ rw (e, deployed_keys) (ap suc (length-deployed_keys hs ops))
    | inr e ↦ rw (e, deployed_keys) (length-deployed_keys hs ops)
  ]

  -- Whatever calls of `EnsurePresent` and `EnsureAbsent` a new manager gets, between whatever stages of
  -- its goroutines, and whatever the compiler, the switch and the network answer,
  -- `GetDeployedNetworkFunctions` never returns more network functions than the manager has slots.
  pub get_deployed_network_functions_bound :
      (slots : ℤ) (has_interface : Bool) (acts : List (Action K)) (error : Option ℕ) (config : Text)
      (keys : List K)
      → get_deployed_network_functions
          (run dec (initial (new_manager slots has_interface)) acts).manager
          error
          config
        ≡ some keys
      → length keys ≤ pos_part slots
  unfolding get_deployed_network_functions length_or deployed_count
  get_deployed_network_functions_bound slots i acts (some e) config keys h = cc
  get_deployed_network_functions_bound slots i acts none [] keys h =
      let n : length {A = K} [] ≡ length keys = ap (length_or 0) h in omega (arith, n)
  get_deployed_network_functions_bound slots i acts none (x ∷ config) keys h =
      let s : Sound slots (run dec (initial (new_manager slots i)) acts) =
        run-Sound slots (initial (new_manager slots i)) acts (record {
          keeps = record { same = refl; distinct = tt; within = omega arith; room = tt };
          first = tt;
        }) in
      let m = (run dec (initial (new_manager slots i)) acts).manager in
      omega (arith, ap (length_or 0) h, length-deployed_keys m.handles m.ops, s.keeps.within)
