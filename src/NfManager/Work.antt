-- ===== src/NfManager/Work.antt =====
-- nf_mgr.go: the stages of `runDeployment` and `runDeletion`, a function each: the manager's lock keeps
-- other goroutines out while one runs, but `EnsurePresent` and `EnsureAbsent` do not take it. What the
-- compiler, the switch and the network answer is an argument.
use iml.Common.{Bool, false, not, ◌&&◌, ◌||◌, Option, none, some, if◌then◌else◌}
use iml.Common.Int.{pos, leb_ℤ, ◌-ℤ◌}
use iml.Common.Maps.{insert, delete}
use iml.Common.Texts.{Text, text_eq}
use iml.Ipam.Netip.{no_prefix, prefix_is_valid}
use iml.NfManager.Handle.{
  Phase, compiling, pre_check, deploying, network_setup, ready, draining, deleting, deleted, failed,
  Failure, external, no_slots, no_program, invalid_parameters, transition,
}
use iml.NfManager.Manager.{
  Manager, Stage, Task, Answers, failure_of, is_present, is_ready, set_handle, deployed_count,
  find_op, delete_op, to_compile, to_check, to_deploy, to_set_up, to_drain, to_delete,
}

module _ {K : Type 0} (dec : Discrete K) where
  -- The handle of a task, moved to a phase.
  unfoldable pub move : Manager K → Task K → Phase → Option Failure → Manager K
  unfolding set_handle
  move m t phase err = record m {
    handles = set_handle m.handles t.handle (transition (m.handles t.handle) phase err);
  }

  unfoldable pub pre_check_slots : Manager K → Option Failure
  unfolding deployed_count
  pre_check_slots m =
      if leb_ℤ (m.max_nf_slots -ℤ pos (deployed_count m.handles m.ops)) (pos 0)
      then some no_slots
      else none

  unfoldable pub compile : Manager K → Task K → Answers → Manager K × Option Failure
  compile m t a = elim a.compiled [
    | none ↦ (m, some (external a.compile_error))
    | some config ↦ (
      record m {
        programs =
            insert dec t.function.key (record { config = config; ip = no_prefix }) m.programs;
      },
      none,
    )
  ]

  abbrev pub has_config : Option Text → Text → Bool
  has_config none config = false
  has_config (some c) config = text_eq c config

  -- A program that the switch has already is not sent again.
  unfoldable pub deploy : Manager K → Task K → Answers → Option Failure
  deploy m t a = elim (m.programs t.function.key) [
    | none ↦ some no_program
    | some p ↦ if has_config a.pipeline p.config then none else failure_of a.deploy_error
  ]

  -- The failure of `AddrAdd`, and the program with its address.
  unfoldable pub set_up_network_forwarding :
      Manager K → Task K → Answers → Manager K × Option Failure
  set_up_network_forwarding m t a = elim (m.programs t.function.key) [
    | none ↦ (m, some invalid_parameters)
    | some p ↦
        if not m.has_interface || not (prefix_is_valid t.function.ip)
        then (m, some invalid_parameters)
        else elim (failure_of a.network_error) [
          | some e ↦ (m, some e)
          | none ↦ (
            record m {
              programs = insert dec t.function.key (record p { ip = t.function.ip }) m.programs;
            },
            none,
          )
        ]
  ]

  -- The forwarding is torn down, and then the pipeline is reset.
  abbrev pub reset_pipeline : Answers → Option Failure
  reset_pipeline a = elim a.network_error [
    | some e ↦ some (external e)
    | none ↦ failure_of a.reset_error
  ]

  unfoldable pub delete_resources : Manager K → Task K → Answers → Manager K × Option Failure
  unfolding find_op delete_op
  delete_resources m t a = elim (find_op dec t.function.key m.ops) [
    | none ↦ (m, none)
    | some o ↦ elim (m.programs t.function.key) [
      | none ↦ (record m { ops = delete_op dec t.function.key m.ops }, none)
      | some p ↦
          if is_present o.op_type && not (is_ready (m.handles o.handle).status.phase)
          then (
            record m {
              ops = delete_op dec t.function.key m.ops;
              programs = delete dec t.function.key m.programs;
            },
            none,
          )
          else (m, reset_pipeline a)
    ]
  ]

  abbrev pub next_task : Task K → Stage → Option (Task K)
  next_task t s = some (record t { stage = s })

  -- What follows a stage: the next one, or the end in a failure.
  unfoldable pub then_or_fail :
      Manager K × Option Failure → Task K → Stage → Manager K × Option (Task K)
  unfolding move
  then_or_fail (m, none) t s = (m, next_task t s)
  then_or_fail (m, some e) t s = (move m t failed (some e), none)

  unfoldable pub end_or_fail :
      Manager K × Option Failure → Task K → Phase → Manager K × Option (Task K)
  unfolding move
  end_or_fail (m, none) t p = (move m t p none, none)
  end_or_fail (m, some e) t p = (move m t failed (some e), none)

  -- One stage of `runDeployment` or `runDeletion`. `drain` does nothing.
  unfoldable pub run_stage_at : Stage → Manager K → Task K → Answers → Manager K × Option (Task K)
  unfolding move compile pre_check_slots deploy set_up_network_forwarding delete_resources
      then_or_fail end_or_fail
  run_stage_at to_compile m t a = then_or_fail (compile (move m t compiling none) t a) t to_check
  run_stage_at to_check m t a =
      let m' = move m t pre_check none in then_or_fail (m', pre_check_slots m') t to_deploy
  run_stage_at to_deploy m t a =
      let m' = move m t deploying none in then_or_fail (m', deploy m' t a) t to_set_up
  run_stage_at to_set_up m t a =
      end_or_fail (set_up_network_forwarding (move m t network_setup none) t a) t ready
  run_stage_at to_drain m t a = (move m t draining none, next_task t to_delete)
  run_stage_at to_delete m t a =
      end_or_fail (delete_resources (move m t deleting none) t a) t deleted

  unfoldable pub run_stage : Manager K → Task K → Answers → Manager K × Option (Task K)
  unfolding run_stage_at
  run_stage m t a = run_stage_at t.stage m t a
