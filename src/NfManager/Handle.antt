-- ===== src/NfManager/Handle.antt =====
-- nf_mgr_types.go: the handle of an operation. Its channel of events is a list, the oldest first,
-- from which a reader may take; the texts of the messages are left out. An error of the switch, the
-- compiler or the network is a number.
use iml.Common.{
  ℕ, suc, Bool, true, false, Option, none, some, List, [], ◌∷◌, ◌++◌, length, ltb, if◌then◌else◌,
}

pub data Phase : Type 0 where
  compiling pre_check deploying network_setup ready : Phase
  draining deleting deleted : Phase
  pending failed canceled : Phase

pub data Failure : Type 0 where
  external : ℕ → Failure
  context_canceled no_slots no_program invalid_parameters : Failure

-- `DeploymentStatus` and `DeploymentEvent`.
pub record Status : Type 0 where
  pub phase : Phase
  pub err : Option Failure

-- `closes` counts how often the channels `done` and `events` have been closed.
pub record Handle : Type 0 where
  pub status : Status
  pub events : List Status
  pub closes : ℕ
  pub context_done : Bool

unfoldable pub new_deployment_handle : Handle
new_deployment_handle = record {
  status = record { phase = pending; err = none };
  events = [];
  closes = 0;
  context_done = false;
}

abbrev pub is_terminal : Phase → Bool
is_terminal ready = true
is_terminal failed = true
is_terminal canceled = true
is_terminal deleted = true
is_terminal _ = false

abbrev pub is_closed : Handle → Bool
is_closed h = ltb 0 h.closes

-- A send on a closed channel panics, which is recovered; a full channel drops the event.
unfoldable pub emit_event : Handle → Status → Handle
emit_event h s =
    if is_closed h
    then h
    else if ltb (length h.events) 10
    then record h { events = h.events ++ s ∷ [] }
    else h

-- `once.Do`: a second call does nothing.
unfoldable pub finish : Handle → Handle
finish h = if is_closed h then h else record h { closes = suc h.closes }

unfoldable pub transition : Handle → Phase → Option Failure → Handle
unfolding emit_event finish
transition h phase err =
    let s : Status = record { phase = phase; err = err } in
    let sent = emit_event (record h { status = s }) s in
    if is_terminal h.status.phase then h else if is_terminal phase then finish sent else sent

unfoldable pub cancel : Handle → Handle
unfolding transition
cancel h = transition (record h { context_done = true }) canceled (some context_canceled)
