-- ===== src/NfManager/Manager.antt =====
-- nf_mgr.go: the state of the manager and its operations. Handles are shared, by the tracked
-- operations and by the goroutines, so that they live in a store of their own, under numbers that
-- are given out in order.
use iml.Common.{
  ℕ, suc, Bool, true, false, ◌&&◌, ◌==◌, Option, none, some, List, [], ◌∷◌, ite, if◌then◌else◌,
}
use iml.Common.Int.{ℤ}
use iml.Common.Maps.{Map}
use iml.Common.Texts.{Text}
use iml.Ipam.Netip.{Prefix}
use iml.NfManager.Handle.{Phase, ready, Failure, external, Handle, new_deployment_handle, cancel}

pub record Program : Type 0 where
  pub config : Text
  pub ip : Prefix

pub data OpType : Type 0 where
  op_present op_absent : OpType

pub record TrackedOp : Type 0 where
  pub handle : ℕ
  pub op_type : OpType

-- A network function with the address that it is to have.
pub record Function (K : Type 0) : Type 0 where
  pub key : K
  pub ip : Prefix

pub record Manager (K : Type 0) : Type 0 where
  pub max_nf_slots : ℤ
  pub has_interface : Bool
  pub programs : Map K Program
  pub ops : List (K × TrackedOp)
  pub handles : ℕ → Handle
  pub next : ℕ

-- The stages of the two goroutines, and the end of them.
pub data Stage : Type 0 where
  to_compile to_check to_deploy to_set_up : Stage
  to_drain to_delete : Stage

pub record Task (K : Type 0) : Type 0 where
  pub function : Function K
  pub handle : ℕ
  pub stage : Stage

-- What is outside the driver answers: the compiled program, the configuration that the switch has,
-- and whether the requests to the switch and to the network fail.
pub record Answers : Type 0 where
  pub compiled : Option Text
  pub compile_error : ℕ
  pub pipeline : Option Text
  pub deploy_error : Option ℕ
  pub network_error : Option ℕ
  pub reset_error : Option ℕ

abbrev pub failure_of : Option ℕ → Option Failure
failure_of none = none
failure_of (some n) = some (external n)

abbrev pub is_present : OpType → Bool
is_present op_present = true
is_present op_absent = false

abbrev pub is_ready : Phase → Bool
is_ready ready = true
is_ready _ = false

unfoldable pub set_handle : (ℕ → Handle) → ℕ → Handle → ℕ → Handle
set_handle hs i h j = if j == i then h else hs j

-- Whether an operation has put its network function on the switch.
abbrev pub is_deployed : (ℕ → Handle) → TrackedOp → Bool
is_deployed hs o = is_present o.op_type && is_ready (hs o.handle).status.phase

abbrev pub one_if : Bool → ℕ → ℕ
one_if true n = suc n
one_if false n = n

unfoldable pub deployed_count : {K : Type 0} → (ℕ → Handle) → List (K × TrackedOp) → ℕ
deployed_count hs [] = 0
deployed_count hs ((k, o) ∷ ops) = one_if (is_deployed hs o) (deployed_count hs ops)

unfoldable pub deployed_keys : {K : Type 0} → (ℕ → Handle) → List (K × TrackedOp) → List K
deployed_keys hs [] = []
deployed_keys hs ((k, o) ∷ ops) =
    let rest = deployed_keys hs ops in if is_deployed hs o then k ∷ rest else rest

-- `GetDeployedNetworkFunctions`, given the error of the query or the configuration of the switch.
unfoldable pub get_deployed_network_functions :
    {K : Type 0} → Manager K → Option ℕ → Text → Option (List K)
unfolding deployed_keys
get_deployed_network_functions m (some e) config = none
get_deployed_network_functions m none [] = some []
get_deployed_network_functions m none (x ∷ config) = some (deployed_keys m.handles m.ops)

module _ {K : Type 0} (dec : Discrete K) where
  -- The Go map of operations, as an association list: `m.ops[key]`, `m.ops[key] = op` and `delete`.
  unfoldable pub find_op : K → List (K × TrackedOp) → Option TrackedOp
  find_op k [] = none
  find_op k ((j, o) ∷ ops) = let rest = find_op k ops in ite (dec k j) (some o) rest

  unfoldable pub put_op : K → TrackedOp → List (K × TrackedOp) → List (K × TrackedOp)
  put_op k o [] = (k, o) ∷ []
  put_op k o ((j, p) ∷ ops) =
      let rest = put_op k o ops in ite (dec k j) ((k, o) ∷ ops) ((j, p) ∷ rest)

  unfoldable pub delete_op : K → List (K × TrackedOp) → List (K × TrackedOp)
  delete_op k [] = []
  delete_op k ((j, p) ∷ ops) = let rest = delete_op k ops in ite (dec k j) rest ((j, p) ∷ rest)

  abbrev pub first_stage : OpType → Stage
  first_stage op_present = to_compile
  first_stage op_absent = to_drain

  -- A fresh handle for the operation, and the goroutine that it starts.
  unfoldable pub track : Manager K → OpType → Function K → Manager K × Task K
  unfolding put_op set_handle
  track m type f = (
    record m {
      ops = put_op f.key (record { handle = m.next; op_type = type }) m.ops;
      handles = set_handle m.handles m.next new_deployment_handle;
      next = suc m.next;
    },
    record { function = f; handle = m.next; stage = first_stage type },
  )

  abbrev pub same_type : OpType → OpType → Bool
  same_type op_present op_present = true
  same_type op_absent op_absent = true
  same_type _ _ = false

  abbrev pub start : {A : Type 0} → A × Task K → A × ℕ × Option (Task K)
  start (m, t) = (m, t.handle, some t)

  -- `EnsurePresent` and `EnsureAbsent`: the manager, the handle returned, and the goroutine if one is
  -- started. An operation of the other type is canceled.
  unfoldable pub ensure : Manager K → OpType → Function K → Manager K × ℕ × Option (Task K)
  unfolding find_op track set_handle
  ensure m type f = elim (find_op f.key m.ops) [
    | none ↦ start (track m type f)
    | some existing ↦
        let stopped = record m {
          handles = set_handle m.handles existing.handle (cancel (m.handles existing.handle));
        } in
        if same_type existing.op_type type
        then (m, existing.handle, none)
        else start (track stopped type f)
  ]
