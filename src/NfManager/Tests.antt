-- ===== src/NfManager/Tests.antt =====
-- A manager with one slot: network functions are named by numbers.
use iml.Common.{
  ℕ, suc, ◌*◌, ◌≤◌, ◌≡◌, refl, Bool, true, false, Option, none, some, List, [], ◌∷◌, length, arith,
  if◌then◌else◌, ℕ_discrete,
}
use iml.Common.Int.{ℤ, pos}
use iml.Ipam.Netip.{prefix, v4}
use iml.NfManager.Handle.{new_deployment_handle, is_terminal, compiling, ready}
use iml.NfManager.Manager.{Answers, Function, op_present, get_deployed_network_functions}
use iml.NfManager.System.{System, Action, ensures, locks, runs, new_manager, initial, run}
use iml.NfManager.Slots.Bound.{get_deployed_network_functions_bound}
use iml.NfManager.Closing.{Call, moves, cancels, calls, calls-closes}

abbrev fine : Answers
fine = record {
  compiled = some (1 ∷ []);
  compile_error = 0;
  pipeline = none;
  deploy_error = none;
  network_error = none;
  reset_error = none;
}

abbrev function : ℕ → Function ℕ
function k = record { key = k; ip = prefix v4 (k * 256) 24 }

abbrev one_slot : System ℕ
one_slot = initial (new_manager (pos 1) true)

-- The second network function fails its check: the first has the only slot.
abbrev two_wanted : List (Action ℕ)
two_wanted =
    ensures op_present (function 7)
    ∷ ensures op_present (function 8)
    ∷ locks 1
    ∷ runs fine
    ∷ runs fine
    ∷ runs fine
    ∷ runs fine
    ∷ locks 0
    ∷ runs fine
    ∷ runs fine
    ∷ []

first_deployed :
    get_deployed_network_functions (run ℕ_discrete one_slot two_wanted).manager none (1 ∷ [])
    ≡ some (7 ∷ [])
unfolding get_deployed_network_functions run ℕ_discrete iml.Common.Int.◌-ℤ◌
    iml.NfManager.Handle.transition new_deployment_handle
first_deployed = refl

get_deployed_network_functions_bound_example : length {A = ℕ} (7 ∷ []) ≤ 1
get_deployed_network_functions_bound_example =
    get_deployed_network_functions_bound ℕ_discrete (pos 1) true two_wanted none (1 ∷ []) (7 ∷ [])
      first_deployed

abbrev canceled_late : List Call
canceled_late = moves compiling none ∷ moves ready none ∷ cancels ∷ []

calls-closes_example :
    let h = calls new_deployment_handle canceled_late in
    (h.closes ≡ (if is_terminal h.status.phase then 1 else 0)) × (length h.events ≤ 10)
calls-closes_example = calls-closes canceled_late
