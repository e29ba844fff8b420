-- ===== src/P4Target/Conditions.antt =====
-- p4target_mgr.go: the conditions that a target reports. Times and messages are left out.
use iml.Common.{
  ℕ, ◌≡◌, Bool, true, false, not, ◌&&◌, ◌↔◌, Option, none, some, List, if◌then◌else◌, length, arith,
}
use iml.Common.Int.{ℤ, pos, leb_ℤ, -ℤ_parts}
use iml.Ipam.Netip.{prefix_is_valid}
use iml.P4Target.Manager.{Manager, get_allocatable}

pub data ConditionType : Type 0 where
  healthy ready network_configured occupied : ConditionType

pub data Reason : Type 0 where
  switch_unreachable switch_reachable target_ready target_not_ready : Reason
  no_cidr cidr_configured no_slots_available slots_available : Reason

-- `status` is whether the status is "True"; it is "False" otherwise.
pub record Condition : Type 0 where
  pub kind : ConditionType
  pub status : Bool
  pub reason : Reason

-- Given the error of the request for the switch's capabilities.
unfoldable pub get_healthy_condition : Option ℕ → Condition
get_healthy_condition (some e) = record {
  kind = healthy;
  status = false;
  reason = switch_unreachable;
}
get_healthy_condition none = record { kind = healthy; status = true; reason = switch_reachable }

unfoldable pub get_ready_condition : Condition → Condition → Condition
get_ready_condition healthy_cond netconf_cond =
    if healthy_cond.status && netconf_cond.status
    then record { kind = ready; status = true; reason = target_ready }
    else record { kind = ready; status = false; reason = target_not_ready }

unfoldable pub get_network_configured_condition : Manager → Condition
get_network_configured_condition m =
    if not (prefix_is_valid m.cidr)
    then record { kind = network_configured; status = false; reason = no_cidr }
    else record { kind = network_configured; status = true; reason = cidr_configured }

unfoldable pub get_occupied_condition : Manager → Condition
get_occupied_condition m =
    if leb_ℤ m.max_nf_slots (pos (length m.allocated_ips))
    then record { kind = occupied; status = true; reason = no_slots_available }
    else record { kind = occupied; status = false; reason = slots_available }

-- A target reports that it is occupied exactly when it offers no more slots.
pub get_occupied_condition_iff :
    (m : Manager) (tables : Option (List ℤ)) (used : Option (List ℕ))
    → ((get_occupied_condition m).status ≡ true)
      ↔ ((get_allocatable m tables used).nf_slots ≡ pos 0)
unfolding get_occupied_condition get_allocatable
get_occupied_condition_iff m tables used =
    ground (arith, -ℤ_parts m.max_nf_slots (pos (length m.allocated_ips)))
