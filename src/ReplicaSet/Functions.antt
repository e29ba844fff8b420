-- ===== src/ReplicaSet/Functions.antt =====
-- util/rs_util.go: what the controller reads of network functions. Times are nanoseconds, 0 being
-- the zero time, and so close that their difference fits in an int64.
pub mod Availability
use iml.Common.{
  ℕ, zero, suc, ◌-◌, ◌*◌, ◌^◌, Bool, true, false, not, ◌&&◌, Option, none, some, List, [], ◌∷◌,
  if◌then◌else◌,
}
use iml.Common.Int.{ℤ, pos, negsuc, leb_ℤ, ltb_ℤ, ◌+ℤ◌, ◌-ℤ◌}
use iml.Common.Texts.{Text, text_eq}

pub data ConditionType : Type 0 where
  initialized ready scheduled disruption_target ready_to_start : ConditionType

pub data ConditionStatus : Type 0 where
  condition_true condition_false condition_unknown : ConditionStatus

pub record Condition : Type 0 where
  pub kind : ConditionType
  pub status : ConditionStatus
  pub last_transition : ℕ

pub data Phase : Type 0 where
  pending running failed : Phase

pub record NetworkFunction : Type 0 where
  pub uid : Text
  pub target_name : Text
  pub created : ℕ
  pub deleting : Bool
  pub phase : Phase
  pub conditions : List Condition

abbrev pub is_ready_kind : ConditionType → Bool
is_ready_kind ready = true
is_ready_kind _ = false

abbrev pub is_true : ConditionStatus → Bool
is_true condition_true = true
is_true _ = false

-- `GetNFCondition` at `NetworkFunctionReady`, and `GetNFReadyCondition`.
unfoldable pub ready_condition : List Condition → Option Condition
ready_condition [] = none
ready_condition (c ∷ cs) =
    let rest = ready_condition cs in if is_ready_kind c.kind then some c else rest

abbrev pub holds : Option Condition → Bool
holds none = false
holds (some c) = is_true c.status

unfoldable pub is_nf_ready : NetworkFunction → Bool
unfolding ready_condition
is_nf_ready nf = holds (ready_condition nf.conditions)

-- `time.Duration(s) * time.Second`
abbrev pub seconds : ℤ → ℤ
seconds (pos n) = pos (n * 10 ^ 9)
seconds (negsuc n) = negsuc (suc n * 10 ^ 9 - 1)

abbrev pub available_by : ℤ → ℕ → Option Condition → Bool
available_by min_ready now none = false
available_by min_ready now (some c) =
    is_true c.status && not (ltb_ℤ (pos now -ℤ pos c.last_transition) (seconds min_ready))

unfoldable pub is_nf_available : NetworkFunction → ℤ → ℕ → Bool
unfolding ready_condition
is_nf_available nf min_ready now = available_by min_ready now (ready_condition nf.conditions)

abbrev pub is_failed : Phase → Bool
is_failed failed = true
is_failed _ = false

unfoldable pub is_nf_active : NetworkFunction → Bool
is_nf_active nf = not (is_failed nf.phase) && not nf.deleting

unfoldable pub filter_active_nfs : List NetworkFunction → List NetworkFunction
unfolding is_nf_active
filter_active_nfs [] = []
filter_active_nfs (nf ∷ nfs) =
    let rest = filter_active_nfs nfs in if is_nf_active nf then nf ∷ rest else rest

-- The counts of `CountReplicas`, less the one of the labels.
unfoldable pub ready_count : List NetworkFunction → ℕ
unfolding is_nf_ready
ready_count [] = 0
ready_count (nf ∷ nfs) = let rest = ready_count nfs in if is_nf_ready nf then suc rest else rest

unfoldable pub available_count : ℤ → ℕ → List NetworkFunction → ℕ
unfolding is_nf_ready is_nf_available
available_count min_ready now [] = 0
available_count min_ready now (nf ∷ nfs) =
    let rest = available_count min_ready now nfs in
    if is_nf_ready nf && is_nf_available nf min_ready now then suc rest else rest

abbrev pub is_zero : ℕ → Bool
is_zero zero = true
is_zero (suc n) = false

abbrev pub check_by : ℤ → ℕ → Option Condition → Option ℤ
check_by min_ready now none = none
check_by min_ready now (some c) =
    let next = pos c.last_transition +ℤ seconds min_ready -ℤ pos now in
    if is_zero c.last_transition then none else if ltb_ℤ (pos 0) next then some next else none

-- `nextNFAvailabilityCheck`
unfoldable pub next_check : NetworkFunction → ℤ → ℕ → Option ℤ
unfolding is_nf_ready
next_check nf min_ready now =
    if not (is_nf_ready nf)
    then none
    else if leb_ℤ min_ready (pos 0)
    then none
    else check_by min_ready now (ready_condition nf.conditions)

abbrev pub earlier : Option ℤ → Option ℤ → Bool
earlier (some d) none = true
earlier (some d) (some e) = ltb_ℤ d e
earlier none _ = false

-- The duration that `findMinNextNFAvailabilitySimpleCheck` returns, with the least so far.
unfoldable pub find_min_check : ℤ → ℕ → Option ℤ → List NetworkFunction → Option ℤ
unfolding next_check
find_min_check min_ready now least [] = least
find_min_check min_ready now least (nf ∷ nfs) =
    let check = next_check nf min_ready now in
    find_min_check min_ready now (if earlier check least then check else least) nfs
