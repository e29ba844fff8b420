-- ===== src/ReplicaSet/Order.antt =====
-- util/sorting.go and the choice of the network functions to delete (util/rs_util.go). What
-- `int64(math.Log2(float64(d)))` gives for a positive duration is a parameter, since floating-point
-- numbers are not modelled, and so is Go's sort.Sort.
pub mod Less
pub mod Chosen
mod Tests
use iml.Common.{
  ℕ, zero, suc, ◌-◌, Bool, true, false, not, ◌&&◌, ◌||◌, ◌==◌, Option, none, some, List, [], ◌∷◌,
  ltb, if◌then◌else◌, length, map,
}
use iml.Common.Int.{ℤ, pos, negsuc, ltb_ℤ, eqb_ℤ, ◌-ℤ◌}
use iml.Common.Texts.{Text, text_eq, text_lt}
use iml.ReplicaSet.Functions.{
  NetworkFunction, Phase, running, Condition, is_true, is_ready_kind, is_nf_ready, is_nf_active,
  is_zero,
}

-- A network function with its rank.
pub record Ranked : Type 0 where
  pub nf : NetworkFunction
  pub rank : ℕ

-- `nfPhaseToOrdinal`: what the map lacks is 0.
abbrev pub phase_ordinal : Phase → ℕ
phase_ordinal running = 1
phase_ordinal _ = 0

abbrev pub is_empty : Text → Bool
is_empty [] = true
is_empty (x ∷ xs) = false

abbrev pub first_ready : List Condition → ℕ
first_ready [] = 0
first_ready (c ∷ cs) =
    if is_ready_kind c.kind && is_true c.status then c.last_transition else first_ready cs

unfoldable pub nf_ready_time : NetworkFunction → ℕ
unfolding is_nf_ready
nf_ready_time nf = if is_nf_ready nf then first_ready nf.conditions else 0

abbrev pub after_or_zero : ℕ → ℕ → Bool
after_or_zero t u = if is_zero t || is_zero u then is_zero t else ltb u t

abbrev pub bool_eq : Bool → Bool → Bool
bool_eq true b = b
bool_eq false b = not b

module _ (log2 : ℕ → ℕ) (now : ℕ) where
  abbrev pub log_rank : ℕ → ℤ
  log_rank t = if ltb t now then pos (log2 (now - t)) else negsuc 0

  unfoldable pub logarithmic_rank_diff : ℕ → ℕ → ℤ
  logarithmic_rank_diff t u = log_rank t -ℤ log_rank u

  -- Two times that differ, of network functions with the given identifiers.
  unfoldable pub time_less : ℕ → ℕ → Text → Text → Bool
  unfolding logarithmic_rank_diff
  time_less t u a b =
      if is_zero now || is_zero t || is_zero u
      then after_or_zero t u
      else if eqb_ℤ (logarithmic_rank_diff t u) (pos 0)
      then text_lt a b
      else ltb_ℤ (logarithmic_rank_diff t u) (pos 0)

  -- The rules 5 and 7, and the rule before them.
  unfoldable pub created_less : NetworkFunction → NetworkFunction → Bool
  unfolding time_less
  created_less a b =
      if not (a.created == b.created) then time_less a.created b.created a.uid b.uid else false

  unfoldable pub ready_less : NetworkFunction → NetworkFunction → Bool
  unfolding is_nf_ready nf_ready_time time_less created_less
  ready_less a b =
      if is_nf_ready a && is_nf_ready b && not (nf_ready_time a == nf_ready_time b)
      then time_less (nf_ready_time a) (nf_ready_time b) a.uid b.uid
      else created_less a b

  unfoldable pub less : Ranked → Ranked → Bool
  unfolding is_nf_ready ready_less
  less x y =
      let a = x.nf in
      let b = y.nf in
      if not (text_eq a.target_name b.target_name)
        && (is_empty a.target_name || is_empty b.target_name)
      then is_empty a.target_name
      else if not (phase_ordinal a.phase == phase_ordinal b.phase)
      then ltb (phase_ordinal a.phase) (phase_ordinal b.phase)
      else if not (bool_eq (is_nf_ready a) (is_nf_ready b))
      then not (is_nf_ready a)
      else if not (x.rank == y.rank)
      then ltb y.rank x.rank
      else ready_less a b

-- The number of active network functions on a target.
unfoldable pub nfs_on_target : Text → List NetworkFunction → ℕ
unfolding is_nf_active
nfs_on_target target [] = 0
nfs_on_target target (nf ∷ nfs) =
    let rest = nfs_on_target target nfs in
    if is_nf_active nf && text_eq nf.target_name target then suc rest else rest

unfoldable pub ranked : List NetworkFunction → List NetworkFunction → List Ranked
unfolding nfs_on_target
ranked related [] = []
ranked related (nf ∷ nfs) =
    record { nf = nf; rank = nfs_on_target nf.target_name related } ∷ ranked related nfs

abbrev pub unranked : List Ranked → List NetworkFunction
unranked = map (λ (x : Ranked). x.nf)

abbrev pub take : ℕ → List NetworkFunction → List NetworkFunction
take zero nfs = []
take (suc n) [] = []
take (suc n) (nf ∷ nfs) = nf ∷ take n nfs

-- `filteredNFs[:diff]` panics if there are fewer: none.
abbrev pub first_nfs : List NetworkFunction → ℕ → Option (List NetworkFunction)
first_nfs nfs diff = if ltb (length nfs) diff then none else some (take diff nfs)

module _ (sort : (Ranked → Ranked → Bool) → List Ranked → List Ranked) (log2 : ℕ → ℕ) where
  -- The list is sorted in place.
  unfoldable pub get_nfs_to_delete :
      ℕ → List NetworkFunction → List NetworkFunction → ℕ → Option (List NetworkFunction)
  unfolding ranked less
  get_nfs_to_delete now nfs related diff =
      first_nfs
        (if ltb diff (length nfs)
          then unranked (sort (less log2 now) (ranked related nfs))
          else nfs)
        diff
