-- ===== src/ReplicaSet/Status/Failure.antt =====
-- status.go: the condition of a failure.
use iml.Common.{
  ℕ, zero, suc, ◌≡◌, refl, ap, ◌∙◌, Bool, true, false, Option, none, some, List, [], ◌∷◌, ◌++◌,
  Bool-cases, Option-cases, inl, inr, length,
}
use iml.Common.Texts.{Text, text_eq, text_eq_refl}
use iml.Conditions.{Condition, get_condition, set_condition, filter_conditions, timed, timed_by}
use iml.ReplicaSet.Functions.{NetworkFunction}
use iml.ReplicaSet.Status.{
  Words, ReplicaSet, calculate_status, failure_conditions, failure_condition, failure_reason,
}

abbrev pub is_some : {A : Type 0} → Option A → Bool
is_some none = false
is_some (some a) = true

get-filter : (cs : List Condition) (k : Text) → get_condition (filter_conditions cs k) k ≡ none
unfolding get_condition filter_conditions
get-filter [] k = refl
get-filter (c ∷ cs) k = elim (Bool-cases (text_eq c.kind k)) [
  | inl e ↦ rw (e, filter_conditions) (get-filter cs k)
  | inr e ↦ rw (e, filter_conditions) (rw (e, get_condition) (get-filter cs k))
]

get-end :
    (cs : List Condition) (c : Condition) (k : Text)
    → get_condition cs k ≡ none
    → text_eq c.kind k ≡ true
    → get_condition (cs ++ c ∷ []) k ≡ some c
unfolding get_condition
get-end [] c k n e = rw (e, get_condition) refl
get-end (d ∷ cs) c k n e = elim (Bool-cases (text_eq d.kind k)) [
  | inl q ↦ let found = rw q at n in cc
  | inr q ↦ rw (q, get_condition) (get-end cs c k (rw q at n) e)
]

timed_kind : (now t : ℕ) (c : Condition) → (timed_by now t c).kind ≡ c.kind
timed_kind now zero c = refl
timed_kind now (suc t) c = refl

get-set_condition-none :
    (now : ℕ) (cs : List Condition) (c : Condition)
    → get_condition cs c.kind ≡ none
    → get_condition (set_condition now cs c) c.kind ≡ some (timed now c)
unfolding set_condition
get-set_condition-none now cs c e =
    rw (e, set_condition)
      (get-end cs (timed now c) c.kind e (
        ap (λ (k : Text). text_eq k c.kind) (timed_kind now c.last_transition c)
        ∙ text_eq_refl c.kind))

failure_conditions-failure :
    (words : Words) (now : ℕ) (cs : List Condition) (error : Option Text) (reason : Text)
    → is_some (get_condition (failure_conditions words now cs error reason) words.replica_failure)
      ≡ is_some error
unfolding failure_conditions set_condition
failure_conditions-failure words now cs none reason =
    elim (Option-cases (get_condition cs words.replica_failure)) [
      | inl e ↦ rw (e, failure_conditions) (ap is_some e)
      | inr (c, e) ↦ rw (e, failure_conditions) (ap is_some (get-filter cs words.replica_failure))
    ]
failure_conditions-failure words now cs (some message) reason =
    elim (Option-cases (get_condition cs words.replica_failure)) [
      | inl e ↦
          rw (e, failure_conditions)
            (ap is_some
              (get-set_condition-none now cs (failure_condition words now reason message) e))
      | inr (c, e) ↦ rw (e, failure_conditions) (ap is_some e)
    ]

-- After a reconciliation the status has the condition of a failure exactly when `manageReplicas`
-- returned an error, whatever the conditions were before.
pub calculate_status-failure :
    (words : Words) (labeled : NetworkFunction → Bool) (rs : ReplicaSet)
    (nfs : List NetworkFunction) (error : Option Text) (now : ℕ)
    → is_some (
        get_condition
          (calculate_status words labeled rs nfs error now).conditions
          words.replica_failure)
      ≡ is_some error
unfolding calculate_status
calculate_status-failure words labeled rs nfs error now =
    failure_conditions-failure words now rs.status.conditions error
      (failure_reason words (length nfs) rs.wanted)
