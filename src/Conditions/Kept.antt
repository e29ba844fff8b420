-- ===== src/Conditions/Kept.antt =====
-- nf_util.go and rs_util.go: setting a condition is read back, and keeps all others.
use iml.Common.{
  ℕ, zero, suc, ◌≡◌, refl, sym, ap, ◌∙◌, true, false, none, some, List, [], ◌∷◌, ◌++◌,
  if◌then◌else◌, Bool-cases, Option-cases, inl, inr,
}
use iml.Common.Texts.{Text, text_eq, text_eq_refl, eq_of_text_eq}
use iml.Conditions.{
  Condition, get_condition, filter_conditions, equal_conditions, same_state,
  set_nf_deployment_condition, timed, timed_by, set_condition,
}

same_state_refl : (c : Condition) → same_state c c ≡ true
same_state_refl c = rw (text_eq_refl c.status, text_eq_refl c.reason) refl

get_found :
    (cs : List Condition) (k : Text) (c : Condition)
    → text_eq c.kind k ≡ true
    → get_condition (filter_conditions cs k ++ c ∷ []) k ≡ some c
unfolding get_condition filter_conditions
get_found [] k c h = rw (h, get_condition) refl
get_found (d ∷ cs) k c h = elim (Bool-cases (text_eq d.kind k)) [
  | inl e ↦ rw (e, filter_conditions) (get_found cs k c h)
  | inr e ↦ rw (e, filter_conditions, get_condition) (rw e (get_found cs k c h))
]

-- Another condition is read as before.
get_other :
    (cs : List Condition) (k j : Text) (c : Condition)
    → text_eq c.kind j ≡ false
    → text_eq k j ≡ false
    → get_condition (filter_conditions cs k ++ c ∷ []) j ≡ get_condition cs j
unfolding get_condition filter_conditions
get_other [] k j c h n = rw (h, get_condition) refl
get_other (d ∷ cs) k j c h n = elim (Bool-cases (text_eq d.kind k)) [
  | inl e ↦
      let skipped : text_eq d.kind j ≡ false =
        ap (λ x. text_eq x j) (eq_of_text_eq d.kind k e) ∙ n in
      rw (e, skipped, filter_conditions, get_condition) (get_other cs k j c h n)
  | inr e ↦
      rw (e, filter_conditions, get_condition)
        (ap (λ r. if text_eq d.kind j then some d else r) (get_other cs k j c h n))
]

get_added :
    (cs : List Condition) (j : Text) (c : Condition)
    → text_eq c.kind j ≡ false
    → get_condition (cs ++ c ∷ []) j ≡ get_condition cs j
unfolding get_condition
get_added [] j c h = rw (h, get_condition) refl
get_added (d ∷ cs) j c h = ap (λ r. if text_eq d.kind j then some d else r) (get_added cs j c h)

-- `SetNfDeploymentCondition` leaves a condition of the given type with the given status and reason,
-- and every condition of another type as it was.
pub get-set_nf_deployment_condition :
    (cs : List Condition) (c : Condition) (j : Text)
    → text_eq c.kind j ≡ false
    → (r : Condition) × (get_condition (set_nf_deployment_condition cs c) c.kind ≡ some r)
      × (same_state r c ≡ true)
      × (get_condition (set_nf_deployment_condition cs c) j ≡ get_condition cs j)
unfolding set_nf_deployment_condition
get-set_nf_deployment_condition cs c j n = elim (Option-cases (get_condition cs c.kind)) [
  | inl e ↦
      rw (e, set_nf_deployment_condition)
        (
          c,
          get_found cs c.kind c (text_eq_refl c.kind),
          same_state_refl c,
          get_other cs c.kind j c n n,
        )
  | inr (d, e) ↦ elim (Bool-cases (same_state d c)) [
    | inl s ↦ rw (e, s, set_nf_deployment_condition) (d, e, s, refl)
    | inr s ↦ elim (Bool-cases (text_eq d.status c.status)) [
      | inl t ↦
          rw (e, s, t, set_nf_deployment_condition)
            (
              c,
              get_found cs c.kind c (text_eq_refl c.kind),
              same_state_refl c,
              get_other cs c.kind j c n n,
            )
      | inr t ↦
          let r = record c { last_transition = d.last_transition } in
          rw (e, s, t, set_nf_deployment_condition)
            (
              r,
              get_found cs c.kind r (text_eq_refl c.kind),
              same_state_refl c,
              get_other cs c.kind j r n n,
            )
    ]
  ]
]

-- Where `SetNfDeploymentCondition` changes the status of a condition, the condition keeps the time of
-- its last transition, and where it changes only the reason, it takes the time of the given one.
pub set_nf_deployment_condition_time :
    (cs : List Condition) (c d : Condition)
    → get_condition cs c.kind ≡ some d
    → same_state d c ≡ false
    → get_condition (set_nf_deployment_condition cs c) c.kind
      ≡ some (
          if text_eq d.status c.status then c else record c { last_transition = d.last_transition })
unfolding set_nf_deployment_condition
set_nf_deployment_condition_time cs c d e s = elim (Bool-cases (text_eq d.status c.status)) [
  | inl t ↦ rw (e, s, t, set_nf_deployment_condition) (get_found cs c.kind c (text_eq_refl c.kind))
  | inr t ↦
      rw (e, s, t, set_nf_deployment_condition)
        (get_found cs c.kind (record c { last_transition = d.last_transition })
          (text_eq_refl c.kind))
]

get_appended :
    (cs : List Condition) (k : Text) (c : Condition)
    → get_condition cs k ≡ none
    → text_eq c.kind k ≡ true
    → get_condition (cs ++ c ∷ []) k ≡ some c
unfolding get_condition
get_appended [] k c = λ n h. rw (h, get_condition) refl
get_appended (d ∷ cs) k c = elim (Bool-cases (text_eq d.kind k)) [
  | inl e ↦ rw (e, get_condition) (λ n h. cc)
  | inr e ↦ rw (e, get_condition) (λ n h. get_appended cs k c n h)
]

equal_conditions_refl : (c : Condition) → equal_conditions c c ≡ true
unfolding equal_conditions
equal_conditions_refl c =
    rw (text_eq_refl c.kind, text_eq_refl c.status, text_eq_refl c.reason, text_eq_refl c.message)
      refl

timed-equal_conditions :
    (now t : ℕ) (c : Condition)
    → (equal_conditions c (timed_by now t c) ≡ true) × (c.kind ≡ (timed_by now t c).kind)
unfolding equal_conditions
timed-equal_conditions now zero c = (equal_conditions_refl c, refl)
timed-equal_conditions now (suc t) c = (equal_conditions_refl c, refl)

-- `SetCondition` leaves a condition of the given type that is equal to the given one but for the time
-- of its last transition, and every condition of another type as it was.
pub get-set_condition :
    (now : ℕ) (cs : List Condition) (c : Condition) (j : Text)
    → text_eq c.kind j ≡ false
    → (r : Condition) × (get_condition (set_condition now cs c) c.kind ≡ some r)
      × (equal_conditions c r ≡ true)
      × (get_condition (set_condition now cs c) j ≡ get_condition cs j)
unfolding set_condition
get-set_condition now cs c j n = elim (Option-cases (get_condition cs c.kind)) [
  | inl e ↦
      let (eq, k) = timed-equal_conditions now c.last_transition c in
      rw (e, set_condition)
        (
          timed now c,
          get_appended cs c.kind (timed now c) e
              (ap (λ x. text_eq x c.kind) (sym k) ∙ text_eq_refl c.kind),
          eq,
          get_added cs j (timed now c) (ap (λ x. text_eq x j) (sym k) ∙ n),
        )
  | inr (d, e) ↦ elim (Bool-cases (equal_conditions c d)) [
    | inl s ↦ rw (e, s, set_condition) (d, e, s, refl)
    | inr s ↦
        let r = record c { last_transition = d.last_transition } in
        rw (e, s, set_condition)
          (
            r,
            get_found cs c.kind r (text_eq_refl c.kind),
            equal_conditions_refl c,
            get_other cs c.kind j r n n,
          )
  ]
]
