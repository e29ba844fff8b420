-- ===== src/NfManager/Slots/Handles.antt =====
-- nf_mgr_types.go: what a transition makes of a handle, and of those that count as deployed.
use iml.Common.{
  ℕ, ◌≡◌, refl, ap, sym, ◌∙◌, subst, true, false, ◌&&◌, ◌==◌, Option, if◌then◌else◌, arith,
  Bool-cases, inl, inr, ltb, length,
}
use mathlib.Core.Bool.{false≢true, and-false}
use iml.NfManager.Handle.{
  Phase, Failure, Status, Handle, new_deployment_handle, is_terminal, is_closed, transition,
  emit_event, finish,
}
use iml.NfManager.Manager.{OpType, is_ready, is_present, is_deployed, set_handle}
use iml.NfManager.Slots.Count.{Calmer, SameBut}

pub emit_event-status : (h : Handle) (s : Status) → (emit_event h s).status ≡ h.status
unfolding emit_event
emit_event-status h s = elim (Bool-cases (is_closed h)) [
  | inl c ↦ rw c refl
  | inr c ↦ elim (Bool-cases (ltb (length h.events) 10)) [
    | inl l ↦ rw (c, l) refl
    | inr l ↦ rw (c, l) refl
  ]
]

pub finish-status : (h : Handle) → (finish h).status ≡ h.status
unfolding finish
finish-status h = elim (Bool-cases (is_closed h)) [ inl c ↦ rw c refl | inr c ↦ rw c refl ]

-- A transition takes a handle to the phase, unless the handle is in a terminal one.
pub transition-status :
    (h : Handle) (p : Phase) (e : Option Failure)
    → (transition h p e).status
      ≡ (if is_terminal h.status.phase then h.status else record { phase = p; err = e })
unfolding transition
transition-status h p e =
    let s : Status = record { phase = p; err = e } in
    elim (Bool-cases (is_terminal h.status.phase)) [
      | inl t ↦ rw t refl
      | inr t ↦ elim (Bool-cases (is_terminal p)) [
        | inl q ↦
            rw (t, q)
              (finish-status (emit_event (record h { status = s }) s)
                ∙ emit_event-status (record h { status = s }) s)
        | inr q ↦ rw (t, q) (emit_event-status (record h { status = s }) s)
      ]
    ]

pub transition-calm :
    (h : Handle) (p : Phase) (e : Option Failure)
    → is_ready p ≡ false
    → is_ready (transition h p e).status.phase ≡ true
    → is_ready h.status.phase ≡ true
transition-calm h p e n =
    rw (transition-status h p e) (elim (Bool-cases (is_terminal h.status.phase)) [
      | inl t ↦ rw t (λ r. r)
      | inr t ↦ rw t (λ r. absurd (false≢true (sym n ∙ r)))
    ])

pub Calmer-set_handle :
    (hs : ℕ → Handle) (i : ℕ) (h : Handle)
    → (is_ready h.status.phase ≡ true → is_ready (hs i).status.phase ≡ true)
    → Calmer hs (set_handle hs i h)
unfolding set_handle
Calmer-set_handle hs i h c j = elim (Bool-cases (j == i)) [
  | inl e ↦
      let same : i ≡ j = ground (arith, e) in
      rw e (λ r. subst (λ k. is_ready (hs k).status.phase ≡ true) same (c r))
  | inr e ↦ rw e (λ r. r)
]

pub SameBut-set_handle : (hs : ℕ → Handle) (i : ℕ) (h : Handle) → SameBut i hs (set_handle hs i h)
unfolding set_handle
SameBut-set_handle hs i h j n = elim (Bool-cases (j == i)) [
  | inl e ↦ absurd (n (ground (arith, e)))
  | inr e ↦ rw e refl
]

pub set_handle_same : (hs : ℕ → Handle) (i : ℕ) (h : Handle) → set_handle hs i h i ≡ h
unfolding set_handle
set_handle_same hs i h = let same : (i == i) ≡ true = ground arith in rw same refl

pub new_not_deployed :
    (hs : ℕ → Handle) (i : ℕ) (type : OpType)
    → is_deployed (set_handle hs i new_deployment_handle) (record { handle = i; op_type = type })
      ≡ false
unfolding new_deployment_handle
new_not_deployed hs i type =
    ap (λ h. is_present type && is_ready h.status.phase)
      (set_handle_same hs i new_deployment_handle)
    ∙ and-false (is_present type)
