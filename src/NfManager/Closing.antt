-- ===== src/NfManager/Closing.antt =====
-- nf_mgr_types.go: the life of a handle, under any transitions and cancellations.
use iml.Common.{
  ℕ, suc, ◌≤◌, ◌<◌, ◌≡◌, refl, ap, sym, ◌∙◌, Bool, true, false, Option, some, List, [], ◌∷◌, ltb,
  if◌then◌else◌, arith, Bool-cases, inl, inr, length, length-append,
}
use iml.NfManager.Handle.{
  Phase, canceled, Failure, context_canceled, Status, Handle, new_deployment_handle, is_terminal,
  is_closed, emit_event, finish, transition, cancel,
}
use iml.NfManager.Slots.Handles.{emit_event-status, finish-status}

pub data Call : Type 0 where
  moves : Phase → Option Failure → Call
  cancels : Call

abbrev pub call : Handle → Call → Handle
unfolding transition cancel
call h (moves p e) = transition h p e
call h cancels = cancel h

unfoldable pub calls : Handle → List Call → Handle
calls h [] = h
calls h (c ∷ cs) = calls (call h c) cs

abbrev pub closes_of : Bool → ℕ
closes_of true = 1
closes_of false = 0

closes_if : (b : Bool) → closes_of b ≡ (if b then 1 else 0)
closes_if true = refl
closes_if false = refl

record Orderly (h : Handle) : Type 0 where
  closed : h.closes ≡ closes_of (is_terminal h.status.phase)
  few : length h.events ≤ 10

emit_event-Few :
    (h : Handle) (s : Status)
    → length h.events ≤ 10
    → (length (emit_event h s).events ≤ 10) × ((emit_event h s).closes ≡ h.closes)
unfolding emit_event
emit_event-Few h s f = elim (Bool-cases (is_closed h)) [
  | inl c ↦ rw c (f, refl)
  | inr c ↦ elim (Bool-cases (ltb (length h.events) 10)) [
    | inl l ↦
        rw (c, l)
          (
            let room : length h.events < 10 = ground (arith, l) in
                omega (arith, length-append h.events (s ∷ [])),
            refl,
          )
    | inr l ↦ rw (c, l) (f, refl)
  ]
]

finish-closes :
    (h : Handle) → h.closes ≡ 0 → ((finish h).closes ≡ 1) × ((finish h).events ≡ h.events)
unfolding finish
finish-closes h z =
    let c : is_closed h ≡ false = ground (arith, z) in rw (c, finish) (ap suc z, refl)

Orderly-transition :
    (h : Handle) (p : Phase) (e : Option Failure) → Orderly h → Orderly (transition h p e)
unfolding transition
Orderly-transition h p e o =
    let s : Status = record { phase = p; err = e } in
    let h' : Handle = record h { status = s } in
    let (few, kept) = emit_event-Few h' s o.few in
    let same = emit_event-status h' s in
    elim (Bool-cases (is_terminal h.status.phase)) [
      | inl t ↦ rw t o
      | inr t ↦
          let open_still : h.closes ≡ 0 = o.closed ∙ ap closes_of t in
          elim (Bool-cases (is_terminal p)) [
            | inl q ↦
                let (once, events) = finish-closes (emit_event h' s) (kept ∙ open_still) in
                rw (t, q)
                  (record {
                    closed =
                        once
                        ∙ sym (
                            ap (λ (r : Status). closes_of (is_terminal r.phase))
                              (finish-status (emit_event h' s) ∙ same)
                            ∙ ap closes_of q);
                    few = rw events few;
                  })
            | inr q ↦
                rw (t, q)
                  (record {
                    closed =
                        kept
                        ∙ open_still
                        ∙ sym (
                            ap (λ (r : Status). closes_of (is_terminal r.phase)) same
                            ∙ ap closes_of q);
                    few = few;
                  })
          ]
    ]

Orderly-cancel : (h : Handle) → Orderly h → Orderly (cancel h)
unfolding cancel
Orderly-cancel h o =
    Orderly-transition (record h { context_done = true }) canceled (some context_canceled)
      (record { closed = o.closed; few = o.few })

Orderly-calls : (h : Handle) (cs : List Call) → Orderly h → Orderly (calls h cs)
unfolding calls call transition cancel
Orderly-calls h [] o = o
Orderly-calls h (moves p e ∷ cs) o =
    Orderly-calls (transition h p e) cs (Orderly-transition h p e o)
Orderly-calls h (cancels ∷ cs) o = Orderly-calls (cancel h) cs (Orderly-cancel h o)

-- After any transitions and cancellations of a new handle its channels have been closed once if its
-- phase is terminal and never if not, and the channel of events has not overflowed its ten places.
pub calls-closes :
    (cs : List Call)
    → let h = calls new_deployment_handle cs in
      (h.closes ≡ (if is_terminal h.status.phase then 1 else 0)) × (length h.events ≤ 10)
unfolding new_deployment_handle
calls-closes cs =
    let start : Orderly new_deployment_handle = record { closed = refl; few = omega arith } in
    let o = Orderly-calls new_deployment_handle cs start in (o.closed ∙ closes_if _, o.few)
