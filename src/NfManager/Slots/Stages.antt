-- ===== src/NfManager/Slots/Stages.antt =====
-- nf_mgr.go: what the stages of the goroutines do to the number of deployed network functions.
use iml.Common.{
  ℕ, suc, ◌≤◌, ◌≡◌, refl, ◌∙◌, true, false, not, ◌&&◌, Option, none, some, arith, Bool-cases,
  Option-cases, inl, inr, ◌||◌,
}
use mathlib.Core.Bool.{false≢true}
use iml.Ipam.Netip.{prefix_is_valid}
use iml.NfManager.Handle.{
  Phase, ready, failed, canceled, Failure, new_deployment_handle, transition, cancel,
  context_canceled,
}
use iml.NfManager.Manager.{
  Manager, OpType, Function, Task, Stage, Answers, is_ready, is_present, set_handle, deployed_count,
  find_op, track, ensure, same_type, failure_of,
}
use iml.NfManager.Work.{
  move, compile, set_up_network_forwarding, delete_resources, then_or_fail, end_or_fail,
}
use iml.NfManager.Slots.Count.{
  Distinct, deployed_count-le, deployed_count-suc, Distinct-put_op, deployed_count-put_op,
  Distinct-delete_op, deployed_count-delete_op,
}
use iml.NfManager.Slots.Handles.{
  transition-calm, Calmer-set_handle, SameBut-set_handle, new_not_deployed,
}

module _ {K : Type 0} where
  pub count : Manager K → ℕ
  count m = deployed_count m.handles m.ops

  -- The second manager has deployed no more than the first.
  pub record Smaller (m m' : Manager K) : Type 0 where
    pub slots : m'.max_nf_slots ≡ m.max_nf_slots
    pub counts : deployed_count m'.handles m'.ops ≤ deployed_count m.handles m.ops
    pub distinct : Distinct m.next m.ops → Distinct m'.next m'.ops

  pub Smaller-refl : (m : Manager K) → Smaller m m
  Smaller-refl m = record { slots = refl; counts = omega arith; distinct = λ d. d }

  pub Smaller-trans : {a b c : Manager K} → Smaller a b → Smaller b c → Smaller a c
  Smaller-trans p q = record {
    slots = q.slots ∙ p.slots;
    counts = omega (arith, p.counts, q.counts);
    distinct = λ d. q.distinct (p.distinct d);
  }

module _ {K : Type 0} (dec : Discrete K) where
  pub Smaller-move :
      (m : Manager K) (t : Task K) (p : Phase) (e : Option Failure)
      → is_ready p ≡ false
      → Smaller m (move dec m t p e)
  unfolding move
  Smaller-move m t p e n = record {
    slots = refl;
    counts = deployed_count-le m.handles _ m.ops (
        Calmer-set_handle m.handles t.handle (transition (m.handles t.handle) p e)
          (transition-calm (m.handles t.handle) p e n));
    distinct = λ d. d;
  }

  -- The move to the phase `ready` adds at most one.
  pub count-move :
      (m : Manager K) (t : Task K)
      → Distinct m.next m.ops
      → deployed_count (move dec m t ready none).handles (move dec m t ready none).ops
        ≤ suc (deployed_count m.handles m.ops)
  unfolding move
  count-move m t d =
      deployed_count-suc m.handles _ t.handle m.next m.ops
        (SameBut-set_handle m.handles t.handle (transition (m.handles t.handle) ready none)) d

  Smaller-cancel :
      (m : Manager K) (i : ℕ)
      → Smaller m (record m { handles = set_handle m.handles i (cancel (m.handles i)) })
  unfolding cancel
  Smaller-cancel m i = record {
    slots = refl;
    counts = deployed_count-le m.handles _ m.ops (
        Calmer-set_handle m.handles i (cancel (m.handles i)) (
          transition-calm (record (m.handles i) { context_done = true }) canceled
            (some context_canceled) refl));
    distinct = λ d. d;
  }

  Smaller-track :
      (m : Manager K) (type : OpType) (f : Function K) → Smaller m (track dec m type f).0
  unfolding track new_deployment_handle
  Smaller-track m type f =
      let hs = set_handle m.handles m.next new_deployment_handle in
      record {
        slots = refl;
        counts = omega (
          arith,
          deployed_count-put_op dec hs f.key (record { handle = m.next; op_type = type }) m.ops
              (new_not_deployed m.handles m.next type),
          deployed_count-le m.handles hs m.ops (
              Calmer-set_handle m.handles m.next new_deployment_handle
                (λ r. absurd (false≢true r))),
        );
        distinct = Distinct-put_op dec m.next f.key type m.ops;
      }

  pub Smaller-ensure :
      (m : Manager K) (type : OpType) (f : Function K) → Smaller m (ensure dec m type f).0
  unfolding ensure
  Smaller-ensure m type f = elim (Option-cases (find_op dec f.key m.ops)) [
    | inl e ↦ rw (e, ensure) (Smaller-track m type f)
    | inr (o, e) ↦ elim (Bool-cases (same_type dec o.op_type type)) [
      | inl s ↦ rw (e, s, ensure) (Smaller-refl m)
      | inr s ↦
          rw (e, s, ensure)
            (Smaller-trans (Smaller-cancel m o.handle) (
              Smaller-track
                (record m { handles = set_handle m.handles o.handle (cancel (m.handles o.handle)) })
                type f))
    ]
  ]

  pub Smaller-compile : (m : Manager K) (t : Task K) (a : Answers) → Smaller m (compile dec m t a).0
  unfolding compile
  Smaller-compile m t a = elim (Option-cases a.compiled) [
    | inl e ↦ rw (e, compile) (Smaller-refl m)
    | inr (c, e) ↦
        rw (e, compile) (record { slots = refl; counts = omega arith; distinct = λ d. d })
  ]

  pub Smaller-set_up :
      (m : Manager K) (t : Task K) (a : Answers) → Smaller m (set_up_network_forwarding dec m t a).0
  unfolding set_up_network_forwarding
  Smaller-set_up m t a = elim (Option-cases (m.programs t.function.key)) [
    | inl e ↦ rw (e, set_up_network_forwarding) (Smaller-refl m)
    | inr (p, e) ↦ elim (Bool-cases (not m.has_interface || not (prefix_is_valid t.function.ip))) [
      | inl b ↦ rw (e, b, set_up_network_forwarding) (Smaller-refl m)
      | inr b ↦ elim (Option-cases (failure_of a.network_error)) [
        | inr (x, n) ↦ rw (e, b, n, set_up_network_forwarding) (Smaller-refl m)
        | inl n ↦
            rw (e, b, n, set_up_network_forwarding)
              (record { slots = refl; counts = omega arith; distinct = λ d. d })
      ]
    ]
  ]

  pub Smaller-delete :
      (m : Manager K) (t : Task K) (a : Answers) → Smaller m (delete_resources dec m t a).0
  unfolding delete_resources
  Smaller-delete m t a =
      let k = t.function.key in
      elim (Option-cases (find_op dec k m.ops)) [
        | inl e ↦ rw (e, delete_resources) (Smaller-refl m)
        | inr (o, e) ↦ elim (Option-cases (m.programs k)) [
          | inl p ↦
              rw (e, p, delete_resources)
                (record {
                  slots = refl;
                  counts = deployed_count-delete_op dec m.handles k m.ops;
                  distinct = Distinct-delete_op dec m.next k m.ops;
                })
          | inr (q, p) ↦
              elim (Bool-cases
                (is_present o.op_type && not (is_ready (m.handles o.handle).status.phase))) [
                  | inl b ↦
                      rw (e, p, b, delete_resources)
                        (record {
                          slots = refl;
                          counts = deployed_count-delete_op dec m.handles k m.ops;
                          distinct = Distinct-delete_op dec m.next k m.ops;
                        })
                  | inr b ↦ rw (e, p, b, delete_resources) (Smaller-refl m)
                ]
        ]
      ]

  pub Smaller-then :
      (m : Manager K) (r : Manager K × Option Failure) (t : Task K) (s : Stage)
      → Smaller m r.0
      → Smaller m (then_or_fail dec r t s).0
  unfolding then_or_fail
  Smaller-then m (r, none) t s h = h
  Smaller-then m (r, some e) t s h = Smaller-trans h (Smaller-move r t failed (some e) refl)

  pub Smaller-end :
      (m : Manager K) (r : Manager K × Option Failure) (t : Task K) (p : Phase)
      → is_ready p ≡ false
      → Smaller m r.0
      → Smaller m (end_or_fail dec r t p).0
  unfolding end_or_fail
  Smaller-end m (r, none) t p n h = Smaller-trans h (Smaller-move r t p none n)
  Smaller-end m (r, some e) t p n h = Smaller-trans h (Smaller-move r t failed (some e) refl)
