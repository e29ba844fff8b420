-- ===== src/NfManager/Slots/Kept.antt =====
-- nf_mgr.go: what the stages keep: the count of the deployed network functions within the slots.
use iml.Common.{
  ℕ, zero, suc, ◌≤◌, ◌<◌, ◌≡◌, refl, ap, ◌∙◌, false, Option, none, some, List, [], ◌∷◌, arith,
}
use iml.Common.Int.{ℤ, pos, pos_part, -ℤ_parts}
use iml.NfManager.Handle.{
  Phase, compiling, pre_check, deploying, network_setup, ready, draining, deleting, deleted, failed,
  Failure,
}
use iml.NfManager.Manager.{
  Manager, Task, Stage, to_compile, to_check, to_deploy, to_set_up, to_drain, to_delete, Answers,
  deployed_count, is_ready,
}
use iml.NfManager.Work.{
  move, pre_check_slots, compile, deploy, set_up_network_forwarding, delete_resources, then_or_fail,
  end_or_fail, run_stage_at,
}
use iml.NfManager.System.{take_waiting}
use iml.NfManager.Slots.Count.{Distinct}
use iml.NfManager.Slots.Stages.{
  Smaller, Smaller-trans, Smaller-move, count-move, Smaller-compile, Smaller-set_up, Smaller-delete,
}

abbrev pub IsFirst : Stage → Type 0
IsFirst to_compile = Unit {0}
IsFirst to_drain = Unit {0}
IsFirst _ = ⊥

module _ {K : Type 0} where
  -- A goroutine that has passed the check of the slots has one kept for it.
  abbrev pub RoomAt : Manager K → Stage → Type 0
  RoomAt m to_deploy = deployed_count m.handles m.ops < pos_part m.max_nf_slots
  RoomAt m to_set_up = deployed_count m.handles m.ops < pos_part m.max_nf_slots
  RoomAt m _ = Unit {0}

  abbrev pub Room : Manager K → Option (Task K) → Type 0
  Room m none = Unit {0}
  Room m (some t) = RoomAt m t.stage

  abbrev pub AllFirst : List (Task K) → Type 0
  AllFirst [] = Unit {0}
  AllFirst (t ∷ ts) = IsFirst t.stage × AllFirst ts

  -- What a manager keeps to at all times, with the goroutine that has its lock.
  pub record Keeps (slots : ℤ) (m : Manager K) (t : Option (Task K)) : Type 0 where
    pub same : m.max_nf_slots ≡ slots
    pub distinct : Distinct m.next m.ops
    pub within : deployed_count m.handles m.ops ≤ pos_part slots
    pub room : Room m t

  pub RoomAt-Smaller : {m m' : Manager K} (s : Stage) → Smaller m m' → RoomAt m s → RoomAt m' s
  RoomAt-Smaller to_deploy s r = rw s.slots (omega (arith, s.counts, r))
  RoomAt-Smaller to_set_up s r = rw s.slots (omega (arith, s.counts, r))
  RoomAt-Smaller to_compile s r = tt
  RoomAt-Smaller to_check s r = tt
  RoomAt-Smaller to_drain s r = tt
  RoomAt-Smaller to_delete s r = tt

  pub Room-Smaller : {m m' : Manager K} (t : Option (Task K)) → Smaller m m' → Room m t → Room m' t
  Room-Smaller none s r = r
  Room-Smaller (some t) s r = RoomAt-Smaller t.stage s r

  pub IsFirst-RoomAt : (m : Manager K) (s : Stage) → IsFirst s → RoomAt m s
  IsFirst-RoomAt m to_compile f = tt
  IsFirst-RoomAt m to_drain f = tt
  IsFirst-RoomAt m to_check f = elim f [ ]
  IsFirst-RoomAt m to_deploy f = elim f [ ]
  IsFirst-RoomAt m to_set_up f = elim f [ ]
  IsFirst-RoomAt m to_delete f = elim f [ ]

  pub Keeps-Smaller :
      {slots : ℤ} {m m' : Manager K} (t : Option (Task K))
      → Smaller m m'
      → Keeps slots m t
      → Keeps slots m' t
  Keeps-Smaller t s k = record {
    same = s.slots ∙ k.same;
    distinct = s.distinct k.distinct;
    within = omega (arith, s.counts, k.within);
    room = Room-Smaller t s k.room;
  }

  pub take_waiting-AllFirst :
      (n : ℕ) (ts : List (Task K))
      → AllFirst ts
      → ((m : Manager K) → Room m (take_waiting n ts).0) × AllFirst (take_waiting n ts).1
  take_waiting-AllFirst n [] f = (λ m. tt, tt)
  take_waiting-AllFirst zero (t ∷ ts) f = (λ m. IsFirst-RoomAt m t.stage f.0, f.1)
  take_waiting-AllFirst (suc n) (t ∷ ts) f =
      let (a, b) = take_waiting-AllFirst n ts f.1 in (a, (f.0, b))

module _ {K : Type 0} (dec : Discrete K) where
  pub pre_check-RoomAt :
      (m : Manager K)
      → pre_check_slots dec m ≡ none
      → deployed_count m.handles m.ops < pos_part m.max_nf_slots
  unfolding pre_check_slots
  pre_check-RoomAt m =
      ground (arith, -ℤ_parts m.max_nf_slots (pos (deployed_count m.handles m.ops)))

  pub Keeps-then :
      (slots : ℤ) (m : Manager K) (r : Manager K × Option Failure) (t : Task K) (s : Stage)
      → Keeps slots m none
      → Smaller m r.0
      → (r.1 ≡ none → RoomAt r.0 s)
      → let q = then_or_fail dec r t s in Keeps slots q.0 q.1
  unfolding then_or_fail
  Keeps-then slots m (m', none) t s k h f =
      let k' = Keeps-Smaller none h k in
      record { same = k'.same; distinct = k'.distinct; within = k'.within; room = f refl }
  Keeps-then slots m (m', some e) t s k h f =
      Keeps-Smaller none (Smaller-trans h (Smaller-move dec m' t failed (some e) refl)) k

  pub Keeps-end :
      (slots : ℤ) (m : Manager K) (r : Manager K × Option Failure) (t : Task K) (p : Phase)
      → is_ready p ≡ false
      → Keeps slots m none
      → Smaller m r.0
      → let q = end_or_fail dec r t p in Keeps slots q.0 q.1
  unfolding end_or_fail
  Keeps-end slots m (m', none) t p n k h =
      Keeps-Smaller none (Smaller-trans h (Smaller-move dec m' t p none n)) k
  Keeps-end slots m (m', some e) t p n k h =
      Keeps-Smaller none (Smaller-trans h (Smaller-move dec m' t failed (some e) refl)) k

  -- The last stage of a deployment fills the slot that the check has kept.
  pub Keeps-ready :
      (slots : ℤ) (m : Manager K) (r : Manager K × Option Failure) (t : Task K)
      → Keeps slots m none
      → RoomAt m to_set_up
      → Smaller m r.0
      → let q = end_or_fail dec r t ready in Keeps slots q.0 q.1
  unfolding end_or_fail
  Keeps-ready slots m (m', none) t k room h =
      let d = h.distinct k.distinct in
      record {
        same = h.slots ∙ k.same;
        distinct = d;
        within = omega (arith, count-move dec m' t d, h.counts, room, ap pos_part k.same);
        room = tt;
      }
  Keeps-ready slots m (m', some e) t k room h =
      Keeps-Smaller none (Smaller-trans h (Smaller-move dec m' t failed (some e) refl)) k

  pub Keeps-run_stage_at :
      (slots : ℤ) (s : Stage) (m : Manager K) (t : Task K) (a : Answers)
      → Keeps slots m none
      → RoomAt m s
      → let r = run_stage_at dec s m t a in Keeps slots r.0 r.1
  unfolding run_stage_at
  Keeps-run_stage_at slots to_compile m t a k r =
      Keeps-then slots m (compile dec (move dec m t compiling none) t a) t to_check k
        (Smaller-trans (Smaller-move dec m t compiling none refl)
          (Smaller-compile dec (move dec m t compiling none) t a))
        (λ e. tt)
  Keeps-run_stage_at slots to_check m t a k r =
      let m' = move dec m t pre_check none in
      Keeps-then slots m (m', pre_check_slots dec m') t to_deploy k
        (Smaller-move dec m t pre_check none refl) (pre_check-RoomAt m')
  Keeps-run_stage_at slots to_deploy m t a k r =
      let m' = move dec m t deploying none in
      let s = Smaller-move dec m t deploying none refl in
      Keeps-then slots m (m', deploy dec m' t a) t to_set_up k s (λ e. RoomAt-Smaller to_set_up s r)
  Keeps-run_stage_at slots to_set_up m t a k r =
      Keeps-ready slots m (set_up_network_forwarding dec (move dec m t network_setup none) t a) t k
        r
        (Smaller-trans (Smaller-move dec m t network_setup none refl)
          (Smaller-set_up dec (move dec m t network_setup none) t a))
  Keeps-run_stage_at slots to_drain m t a k r =
      let k' = Keeps-Smaller none (Smaller-move dec m t draining none refl) k in
      record { same = k'.same; distinct = k'.distinct; within = k'.within; room = tt }
  Keeps-run_stage_at slots to_delete m t a k r =
      Keeps-end slots m (delete_resources dec (move dec m t deleting none) t a) t deleted refl k (
        Smaller-trans (Smaller-move dec m t deleting none refl)
          (Smaller-delete dec (move dec m t deleting none) t a))
