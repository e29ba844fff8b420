-- ===== src/Nfgc/Tests.antt =====
-- A round of the garbage collection on a function that failed and one that runs.
use iml.Common.{ℕ, ◌≡◌, refl, Bool, true, false, List, [], ◌∷◌, some}
use mathlib.Core.List.{Memᴰ}
use mathlib.Core.List.Memᴰ.{head}
use iml.Nfgc.{
  NfKey, Nf, Phase, running, failed, Api, Request, patch_failed, delete_nf, gc_reconcile, gc_less,
}
use iml.Nfgc.Collected.{gc_reconcile-unscheduled}
use iml.Nfgc.Justified.{Collectable, gc_reconcile-Collectable}

abbrev api : Api
api = record {
  get_target = λ log name. some (record { ready = true; out_of_service = false });
  target_exists = λ log name. some true;
  perform = λ log q. true;
}

abbrev keep_order : (Nf → Nf → Bool) → List Nf → List Nf
keep_order less nfs = nfs

abbrev key_of : ℕ → NfKey
key_of name = record { namespace = 8 ∷ []; name = name ∷ [] }

abbrev nf : ℕ → Phase → Nf
nf name phase = record {
  key = key_of name;
  phase = phase;
  evicted_reason = false;
  deleting = false;
  target = 5 ∷ [];
  created = 1;
}

abbrev both : List Nf
both = nf 1 running ∷ nf 2 failed ∷ nf 3 failed ∷ []

one_deleted : gc_reconcile api keep_order 1 [] both ((5 ∷ []) ∷ []) [] ≡ delete_nf (key_of 2) ∷ []
unfolding gc_reconcile iml.Nfgc.gc_unscheduled_terminating iml.Nfgc.collect_each iml.Nfgc.select
    iml.Nfgc.gc_orphaned iml.Nfgc.has_text iml.Nfgc.discover_deleted_targets
    iml.Nfgc.quarantine_missing iml.Nfgc.gc_terminating iml.Nfgc.gc_terminated
    iml.Nfgc.first_of_list iml.Nfgc.is_nf_terminated iml.Nfgc.mark_failed_and_delete_nf
one_deleted = refl

gc_reconcile_example :
    Collectable api keep_order both
      ((5 ∷ []) ∷ [])
      (gc_reconcile api keep_order 1 [] both ((5 ∷ []) ∷ []) [])
      (key_of 2)
unfolding gc_reconcile iml.Nfgc.gc_unscheduled_terminating iml.Nfgc.collect_each iml.Nfgc.select
    iml.Nfgc.gc_orphaned iml.Nfgc.has_text iml.Nfgc.discover_deleted_targets
    iml.Nfgc.quarantine_missing iml.Nfgc.gc_terminating iml.Nfgc.gc_terminated
    iml.Nfgc.first_of_list iml.Nfgc.is_nf_terminated iml.Nfgc.mark_failed_and_delete_nf
gc_reconcile_example =
    gc_reconcile-Collectable api keep_order (λ x xs m. m) 1 [] both ((5 ∷ []) ∷ []) (key_of 2)
      (head refl)

abbrev leaving : Nf
leaving = record {
  key = key_of 4;
  phase = running;
  evicted_reason = false;
  deleting = true;
  target = [];
  created = 2;
}

gc_reconcile-unscheduled_example :
    Memᴰ
      (delete_nf (key_of 4))
      (gc_reconcile api keep_order 1 [] (leaving ∷ both) ((5 ∷ []) ∷ []) [])
gc_reconcile-unscheduled_example =
    gc_reconcile-unscheduled api keep_order (λ log q. refl) 1 [] (leaving ∷ both) ((5 ∷ []) ∷ []) []
      leaving (head refl) refl refl
