-- ===== src/Nfgc/Justified.antt =====
-- Which network functions the garbage collection deletes:
-- operator/internal/controller/core/nfgc/nfgc_controller.go.
use iml.Common.{
  ℕ, ltb, ◌&&◌, ◌≡◌, ◌⊎◌, inl, inr, Bool, true, false, List, [], ◌++◌, Option, none, some,
  append_nil, if◌then◌else◌, refl, sym, ap, ◌∙◌, subst, if_cases,
}
use iml.Common.Texts.{Text, text_eq, eq_of_text_eq, both_true}
use mathlib.Core.Bool.{true≢false}
use mathlib.Core.List.{Memᴰ}
use iml.Nfgc.{
  NfKey, Nf, Request, Api, delete_nf, is_nf_terminated, gc_less, gc_terminated, stuck,
  gc_terminating, has_text, discover_deleted_targets, quarantine_missing, delete_orphans,
  gc_orphaned, gc_unscheduled_terminating, gc_reconcile,
}
use iml.Nfgc.Requests.{
  AsksAfter, Extends, select-Memᴰ, first_of_list-Memᴰ, AsksAfter-more, Extends-trans,
  collect_each-Extends, collect_each-Deletes, collect_each-AsksAfter, discover-gone,
  quarantine-Deletes, quarantine-Extends,
}

module _ (api : Api) (sort : (Nf → Nf → Bool) → List Nf → List Nf) where
  -- Why a network function of the listing may be deleted by a round that makes the requests `after`,
  -- by its key. What the API server answers, it answers in the round, before the deletion.
  pub data Collectable (nfs : List Nf) (targets : List Text) (after : List Request)
      : NfKey → Type 0 where
    terminated :
        (nf : Nf) → Memᴰ nf nfs → is_nf_terminated nf ≡ true → Collectable nfs targets after nf.key
    out_of_service :
        (nf : Nf) (log : List Request)
        → Memᴰ nf nfs
        → stuck api sort log nf ≡ true
        → AsksAfter nf.key log after
        → Collectable nfs targets after nf.key
    orphaned :
        (nf : Nf) (log : List Request)
        → Memᴰ nf nfs
        → has_text api sort nf.target targets ≡ false
        → api.target_exists log nf.target ≡ some false
        → AsksAfter nf.key log after
        → Collectable nfs targets after nf.key
    unscheduled :
        (nf : Nf)
        → Memᴰ nf nfs
        → nf.deleting ≡ true
        → nf.target ≡ []
        → Collectable nfs targets after nf.key

  Collectable-more :
      (nfs : List Nf) (targets : List Text) (after more : List Request) (key : NfKey)
      → Collectable nfs targets after key
      → Collectable nfs targets (after ++ more) key
  Collectable-more nfs targets after more key (terminated nf m t) = terminated nf m t
  Collectable-more nfs targets after more key (out_of_service nf log m t a) =
      out_of_service nf log m t (AsksAfter-more nf.key log after more a)
  Collectable-more nfs targets after more key (orphaned nf log m t e a) =
      orphaned nf log m t e (AsksAfter-more nf.key log after more a)
  Collectable-more nfs targets after more key (unscheduled nf m d t) = unscheduled nf m d t

  -- A part of the round only adds requests, and each new deletion is justified.
  abbrev Collects : List Nf → List Text → List Request → List Request → Type 0
  Collects nfs targets log after =
      Extends log after
      × ((n : NfKey)
          → Memᴰ (delete_nf n) after
          → Memᴰ (delete_nf n) log ⊎ Collectable nfs targets after n)

  Collects-refl :
      (nfs : List Nf) (targets : List Text) (log : List Request) → Collects nfs targets log log
  Collects-refl nfs targets log = (([], sym (append_nil log)), λ n m. inl m)

  Collects-trans :
      (nfs : List Nf) (targets : List Text) (a b c : List Request)
      → Collects nfs targets a b
      → Collects nfs targets b c
      → Collects nfs targets a c
  Collects-trans nfs targets a b c (ab, f) (bc, g) = (
    Extends-trans a b c ab bc,
    λ n h. elim (g n h) [
      | inr k ↦ inr k
      | inl m ↦ elim (f n m) [
        | inl k ↦ inl k
        | inr k ↦ inr (
            subst (λ l. Collectable nfs targets l n) (sym bc.1)
              (Collectable-more nfs targets b bc.0 n k))
      ]
    ],
  )

  gc_terminated-Collects :
      (sorted : (x : Nf) (xs : List Nf) → Memᴰ x (sort gc_less xs) → Memᴰ x xs)
      → (threshold : ℕ) (nfs : List Nf) (targets : List Text) (log : List Request)
      → Collects nfs targets log (gc_terminated api sort threshold nfs log)
  unfolding gc_terminated
  gc_terminated-Collects sorted threshold nfs targets log = (
    collect_each-Extends api sort false _ log,
    λ n h. elim (collect_each-Deletes api sort false _ n log h) [
      | inl m ↦ inl m
      | inr (nf, m, q) ↦
          let (k, t) =
            select-Memᴰ is_nf_terminated nf nfs (sorted nf _ (first_of_list-Memᴰ _ nf _ m)) in
          inr (subst (Collectable nfs targets _) (sym q) (terminated nf k t))
    ],
  )

  gc_terminating-Collects :
      (sorted : (x : Nf) (xs : List Nf) → Memᴰ x (sort gc_less xs) → Memᴰ x xs)
      → (nfs : List Nf) (targets : List Text) (log : List Request)
      → Collects nfs targets log (gc_terminating api sort nfs log)
  unfolding gc_terminating
  gc_terminating-Collects sorted nfs targets log = (
    collect_each-Extends api sort false _ log,
    λ n h. elim (collect_each-AsksAfter api sort false _ n log h) [
      | inl m ↦ inl m
      | inr (nf, m, q, asked) ↦
          let (k, t) = select-Memᴰ (stuck api sort log) nf nfs (sorted nf _ m) in
          inr (subst (Collectable nfs targets _) (sym q) (out_of_service nf log k t asked))
    ],
  )

  quarantine-Collects :
      (nfs : List Nf) (targets : List Text) (missing : List Nf) (log : List Request)
      → Collects nfs targets log (quarantine_missing api sort targets missing log)
  quarantine-Collects nfs targets missing log = (
    quarantine-Extends api sort targets missing log,
    λ n h. inl (quarantine-Deletes api sort targets missing n log h),
  )

  orphans-Collects :
      (nfs : List Nf) (targets : List Text) (ready : List (Option Text)) (log : List Request)
      (found : Option (List Text))
      → discover_deleted_targets api sort targets ready log ≡ found
      → Collects nfs targets log (delete_orphans api sort nfs found log)
  orphans-Collects nfs targets ready log none e = Collects-refl nfs targets log
  orphans-Collects nfs targets ready log (some gone) e = (
    collect_each-Extends api sort true _ log,
    λ n h. elim (collect_each-AsksAfter api sort true _ n log h) [
      | inl m ↦ inl m
      | inr (nf, m, q, asked) ↦
          let (k, t) = select-Memᴰ (λ x. has_text api sort x.target gone) nf nfs m in
          let (missing, gone_too) = discover-gone api sort targets ready log nf.target gone e t in
          inr (subst (Collectable nfs targets _) (sym q) (orphaned nf log k missing gone_too asked))
    ],
  )

  gc_orphaned-Collects :
      (ready : List (Option Text)) (nfs : List Nf) (targets : List Text) (log : List Request)
      → Collects nfs targets log (gc_orphaned api sort ready nfs targets log)
  unfolding gc_orphaned
  gc_orphaned-Collects ready nfs targets log =
      let waiting = quarantine_missing api sort targets nfs log in
      Collects-trans nfs targets log waiting _ (quarantine-Collects nfs targets nfs log)
        (orphans-Collects nfs targets ready waiting _ refl)

  gc_unscheduled-Collects :
      (nfs : List Nf) (targets : List Text) (log : List Request)
      → Collects nfs targets log (gc_unscheduled_terminating api sort nfs log)
  unfolding gc_unscheduled_terminating
  gc_unscheduled-Collects nfs targets log = (
    collect_each-Extends api sort false _ log,
    λ n h. elim (collect_each-Deletes api sort false _ n log h) [
      | inl m ↦ inl m
      | inr (nf, m, q) ↦
          let (k, t) = select-Memᴰ (λ x. x.deleting && text_eq x.target []) nf nfs m in
          let (deleting, empty) = both_true nf.deleting (text_eq nf.target []) t in
          inr (
            subst (Collectable nfs targets _) (sym q)
              (unscheduled nf k deleting (eq_of_text_eq nf.target [] empty)))
    ],
  )

  -- A round of the garbage collection, with a sort that returns only items of its list, asks to
  -- delete only network functions of its listing, by their namespaces and names, that have
  -- terminated, that are terminating on a target that the API server says in the round, before the
  -- deletion, to be not ready and out of service, whose target is not in the listing of the targets and
  -- not found by the API server in the round before the deletion, or that are terminating
  -- without a target.
  pub gc_reconcile-Collectable :
      (sorted : (x : Nf) (xs : List Nf) → Memᴰ x (sort gc_less xs) → Memᴰ x xs)
      → (threshold : ℕ) (ready : List (Option Text)) (nfs : List Nf) (targets : List Text)
        (n : NfKey)
      → Memᴰ (delete_nf n) (gc_reconcile api sort threshold ready nfs targets [])
      → Collectable nfs targets (gc_reconcile api sort threshold ready nfs targets []) n
  unfolding gc_reconcile
  gc_reconcile-Collectable sorted threshold ready nfs targets n h =
      let a = if ltb 0 threshold then gc_terminated api sort threshold nfs [] else [] in
      let b = gc_terminating api sort nfs a in
      let c = gc_orphaned api sort ready nfs targets b in
      let first : Collects nfs targets [] a =
        if_cases (Collects nfs targets []) (ltb 0 threshold)
          (λ e. gc_terminated-Collects sorted threshold nfs targets [])
          (λ e. Collects-refl nfs targets []) in
      let until_b =
        Collects-trans nfs targets [] a b first (gc_terminating-Collects sorted nfs targets a) in
      let until_c =
        Collects-trans nfs targets [] b c until_b (gc_orphaned-Collects ready nfs targets b) in
      let all = Collects-trans nfs targets [] c _ until_c (gc_unscheduled-Collects nfs targets c) in
      elim (all.1 n h) [ inr k ↦ k | inl m ↦ elim m [ ] ]

  -- Where the keys of the listing are its own, a round of the garbage collection, with a sort that
  -- returns only items of its list, never asks to delete a network function of the listing that
  -- is pending or running, that is not being deleted, and whose target is in the listing of the
  -- targets.
  pub gc_reconcile-spares :
      (sorted : (x : Nf) (xs : List Nf) → Memᴰ x (sort gc_less xs) → Memᴰ x xs)
      → (threshold : ℕ) (ready : List (Option Text)) (nfs : List Nf) (targets : List Text)
      → (nf : Nf) → ((x : Nf) → Memᴰ x nfs → x.key ≡ nf.key → x ≡ nf)
      → is_nf_terminated nf ≡ false
      → nf.deleting ≡ false
      → has_text api sort nf.target targets ≡ true
      → ¬ Memᴰ (delete_nf nf.key) (gc_reconcile api sort threshold ready nfs targets [])
  unfolding is_nf_terminated
  gc_reconcile-spares sorted threshold ready nfs targets nf own alive staying present h =
      refused nf.key (gc_reconcile-Collectable sorted threshold ready nfs targets nf.key h) refl
    where
      refused :
          (n : NfKey)
          → Collectable nfs targets (gc_reconcile api sort threshold ready nfs targets []) n
          → n ≡ nf.key
          → ⊥
      refused n (terminated x m t) q = true≢false (sym t ∙ ap is_nf_terminated (own x m q) ∙ alive)
      refused n (out_of_service x log m t a) q =
          true≢false
            (sym (both_true x.deleting _ t).0 ∙ ap (λ (y : Nf). y.deleting) (own x m q) ∙ staying)
      refused n (orphaned x log m missing e a) q = true≢false (
          sym present
          ∙ ap (λ (y : Nf). has_text api sort y.target targets) (sym (own x m q))
          ∙ missing)
      refused n (unscheduled x m d t) q =
          true≢false (sym d ∙ ap (λ (y : Nf). y.deleting) (own x m q) ∙ staying)
