-- ===== src/Nfgc/Collected.antt =====
-- Which network functions the garbage collection does delete:
-- operator/internal/controller/core/nfgc/nfgc_controller.go.
use iml.Common.{
  ℕ, ◌&&◌, ◌≡◌, Bool, true, false, List, [], ◌∷◌, ◌++◌, Option, refl, sym, ap, ◌∙◌, subst,
  Bool-cases, inl, inr,
}
use iml.Common.Texts.{Text, text_eq}
use mathlib.Core.List.{Memᴰ}
use mathlib.Core.List.Memᴰ
use mathlib.Core.List.Memᴰ.{head, tail}
use iml.Nfgc.{
  Nf, Request, Api, patch_failed, delete_nf, is_failed_nf, select, mark_failed_and_delete_nf,
  collect_each, gc_unscheduled_terminating, gc_reconcile,
}

Memᴰ-select {ℓ} :
    {A : Type ℓ} (p : A → Bool) (x : A) (xs : List A)
    → Memᴰ x xs
    → p x ≡ true
    → Memᴰ x (select p xs)
unfolding select
Memᴰ-select p x [] m h = elim m [ ]
Memᴰ-select p x (y ∷ ys) (head e) h = rw (sym (ap p e) ∙ h, select) (head e)
Memᴰ-select p x (y ∷ ys) (tail m) h = elim (Bool-cases (p y)) [
  | inl e ↦ rw (e, select) (tail (Memᴰ-select p x ys m h))
  | inr e ↦ rw (e, select) (Memᴰ-select p x ys m h)
]

module _ (api : Api) (sort : (Nf → Nf → Bool) → List Nf → List Nf) where
  mark-keeps :
      (c : Bool) (nf : Nf) (q : Request) (log : List Request)
      → Memᴰ q log
      → Memᴰ q (mark_failed_and_delete_nf api sort c nf log)
  unfolding mark_failed_and_delete_nf
  mark-keeps c nf q log m =
      let patch = patch_failed nf.key c in
      elim (Bool-cases (is_failed_nf nf log)) [
        | inl e ↦ rw (e, mark_failed_and_delete_nf) (Memᴰ.append_left _ m)
        | inr e ↦ elim (Bool-cases (api.perform log patch)) [
          | inl p ↦ rw (e, mark_failed_and_delete_nf, p) (Memᴰ.append_left _ (Memᴰ.append_left _ m))
          | inr p ↦ rw (e, mark_failed_and_delete_nf, p) (Memᴰ.append_left _ m)
        ]
      ]

  collect_each-keeps :
      (c : Bool) (nfs : List Nf) (q : Request) (log : List Request)
      → Memᴰ q log
      → Memᴰ q (collect_each api sort c nfs log)
  unfolding collect_each
  collect_each-keeps c [] q log m = m
  collect_each-keeps c (nf ∷ nfs) q log m = collect_each-keeps c nfs q _ (mark-keeps c nf q log m)

  module _ (accepts : (log : List Request) (q : Request) → api.perform log q ≡ true) where
    mark-deletes :
        (c : Bool) (nf : Nf) (log : List Request)
        → Memᴰ (delete_nf nf.key) (mark_failed_and_delete_nf api sort c nf log)
    unfolding mark_failed_and_delete_nf
    mark-deletes c nf log = elim (Bool-cases (is_failed_nf nf log)) [
      | inl e ↦ rw (e, mark_failed_and_delete_nf) (Memᴰ.append_right log (head refl))
      | inr e ↦
          rw (e, mark_failed_and_delete_nf, accepts log (patch_failed nf.key c))
            (Memᴰ.append_right (log ++ (patch_failed nf.key c ∷ [])) (head refl))
    ]

    collect_each-deletes :
        (c : Bool) (nfs : List Nf) (nf : Nf) (log : List Request)
        → Memᴰ nf nfs
        → Memᴰ (delete_nf nf.key) (collect_each api sort c nfs log)
    unfolding collect_each
    collect_each-deletes c [] nf log m = elim m [ ]
    collect_each-deletes c (x ∷ nfs) nf log (head e) = collect_each-keeps c nfs _ _ (
        subst (λ y. Memᴰ (delete_nf y.key) (mark_failed_and_delete_nf api sort c x log)) (sym e)
          (mark-deletes c x log))
    collect_each-deletes c (x ∷ nfs) nf log (tail m) =
        collect_each-deletes c nfs nf (mark_failed_and_delete_nf api sort c x log) m

    -- A round of the garbage collection, where the API server accepts its requests, deletes every
    -- network function of its listing that is terminating without a target, by its namespace and name.
    pub gc_reconcile-unscheduled :
        (threshold : ℕ) (ready : List (Option Text)) (nfs : List Nf) (targets : List Text)
        (log : List Request)
        → (nf : Nf) → Memᴰ nf nfs
        → nf.deleting ≡ true
        → nf.target ≡ []
        → Memᴰ (delete_nf nf.key) (gc_reconcile api sort threshold ready nfs targets log)
    unfolding gc_reconcile gc_unscheduled_terminating
    gc_reconcile-unscheduled threshold ready nfs targets log nf m deleting empty =
        collect_each-deletes false _ nf _ (
          Memᴰ-select (λ x. x.deleting && text_eq x.target []) nf nfs m (rw (deleting, empty) refl))
