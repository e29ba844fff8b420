-- ===== src/Nfgc/Requests.antt =====
-- What the parts of the garbage collection add to the requests:
-- operator/internal/controller/core/nfgc/nfgc_controller.go.
use iml.Common.{
  ℕ, zero, suc, not, ◌&&◌, ◌≡◌, ◌⊎◌, inl, inr, Bool, true, false, List, [], ◌∷◌, ◌++◌, Option, none,
  some, append_nil, append_assoc, if◌then◌else◌, refl, sym, ap, ◌∙◌, subst, Bool-cases,
  Option-cases, if_cases,
}
use iml.Common.Texts.{Text, text_eq, eq_of_text_eq}
use mathlib.Core.List.{Memᴰ}
use mathlib.Core.List.Memᴰ
use mathlib.Core.List.Memᴰ.{head, tail}
use iml.Nfgc.{
  NfKey, Nf, Request, Api, patch_failed, delete_nf, quarantine, is_failed_nf, first_of_list, select,
  mark_failed_and_delete_nf, collect_each, has_text, discover_deleted_targets, quarantine_missing,
}

module _ {ℓ} {A : Type ℓ} where
  pub select-Memᴰ :
      (p : A → Bool) (x : A) (xs : List A) → Memᴰ x (select p xs) → Memᴰ x xs × (p x ≡ true)
  unfolding select
  select-Memᴰ p x [] h = elim h [ ]
  select-Memᴰ p x (y ∷ ys) h = elim (Bool-cases (p y)) [
    | inl e ↦ elim (Memᴰ.cases_cons (rw (e, select) at h)) [
      | inl q ↦ (head q, ap p q ∙ e)
      | inr t ↦ let (m, r) = select-Memᴰ p x ys t in (tail m, r)
    ]
    | inr e ↦ let (m, r) = select-Memᴰ p x ys (rw (e, select) at h) in (tail m, r)
  ]

  pub first_of_list-Memᴰ : (n : ℕ) (x : A) (xs : List A) → Memᴰ x (first_of_list n xs) → Memᴰ x xs
  unfolding first_of_list
  first_of_list-Memᴰ zero x xs h = elim h [ ]
  first_of_list-Memᴰ (suc n) x [] h = elim h [ ]
  first_of_list-Memᴰ (suc n) x (y ∷ ys) (head e) = head e
  first_of_list-Memᴰ (suc n) x (y ∷ ys) (tail m) = tail (first_of_list-Memᴰ n x ys m)

-- `after` goes on from `log`, and asks in this part to delete the network function.
abbrev pub AsksAfter : NfKey → List Request → List Request → Type 0
AsksAfter key log after = (rest : List Request) × (after ≡ log ++ rest) × Memᴰ (delete_nf key) rest

pub AsksAfter-more :
    (key : NfKey) (log after more : List Request)
    → AsksAfter key log after
    → AsksAfter key log (after ++ more)
AsksAfter-more key log after more (rest, e, m) =
    (rest ++ more, ap (λ l. l ++ more) e ∙ append_assoc log rest more, Memᴰ.append_left more m)

-- Requests are only added.
abbrev pub Extends : List Request → List Request → Type 0
Extends log after = (rest : List Request) × (after ≡ log ++ rest)

pub Extends-trans : (a b c : List Request) → Extends a b → Extends b c → Extends a c
Extends-trans a b c (x, p) (y, q) = (x ++ y, q ∙ ap (λ l. l ++ y) p ∙ append_assoc a x y)

module _ (api : Api) (sort : (Nf → Nf → Bool) → List Nf → List Nf) where
  mark-Extends :
      (c : Bool) (nf : Nf) (log : List Request)
      → Extends log (mark_failed_and_delete_nf api sort c nf log)
  unfolding mark_failed_and_delete_nf
  mark-Extends c nf log = elim (Bool-cases (is_failed_nf nf log)) [
    | inl e ↦ (delete_nf nf.key ∷ [], rw (e, mark_failed_and_delete_nf) refl)
    | inr e ↦ elim (Bool-cases (api.perform log (patch_failed nf.key c))) [
      | inl p ↦ (
        (patch_failed nf.key c ∷ []) ++ (delete_nf nf.key ∷ []),
        rw (e, mark_failed_and_delete_nf, p)
            (append_assoc log (patch_failed nf.key c ∷ []) (delete_nf nf.key ∷ [])),
      )
      | inr p ↦ (patch_failed nf.key c ∷ [], rw (e, mark_failed_and_delete_nf, p) refl)
    ]
  ]

  pub collect_each-Extends :
      (c : Bool) (xs : List Nf) (log : List Request) → Extends log (collect_each api sort c xs log)
  unfolding collect_each
  collect_each-Extends c [] log = ([], sym (append_nil log))
  collect_each-Extends c (x ∷ xs) log =
      Extends-trans log (mark_failed_and_delete_nf api sort c x log) _ (mark-Extends c x log)
        (collect_each-Extends c xs (mark_failed_and_delete_nf api sort c x log))

  mark-Deletes :
      (c : Bool) (nf : Nf) (n : NfKey) (log : List Request)
      → Memᴰ (delete_nf n) (mark_failed_and_delete_nf api sort c nf log)
      → Memᴰ (delete_nf n) log ⊎ (n ≡ nf.key)
  unfolding mark_failed_and_delete_nf
  mark-Deletes c nf n log h = elim (Bool-cases (is_failed_nf nf log)) [
    | inl e ↦ last_delete n nf.key log (rw (e, mark_failed_and_delete_nf) at h)
    | inr e ↦ elim (Bool-cases (api.perform log (patch_failed nf.key c))) [
      | inl p ↦ elim (last_delete n nf.key _ (rw (e, mark_failed_and_delete_nf, p) at h)) [
        | inl k ↦ inl (last_patch n nf.key c log k)
        | inr q ↦ inr q
      ]
      | inr p ↦ inl (last_patch n nf.key c log (rw (e, mark_failed_and_delete_nf, p) at h))
    ]
  ]
    where
      last_delete :
          (n m : NfKey) (log : List Request)
          → Memᴰ (delete_nf n) (log ++ (delete_nf m ∷ []))
          → Memᴰ (delete_nf n) log ⊎ (n ≡ m)
      last_delete n m log h = elim (Memᴰ.append_cases log h) [
        | inl k ↦ inl k
        | inr k ↦ let q = Memᴰ.eq_of_singleton k in inr cc
      ]

      last_patch :
          (n m : NfKey) (c : Bool) (log : List Request)
          → Memᴰ (delete_nf n) (log ++ (patch_failed m c ∷ []))
          → Memᴰ (delete_nf n) log
      last_patch n m c log h = elim (Memᴰ.append_cases log h) [
        | inl k ↦ k
        | inr k ↦ let q = Memᴰ.eq_of_singleton k in cc
      ]

  pub collect_each-Deletes :
      (c : Bool) (xs : List Nf) (n : NfKey) (log : List Request)
      → Memᴰ (delete_nf n) (collect_each api sort c xs log)
      → Memᴰ (delete_nf n) log ⊎ ((nf : Nf) × Memᴰ nf xs × (n ≡ nf.key))
  unfolding collect_each
  collect_each-Deletes c [] n log h = inl h
  collect_each-Deletes c (x ∷ xs) n log h =
      elim (collect_each-Deletes c xs n (mark_failed_and_delete_nf api sort c x log) h) [
        | inl k ↦ elim (mark-Deletes c x n log k) [ inl m ↦ inl m | inr q ↦ inr (x, head refl, q) ]
        | inr (nf, m, q) ↦ inr (nf, tail m, q)
      ]

  -- What a call of `collect_each` deletes beside what was deleted, it deletes after what was asked.
  pub collect_each-AsksAfter :
      (c : Bool) (xs : List Nf) (n : NfKey) (log : List Request)
      → Memᴰ (delete_nf n) (collect_each api sort c xs log)
      → Memᴰ (delete_nf n) log
        ⊎ ((nf : Nf) × Memᴰ nf xs
            × (n ≡ nf.key)
            × AsksAfter nf.key log (collect_each api sort c xs log))
  collect_each-AsksAfter c xs n log h = elim (collect_each-Deletes c xs n log h) [
    | inl m ↦ inl m
    | inr (nf, m, q) ↦
        let (rest, e) = collect_each-Extends c xs log in
        elim (Memᴰ.append_cases log (subst (Memᴰ (delete_nf n)) e h)) [
          | inl k ↦ inl k
          | inr k ↦ inr (nf, m, q, (rest, e, subst (λ key. Memᴰ (delete_nf key) rest) q k))
        ]
  ]

  pub discover-gone :
      (existing : List Text) (ready : List (Option Text)) (log : List Request) (t : Text)
      (gone : List Text)
      → discover_deleted_targets api sort existing ready log ≡ some gone
      → has_text api sort t gone ≡ true
      → (has_text api sort t existing ≡ false) × (api.target_exists log t ≡ some false)
  unfolding discover_deleted_targets has_text
  discover-gone existing [] log t gone found h = let none_found : some [] ≡ some gone = found in cc
  discover-gone existing (none ∷ ready) log t gone found h =
      let no_result : none ≡ some gone = found in cc
  discover-gone existing (some name ∷ ready) log t gone found h =
      let more = discover-gone existing ready log t in
      elim (Bool-cases (has_text api sort name existing)) [
        | inl e ↦ more gone (rw (e, discover_deleted_targets) at found) h
        | inr e ↦ elim (Option-cases (api.target_exists log name)) [
          | inl q ↦ more gone (rw (e, discover_deleted_targets, q) at found) h
          | inr (true, q) ↦ more gone (rw (e, discover_deleted_targets, q) at found) h
          | inr (false, q) ↦
              elim (Option-cases (discover_deleted_targets api sort existing ready log)) [
                | inl p ↦
                    (let no_result : none ≡ some gone =
                        rw (e, discover_deleted_targets, q, p) at found in
                      cc)
                | inr (others, p) ↦
                    let is_gone : some (name ∷ others) ≡ some gone =
                      rw (e, discover_deleted_targets, q, p) at found in
                    let k : has_text api sort t (name ∷ others) ≡ true =
                      ap (λ o. has_text api sort t (texts_of o)) is_gone ∙ h in
                    elim (Bool-cases (text_eq name t)) [
                      | inl same ↦
                          let r = eq_of_text_eq name t same in
                          (
                            ap (λ u. has_text api sort u existing) (sym r) ∙ e,
                            ap (api.target_exists log) (sym r) ∙ q,
                          )
                      | inr other ↦ more others p (rw (other, has_text) at k)
                    ]
              ]
        ]
      ]
    where
      texts_of : Option (List Text) → List Text
      texts_of none = []
      texts_of (some ts) = ts

  last_quarantine :
      (n : NfKey) (m : Text) (log : List Request)
      → Memᴰ (delete_nf n) (log ++ (quarantine m ∷ []))
      → Memᴰ (delete_nf n) log
  last_quarantine n m log h = elim (Memᴰ.append_cases log h) [
    | inl k ↦ k
    | inr k ↦ let q = Memᴰ.eq_of_singleton k in cc
  ]

  pub quarantine-Deletes :
      (existing : List Text) (nfs : List Nf) (n : NfKey) (log : List Request)
      → Memᴰ (delete_nf n) (quarantine_missing api sort existing nfs log)
      → Memᴰ (delete_nf n) log
  unfolding quarantine_missing
  quarantine-Deletes existing [] n log h = h
  quarantine-Deletes existing (nf ∷ nfs) n log h =
      if_cases (λ l. Memᴰ (delete_nf n) l → Memᴰ (delete_nf n) log)
        (not (text_eq nf.target []) && not (has_text api sort nf.target existing))
        (λ e k. last_quarantine n nf.target log k) (λ e k. k)
        (quarantine-Deletes existing nfs n _ h)

  pub quarantine-Extends :
      (existing : List Text) (nfs : List Nf) (log : List Request)
      → Extends log (quarantine_missing api sort existing nfs log)
  unfolding quarantine_missing
  quarantine-Extends existing [] log = ([], sym (append_nil log))
  quarantine-Extends existing (nf ∷ nfs) log =
      let missing = not (text_eq nf.target []) && not (has_text api sort nf.target existing) in
      let after = if missing then log ++ (quarantine nf.target ∷ []) else log in
      Extends-trans log after _
        (if_cases (Extends log) missing (λ e. (quarantine nf.target ∷ [], refl))
          (λ e. ([], sym (append_nil log))))
        (quarantine-Extends existing nfs after)
