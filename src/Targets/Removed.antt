-- ===== src/Targets/Removed.antt =====
-- p4target_util.go: what is removed.
use iml.Common.{
  ◌≡◌, refl, ap, sym, ◌∙◌, true, false, none, List, [], ◌∷◌, if◌then◌else◌, Bool-cases, inl, inr,
}
use iml.Common.Texts.{Text, text_eq, eq_of_text_eq}
use iml.Targets.{Taint, get_taint, has_key, remove_taints}

-- After `RemoveTaints` there is no taint with one of the keys, and the first taint with any other key
-- is the one that was there.
pub get_taint-remove_taints :
    (taints : List Taint) (keys : List Text) (k : Text)
    → get_taint (remove_taints taints keys).0 k
      ≡ (if has_key k keys then none else get_taint taints k)
unfolding get_taint remove_taints
get_taint-remove_taints [] keys k = elim (Bool-cases (has_key k keys)) [
  | inl h ↦ rw h refl
  | inr h ↦ rw h refl
]
get_taint-remove_taints (t ∷ taints) keys k =
    let rest = get_taint-remove_taints taints keys k in
    elim (Bool-cases (has_key t.key keys)) [
      | inl h ↦ elim (Bool-cases (text_eq t.key k)) [
        | inl e ↦
            let gone : has_key k keys ≡ true =
              sym (ap (λ (j : Text). has_key j keys) (eq_of_text_eq t.key k e)) ∙ h in
            rw h (rest ∙ rw gone refl)
        | inr e ↦ rw (h, e) rest
      ]
      | inr h ↦ elim (Bool-cases (text_eq t.key k)) [
        | inl e ↦
            let left : has_key k keys ≡ false =
              sym (ap (λ (j : Text). has_key j keys) (eq_of_text_eq t.key k e)) ∙ h in
            rw (h, get_taint) (rw (e, left) refl)
        | inr e ↦ rw (h, get_taint) (rw e rest)
      ]
    ]
