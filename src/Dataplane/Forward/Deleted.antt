-- ===== src/Dataplane/Forward/Deleted.antt =====
-- Which rules are left: daemon/pkg/dataplane/vrf/software_linux.go.
use iml.Common.{
  ℕ, suc, ◌≡◌, inl, inr, Bool, true, false, List, [], ◌∷◌, ◌++◌, length, some, refl, sym, ap, ◌∙◌,
  Bool-cases, if◌then◌else◌, append_assoc, length-append, arith,
}
use iml.Common.Texts.{Text}
use iml.Dataplane.Forward.{
  remove_nth, Iptables, is_invalid_drop_rule, delete_from_end,
  delete_kube_forward_invalid_drop_rules,
}

-- The rules that do not drop invalid packets, in their order.
unfoldable pub without_invalid_drops : List Text → List Text
without_invalid_drops [] = []
without_invalid_drops (r ∷ rs) =
    let rest = without_invalid_drops rs in if is_invalid_drop_rule r then rest else r ∷ rest

remove_nth-append :
    (front : List Text) (r : Text) (rs : List Text)
    → remove_nth (length front) (front ++ (r ∷ rs)) ≡ front ++ rs
unfolding remove_nth
remove_nth-append [] r rs = refl
remove_nth-append (x ∷ front) r rs = ap (λ l. x ∷ l) (remove_nth-append front r rs)

module _ (ipt : Iptables) where
  -- With the rules before them left alone, the rules looked at are filtered.
  delete_from_end-rules :
      (n : ℕ) (front rs : List Text) (s : ipt.State)
      → length front ≡ n
      → ipt.rules s ≡ front ++ rs
      → (delete_from_end ipt n rs s).0 ≡ true
      → ipt.rules (delete_from_end ipt n rs s).1 ≡ front ++ without_invalid_drops rs
  unfolding delete_from_end without_invalid_drops
  delete_from_end-rules n front [] s len e h = e
  delete_from_end-rules n front (r ∷ rs) s len e h =
      let later = delete_from_end ipt (suc n) rs s in
      elim (Bool-cases later.0) [
        | inr f ↦ let k = rw (f, delete_from_end) at h in cc
        | inl t ↦
            let ih =
              delete_from_end-rules (suc n) (front ++ (r ∷ [])) rs s
                (omega (arith, length-append front (r ∷ []), len))
                (e ∙ sym (append_assoc front (r ∷ []) rs)) t
              ∙ append_assoc front (r ∷ []) (without_invalid_drops rs) in
            elim (Bool-cases (is_invalid_drop_rule r)) [
              | inl i ↦
                  let k = rw (t, delete_from_end, i) at h in
                  rw (t, delete_from_end, i, without_invalid_drops)
                    (ipt.delete_by_id-rules n later.1 k
                      ∙ ap (remove_nth n) ih
                      ∙ ap (λ j. remove_nth j (front ++ (r ∷ without_invalid_drops rs))) (sym len)
                      ∙ remove_nth-append front r (without_invalid_drops rs))
              | inr i ↦ rw (t, delete_from_end, i, without_invalid_drops) ih
            ]
      ]

  -- `deleteKubeForwardInvalidDropRules`, where it returns no error and the chain exists, leaves the
  -- rules of KUBE-FORWARD that do not drop invalid packets, all of them and in their order, and no
  -- other; where the chain does not exist, it changes nothing.
  pub delete_kube_forward_invalid_drop_rules-rules :
      (s : ipt.State) (exists : Bool)
      → ipt.chain_exists s ≡ some exists
      → (delete_kube_forward_invalid_drop_rules ipt s).0 ≡ true
      → ipt.rules (delete_kube_forward_invalid_drop_rules ipt s).1
        ≡ (if exists then without_invalid_drops (ipt.rules s) else ipt.rules s)
  unfolding delete_kube_forward_invalid_drop_rules
  delete_kube_forward_invalid_drop_rules-rules s false q h =
      rw (q, delete_kube_forward_invalid_drop_rules) refl
  delete_kube_forward_invalid_drop_rules-rules s true q h = elim (Bool-cases (ipt.list_fails s)) [
    | inl f ↦ let k = rw (q, delete_kube_forward_invalid_drop_rules, f) at h in cc
    | inr f ↦
        let k = rw (q, delete_kube_forward_invalid_drop_rules, f) at h in
        rw (q, delete_kube_forward_invalid_drop_rules, f)
          (delete_from_end-rules 0 [] (ipt.rules s) s refl refl k)
  ]
