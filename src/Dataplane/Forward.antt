-- ===== src/Dataplane/Forward.antt =====
-- kube-proxy's rules that would drop the fabric's packets: `deleteKubeForwardInvalidDropRules` and
-- `isInvalidDropRule` of daemon/pkg/dataplane/vrf/software_linux.go. go-iptables is a parameter.
use iml.Common.{
  ℕ, zero, suc, ◌+◌, ◌≡◌, ◌⊎◌, inl, inr, Bool, true, false, ◌&&◌, ◌||◌, List, [], ◌∷◌, ◌++◌, length,
  Option, none, some, if◌then◌else◌,
}
use iml.Common.Texts.{Text, text_eq}
pub mod Deleted
mod Tests

-- A list without its entry of a number, from 0.
unfoldable pub remove_nth {ℓ} : {A : Type ℓ} → ℕ → List A → List A
remove_nth n [] = []
remove_nth zero (x ∷ xs) = xs
remove_nth (suc n) (x ∷ xs) = x ∷ remove_nth n xs

-- What the code uses of go-iptables on the chain KUBE-FORWARD of the filter table: `ChainExists`,
-- `List`, whose first line declares the chain, and `DeleteById`, by the number of a rule from 1. Where
-- it returns no error, the rule of that number is gone.
pub record Iptables : Type 1 where
  pub State : Type 0
  pub chain_exists : State → Option Bool
  pub rules : State → List Text
  pub list_fails : State → Bool
  pub delete_by_id : ℕ → State → Bool × State
  pub delete_by_id-rules :
      (n : ℕ) (s : State)
      → (delete_by_id (suc n) s).0 ≡ true
      → rules (delete_by_id (suc n) s).1 ≡ remove_nth n (rules s)

-- `strings.HasPrefix`, `strings.Contains` and `strings.HasSuffix`.
unfoldable pub has_prefix : Text → Text → Bool
has_prefix s [] = true
has_prefix [] (c ∷ p) = false
has_prefix (d ∷ s) (c ∷ p) = text_eq (d ∷ []) (c ∷ []) && has_prefix s p

unfoldable pub contains_text : Text → Text → Bool
contains_text [] p = has_prefix [] p
contains_text (c ∷ s) p = has_prefix (c ∷ s) p || contains_text s p

unfoldable pub has_suffix : Text → Text → Bool
has_suffix [] p = text_eq [] p
has_suffix (c ∷ s) p = text_eq (c ∷ s) p || has_suffix s p

-- "--ctstate INVALID" and "-j DROP"
abbrev pub ctstate_invalid : Text
ctstate_invalid =
    45 ∷ 45 ∷ 99 ∷ 116 ∷ 115 ∷ 116 ∷ 97 ∷ 116 ∷ 101 ∷ 32 ∷ 73 ∷ 78 ∷ 86 ∷ 65 ∷ 76 ∷ 73 ∷ 68 ∷ []

abbrev pub jump_drop : Text
jump_drop = 45 ∷ 106 ∷ 32 ∷ 68 ∷ 82 ∷ 79 ∷ 80 ∷ []

unfoldable pub is_invalid_drop_rule : Text → Bool
is_invalid_drop_rule rule = contains_text rule ctstate_invalid && has_suffix rule jump_drop

module _ (ipt : Iptables) where
  -- The loop from the last rule to the first: it deletes those of a list whose first has the number
  -- n + 1, and returns whether no deletion failed.
  unfoldable pub delete_from_end : ℕ → List Text → ipt.State → Bool × ipt.State
  delete_from_end n [] s = (true, s)
  delete_from_end n (r ∷ rs) s =
      let later = delete_from_end (suc n) rs s in
      elim later.0 [
        | false ↦ later
        | true ↦ if is_invalid_drop_rule r then ipt.delete_by_id (suc n) later.1 else later
      ]

  -- `List` returns the declaration of the chain and its rules.
  unfoldable pub delete_kube_forward_invalid_drop_rules : ipt.State → Bool × ipt.State
  delete_kube_forward_invalid_drop_rules s = elim (ipt.chain_exists s) [
    | none ↦ (false, s)
    | some exists ↦ elim exists [
      | false ↦ (true, s)
      | true ↦ if ipt.list_fails s then (false, s) else delete_from_end 0 (ipt.rules s) s
    ]
  ]
