-- ===== src/Dataplane/Forward/Tests.antt =====
-- The rules of kube-proxy on a chain of three.
use iml.Common.{
  ℕ, zero, suc, ◌≡◌, refl, Bool, true, false, some, List, [], ◌∷◌, ◌++◌, if◌then◌else◌,
}
use iml.Common.Texts.{Text}
use iml.Dataplane.Forward.{
  remove_nth, Iptables, ctstate_invalid, jump_drop, delete_kube_forward_invalid_drop_rules,
}
use iml.Dataplane.Forward.Deleted.{
  without_invalid_drops, delete_kube_forward_invalid_drop_rules-rules,
}

-- A state is the list of the rules.
abbrev by_number : ℕ → List Text → Bool × List Text
by_number zero s = (false, s)
by_number (suc n) s = (true, remove_nth n s)

abbrev listed : Iptables
listed = record {
  State = List Text;
  chain_exists = λ s. some true;
  rules = λ s. s;
  list_fails = λ s. false;
  delete_by_id = by_number;
  delete_by_id-rules = λ n s h. refl;
}

abbrev dropping : Text
dropping = ctstate_invalid ++ (32 ∷ jump_drop)

abbrev three : List Text
three = dropping ∷ (65 ∷ []) ∷ dropping ∷ []

one_left : (delete_kube_forward_invalid_drop_rules listed three).1 ≡ (65 ∷ []) ∷ []
unfolding delete_kube_forward_invalid_drop_rules iml.Dataplane.Forward.delete_from_end
    iml.Dataplane.Forward.is_invalid_drop_rule iml.Dataplane.Forward.contains_text
    iml.Dataplane.Forward.has_prefix iml.Dataplane.Forward.has_suffix remove_nth
one_left = refl

delete_kube_forward_invalid_drop_rules_example :
    (delete_kube_forward_invalid_drop_rules listed three).1
    ≡ (if true then without_invalid_drops three else three)
unfolding delete_kube_forward_invalid_drop_rules iml.Dataplane.Forward.delete_from_end
    iml.Dataplane.Forward.is_invalid_drop_rule iml.Dataplane.Forward.contains_text
    iml.Dataplane.Forward.has_prefix iml.Dataplane.Forward.has_suffix
delete_kube_forward_invalid_drop_rules_example =
    delete_kube_forward_invalid_drop_rules-rules listed three true refl refl
