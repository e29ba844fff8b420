-- ===== src/ReplicaSet/Order/Less.antt =====
-- util/sorting.go: the order in which network functions are preferred for deletion.
use iml.Common.{
  ℕ, ◌≡◌, refl, Bool, true, false, not, ◌&&◌, ◌||◌, ◌==◌, List, [], ◌∷◌, ltb, if◌then◌else◌, arith,
}
use iml.Common.Int.{ -ℤ_parts}
use iml.Common.Texts.{Text, text_eq, text_lt, text_eq_sym, text_lt_asym}
use iml.ReplicaSet.Functions.{NetworkFunction, is_nf_ready}
use iml.ReplicaSet.Order.{
  Ranked, less, ready_less, created_less, time_less, nf_ready_time, is_empty, phase_ordinal,
  bool_eq, log_rank,
}

-- The rules from the first to the fourth, over what they compare.
target_asym :
    (same same' e e' r r' : Bool)
    → same ≡ same'
    → (e ≡ true → e' ≡ true → same ≡ true)
    → (r ≡ true → r' ≡ false)
    → (if not same && (e || e') then e else r) ≡ true
    → (if not same' && (e' || e) then e' else r') ≡ false
target_asym same same' e e' r r' s b f h = ground arith

phase_asym :
    (p q i j : ℕ) (a b r r' : Bool)
    → (r ≡ true → r' ≡ false)
    → (if not (p == q)
        then ltb p q
        else if not (bool_eq a b)
        then not a
        else if not (i == j)
        then ltb j i
        else r)
      ≡ true
    → (if not (q == p)
        then ltb q p
        else if not (bool_eq b a)
        then not b
        else if not (j == i)
        then ltb i j
        else r')
      ≡ false
phase_asym p q i j a b r r' f h = ground arith

empty_eq : (s t : Text) → is_empty s ≡ true → is_empty t ≡ true → text_eq s t ≡ true
empty_eq [] [] h k = refl
empty_eq [] (y ∷ t) h k = cc
empty_eq (x ∷ s) t h k = cc

module _ (log2 : ℕ → ℕ) (now : ℕ) where
  time_less_asym :
      (t u : ℕ) (a b : Text)
      → ((t == u) ≡ false)
      → time_less log2 now t u a b ≡ true
      → time_less log2 now u t b a ≡ false
  unfolding time_less
  time_less_asym t u a b d =
      let x = -ℤ_parts (log_rank log2 now t) (log_rank log2 now u) in
      let y = -ℤ_parts (log_rank log2 now u) (log_rank log2 now t) in
      ground (arith, x, y, text_lt_asym a b)

  created_less_asym :
      (a b : NetworkFunction) → created_less log2 now a b ≡ true → created_less log2 now b a ≡ false
  unfolding created_less
  created_less_asym a b = ground (arith, time_less_asym a.created b.created a.uid b.uid)

  ready_less_asym :
      (a b : NetworkFunction) → ready_less log2 now a b ≡ true → ready_less log2 now b a ≡ false
  unfolding ready_less
  ready_less_asym a b =
      ground (
        arith,
        created_less_asym a b,
        time_less_asym (nf_ready_time a) (nf_ready_time b) a.uid b.uid,
      )

  -- `Less` never puts two network functions each before the other.
  pub less_asym : (x y : Ranked) → less log2 now x y ≡ true → less log2 now y x ≡ false
  unfolding less
  less_asym x y =
      let a = x.nf in
      let b = y.nf in
      target_asym _ _ (is_empty a.target_name) (is_empty b.target_name) _ _
        (text_eq_sym a.target_name b.target_name) (empty_eq a.target_name b.target_name)
        (phase_asym (phase_ordinal a.phase) (phase_ordinal b.phase) x.rank y.rank (is_nf_ready a)
          (is_nf_ready b) (ready_less log2 now a b) (ready_less log2 now b a) (ready_less_asym a b))

-- What the first three rules compare, as numbers.
abbrev number : Bool → ℕ
number true = 1
number false = 0

abbrev pub first_keys : NetworkFunction → List ℕ
first_keys nf =
    number (not (is_empty nf.target_name)) ∷ phase_ordinal nf.phase ∷ number (is_nf_ready nf) ∷ []

eq_empty : (s t : Text) → text_eq s t ≡ true → is_empty s ≡ is_empty t
eq_empty [] [] h = refl
eq_empty [] (y ∷ t) h = cc
eq_empty (x ∷ s) [] h = cc
eq_empty (x ∷ s) (y ∷ t) h = refl

first_rules :
    (same e e' : Bool) (p q i j : ℕ) (a b r : Bool)
    → (same ≡ true → e ≡ e')
    → (text_lt (number (not e) ∷ p ∷ number a ∷ []) (number (not e') ∷ q ∷ number b ∷ [])
        || text_eq (number (not e) ∷ p ∷ number a ∷ []) (number (not e') ∷ q ∷ number b ∷ [])
          && ltb j i)
      ≡ true
    → (if not same && (e || e')
        then e
        else if not (p == q)
        then ltb p q
        else if not (bool_eq a b)
        then not a
        else if not (i == j)
        then ltb j i
        else r)
      ≡ true
first_rules same e e' p q i j a b r f h = ground arith

-- A network function is before another if it comes first by, in this order: having no target, not
-- running, not being ready, sharing its target with more network functions of the owner.
pub less-first_keys :
    (log2 : ℕ → ℕ) (now : ℕ) (x y : Ranked)
    → (text_lt (first_keys x.nf) (first_keys y.nf)
        || text_eq (first_keys x.nf) (first_keys y.nf) && ltb y.rank x.rank)
      ≡ true
    → less log2 now x y ≡ true
unfolding less
less-first_keys log2 now x y h =
    let a = x.nf in
    let b = y.nf in
    first_rules (text_eq a.target_name b.target_name) (is_empty a.target_name)
      (is_empty b.target_name) (phase_ordinal a.phase) (phase_ordinal b.phase) x.rank y.rank
      (is_nf_ready a) (is_nf_ready b) _ (eq_empty a.target_name b.target_name) h
