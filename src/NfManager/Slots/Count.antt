-- ===== src/NfManager/Slots/Count.antt =====
-- nf_mgr.go: how the number of deployed network functions changes.
use iml.Common.{
  ℕ, suc, ◌≤◌, ◌<◌, ◌≡◌, ◌≢◌, refl, ap, sym, ◌∙◌, Bool, true, false, ◌&&◌, ◌==◌, List, [], ◌∷◌,
  if_pos, if_neg, arith, Bool-cases, inl, inr,
}
use iml.NfManager.Handle.{Handle}
use iml.NfManager.Manager.{
  OpType, TrackedOp, is_ready, is_present, is_deployed, one_if, deployed_count, put_op, delete_op,
}

-- No handle becomes ready.
abbrev pub Calmer : (ℕ → Handle) → (ℕ → Handle) → Type 0
Calmer hs gs = (i : ℕ) → is_ready (gs i).status.phase ≡ true → is_ready (hs i).status.phase ≡ true

-- No other handle changes.
abbrev pub SameBut : ℕ → (ℕ → Handle) → (ℕ → Handle) → Type 0
SameBut i hs gs = (j : ℕ) → j ≢ i → gs j ≡ hs j

one_if-le : (b c : Bool) (n m : ℕ) → (b ≡ true → c ≡ true) → n ≤ m → one_if b n ≤ one_if c m
one_if-le true c n m h le = rw (h refl) (omega arith)
one_if-le false true n m h le = omega arith
one_if-le false false n m h le = le

lt_le : {a b c : ℕ} → a < b → b ≤ c → a < c
lt_le p q = omega arith

lt_ne : {a b : ℕ} → a < b → a ≢ b
lt_ne p = omega arith

one_if-ge : (b : Bool) (n : ℕ) → n ≤ one_if b n
one_if-ge true n = omega arith
one_if-ge false n = omega arith

one_if-suc : (b c : Bool) (n : ℕ) → one_if b n ≤ suc (one_if c n)
one_if-suc true true n = omega arith
one_if-suc true false n = omega arith
one_if-suc false true n = omega arith
one_if-suc false false n = omega arith

one_if-suc_le : (b : Bool) (n m : ℕ) → n ≤ suc m → one_if b n ≤ suc (one_if b m)
one_if-suc_le true n m h = omega arith
one_if-suc_le false n m h = omega arith

is_deployed-le :
    (hs gs : ℕ → Handle) (o : TrackedOp)
    → Calmer hs gs
    → is_deployed gs o ≡ true
    → is_deployed hs o ≡ true
is_deployed-le hs gs o c = elim (Bool-cases (is_present o.op_type)) [
  | inl p ↦ rw p (c o.handle)
  | inr p ↦ rw p (λ h. h)
]

module _ {K : Type 0} where
  -- The handle of no operation.
  abbrev pub Fresh : ℕ → List (K × TrackedOp) → Type 0
  Fresh i [] = Unit {0}
  Fresh i ((k, o) ∷ ops) = (o.handle ≢ i) × Fresh i ops

  -- No handle belongs to two operations, and all have been given out.
  abbrev pub Distinct : ℕ → List (K × TrackedOp) → Type 0
  Distinct n [] = Unit {0}
  Distinct n ((k, o) ∷ ops) = (o.handle < n) × Fresh o.handle ops × Distinct n ops

  pub deployed_count-le :
      (hs gs : ℕ → Handle) (ops : List (K × TrackedOp))
      → Calmer hs gs
      → deployed_count gs ops ≤ deployed_count hs ops
  unfolding deployed_count
  deployed_count-le hs gs [] c = omega arith
  deployed_count-le hs gs ((k, o) ∷ ops) c =
      one_if-le (is_deployed gs o) (is_deployed hs o) (deployed_count gs ops)
        (deployed_count hs ops) (is_deployed-le hs gs o c) (deployed_count-le hs gs ops c)

  -- A handle of no operation does not count.
  deployed_count-Fresh :
      (hs gs : ℕ → Handle) (i : ℕ) (ops : List (K × TrackedOp))
      → SameBut i hs gs
      → Fresh i ops
      → deployed_count gs ops ≡ deployed_count hs ops
  unfolding deployed_count
  deployed_count-Fresh hs gs i [] s f = refl
  deployed_count-Fresh hs gs i ((k, o) ∷ ops) s f =
      ap (λ h. one_if (is_present o.op_type && is_ready h.status.phase) (deployed_count gs ops))
        (s o.handle f.0)
      ∙ ap (one_if (is_deployed hs o)) (deployed_count-Fresh hs gs i ops s f.1)

  -- Changing one handle adds at most one.
  pub deployed_count-suc :
      (hs gs : ℕ → Handle) (i n : ℕ) (ops : List (K × TrackedOp))
      → SameBut i hs gs
      → Distinct n ops
      → deployed_count gs ops ≤ suc (deployed_count hs ops)
  unfolding deployed_count
  deployed_count-suc hs gs i n [] s d = omega arith
  deployed_count-suc hs gs i n ((k, o) ∷ ops) s (lt, f, d) = elim (Bool-cases (o.handle == i)) [
    | inl e ↦
        let same : o.handle ≡ i = ground (arith, e) in
        let rest = deployed_count-Fresh hs gs o.handle ops (λ j h. s j (λ q. h (q ∙ sym same))) f in
        rw rest (one_if-suc (is_deployed gs o) (is_deployed hs o) (deployed_count hs ops))
    | inr e ↦
        let other : o.handle ≢ i = ground (arith, e) in
        rw (s o.handle other) (
          one_if-suc_le (is_deployed hs o) (deployed_count gs ops) (deployed_count hs ops)
            (deployed_count-suc hs gs i n ops s d))
  ]

  Fresh-next : (n i : ℕ) (ops : List (K × TrackedOp)) → n ≤ i → Distinct n ops → Fresh i ops
  Fresh-next n i [] le d = tt
  Fresh-next n i ((k, o) ∷ ops) le (lt, f, d) =
      (λ e. lt_ne (lt_le lt le) e, Fresh-next n i ops le d)

  Distinct-suc : (n : ℕ) (ops : List (K × TrackedOp)) → Distinct n ops → Distinct (suc n) ops
  Distinct-suc n [] d = tt
  Distinct-suc n ((k, o) ∷ ops) (lt, f, d) = (omega arith, f, Distinct-suc n ops d)

  module _ (dec : Discrete K) where
    Fresh-put_op :
        (i : ℕ) (k : K) (o : TrackedOp) (ops : List (K × TrackedOp))
        → o.handle ≢ i
        → Fresh i ops
        → Fresh i (put_op dec k o ops)
    unfolding put_op
    Fresh-put_op i k o [] n f = (n, tt)
    Fresh-put_op i k o ((j, p) ∷ ops) n f = elim (dec k j) [
      | yes e ↦ rw (if_pos (dec k j) e) (n, f.1)
      | no e ↦ rw (if_neg (dec k j) e) (f.0, Fresh-put_op i k o ops n f.1)
    ]

    pub Distinct-put_op :
        (n : ℕ) (k : K) (type : OpType) (ops : List (K × TrackedOp))
        → Distinct n ops
        → Distinct (suc n) (put_op dec k (record { handle = n; op_type = type }) ops)
    unfolding put_op
    Distinct-put_op n k type [] d = (omega arith, tt, tt)
    Distinct-put_op n k type ((j, p) ∷ ops) (lt, f, d) = elim (dec k j) [
      | yes e ↦
          rw (if_pos (dec k j) e)
            (omega arith, Fresh-next n n ops (omega arith) d, Distinct-suc n ops d)
      | no e ↦ rw (if_neg (dec k j) e) (
        omega arith,
        Fresh-put_op p.handle k (record { handle = n; op_type = type }) ops (λ q. lt_ne lt (sym q))
            f,
        Distinct-put_op n k type ops d,
      )
    ]

    pub deployed_count-put_op :
        (hs : ℕ → Handle) (k : K) (o : TrackedOp) (ops : List (K × TrackedOp))
        → is_deployed hs o ≡ false
        → deployed_count hs (put_op dec k o ops) ≤ deployed_count hs ops
    unfolding put_op deployed_count
    deployed_count-put_op hs k o [] n = rw n (omega arith)
    deployed_count-put_op hs k o ((j, p) ∷ ops) n = elim (dec k j) [
      | yes e ↦ rw (if_pos (dec k j) e, n) (one_if-ge (is_deployed hs p) (deployed_count hs ops))
      | no e ↦ rw (if_neg (dec k j) e) (
          one_if-le (is_deployed hs p) (is_deployed hs p) (deployed_count hs (put_op dec k o ops))
            (deployed_count hs ops) (λ h. h) (deployed_count-put_op hs k o ops n))
    ]

    Fresh-delete_op :
        (i : ℕ) (k : K) (ops : List (K × TrackedOp)) → Fresh i ops → Fresh i (delete_op dec k ops)
    unfolding delete_op
    Fresh-delete_op i k [] f = f
    Fresh-delete_op i k ((j, p) ∷ ops) f = elim (dec k j) [
      | yes e ↦ rw (if_pos (dec k j) e) (Fresh-delete_op i k ops f.1)
      | no e ↦ rw (if_neg (dec k j) e) (f.0, Fresh-delete_op i k ops f.1)
    ]

    pub Distinct-delete_op :
        (n : ℕ) (k : K) (ops : List (K × TrackedOp))
        → Distinct n ops
        → Distinct n (delete_op dec k ops)
    unfolding delete_op
    Distinct-delete_op n k [] d = d
    Distinct-delete_op n k ((j, p) ∷ ops) (lt, f, d) = elim (dec k j) [
      | yes e ↦ rw (if_pos (dec k j) e) (Distinct-delete_op n k ops d)
      | no e ↦
          rw (if_neg (dec k j) e)
            (lt, Fresh-delete_op p.handle k ops f, Distinct-delete_op n k ops d)
    ]

    pub deployed_count-delete_op :
        (hs : ℕ → Handle) (k : K) (ops : List (K × TrackedOp))
        → deployed_count hs (delete_op dec k ops) ≤ deployed_count hs ops
    unfolding delete_op deployed_count
    deployed_count-delete_op hs k [] = omega arith
    deployed_count-delete_op hs k ((j, p) ∷ ops) = elim (dec k j) [
      | yes e ↦ rw (if_pos (dec k j) e) (
          omega (
            arith,
            deployed_count-delete_op hs k ops,
            one_if-ge (is_deployed hs p) (deployed_count hs ops),
          ))
      | no e ↦ rw (if_neg (dec k j) e) (
          one_if-le (is_deployed hs p) (is_deployed hs p) (deployed_count hs (delete_op dec k ops))
            (deployed_count hs ops) (λ h. h) (deployed_count-delete_op hs k ops))
    ]
