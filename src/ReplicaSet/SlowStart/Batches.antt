-- ===== src/ReplicaSet/SlowStart/Batches.antt =====
-- replicas.go: what `slowStartBatch` calls, counts and returns.
use iml.Common.{
  ℕ, zero, suc, ◌+◌, ◌-◌, ◌*◌, ◌≤◌, ◌<◌, ◌≡◌, refl, sym, ◌∙◌, ap, Option, none, some, List, [], ◌∷◌,
  length, arith, Option-cases, Bool-cases, ◌==◌, inl, inr, ◌⊎◌, ◌≢◌,
}
use Prim.Native.Nat.{min}
use iml.ReplicaSet.SlowStart.{Started, batch_errors, slow_loop, slow_start_batch}

List-cases : {A : Type 0} (xs : List A) → (xs ≡ []) ⊎ ((y : A) × (ys : List A) × (xs ≡ y ∷ ys))
List-cases [] = inl refl
List-cases (x ∷ xs) = inr (x, xs, refl)

module _ {E : Type 0} (answers : ℕ → Option E) where
  abbrev pub one : Option E → ℕ
  one none = 1
  one (some e) = 0

  -- How many of the first calls succeed.
  abbrev pub good : ℕ → ℕ
  good zero = 0
  good (suc n) = one (answers n) + good n

  one-le : (o : Option E) → one o ≤ 1
  one-le none = omega arith
  one-le (some e) = omega arith

  pub good-le : (n : ℕ) → good n ≤ n
  good-le zero = omega arith
  good-le (suc n) = omega (arith, good-le n, one-le (answers n))

  length_step :
      (n calls : ℕ)
      → length (batch_errors answers calls (suc n)) + one (answers calls)
        ≡ suc (length (batch_errors answers (suc calls) n))
  unfolding batch_errors
  length_step n calls = elim (Option-cases (answers calls)) [
    | inl e ↦ rw (e, batch_errors) (omega arith)
    | inr (x, e) ↦ rw (e, batch_errors) (omega arith)
  ]

  -- The errors of a batch are the calls in it that did not succeed.
  length-batch_errors :
      (n calls : ℕ) → good (calls + n) + length (batch_errors answers calls n) ≡ good calls + n
  unfolding batch_errors
  length-batch_errors zero calls =
      let same : good (calls + 0) ≡ good calls = ap good (omega arith) in omega (arith, same)
  length-batch_errors (suc n) calls =
      let shift : good (calls + suc n) ≡ good (suc calls + n) = ap good (omega arith) in
      omega (arith, shift, length-batch_errors n (suc calls), length_step n calls)

  failed-le : (n calls : ℕ) → length (batch_errors answers calls n) ≤ n
  unfolding batch_errors
  failed-le zero calls = omega arith
  failed-le (suc n) calls = omega (arith, failed-le n (suc calls), length_step n calls)

  -- The first error of a batch is the answer of one of its calls.
  first_error :
      (n calls : ℕ) (x : E) (xs : List E)
      → batch_errors answers calls n ≡ x ∷ xs
      → (i : ℕ) × (calls ≤ i) × (i < calls + n) × (answers i ≡ some x)
  unfolding batch_errors
  first_error zero calls x xs = λ h. cc
  first_error (suc n) calls x xs = elim (Option-cases (answers calls)) [
    | inl e ↦
        rw (e, batch_errors)
          (λ h.
            let (i, lo, hi, a) = first_error n (suc calls) x xs h in
            (i, omega (arith, lo), omega (arith, hi), a))
    | inr (y, e) ↦ rw (e, batch_errors) (λ h. (calls, omega arith, omega arith, e ∙ cc))
  ]

  -- No call fails before as many calls have succeeded.
  first_failure : (n q : ℕ) (x : E) → good n ≡ n → answers q ≡ some x → n ≤ q
  first_failure zero q x g e = omega arith
  first_failure (suc n) q x g e =
      let before : n ≤ q =
        first_failure n q x (omega (arith, g, good-le n, one-le (answers n))) e in
      elim (Bool-cases (q == n)) [
        | inr ne ↦ ground (arith, before)
        | inl eq ↦
            let same : answers n ≡ answers q = ap answers (ground arith) in
            let zero_more : one (answers n) ≡ 0 = ap one (same ∙ e) in
            omega (arith, g, zero_more, good-le n)
      ]

  record Runs (count calls batch : ℕ) (r : Option (Started answers)) : Type 0 where
    result : Started answers
    returns : r ≡ some result
    counts : result.successes ≡ good result.calls
    within : result.calls ≤ count
    complete : result.error ≡ none → (result.calls ≡ count) × (result.successes ≡ count)
    reason : (x : E) → result.error ≡ some x → (i : ℕ) × (i < result.calls) × (answers i ≡ some x)
    growth : batch ≤ suc calls → (q : ℕ) (x : E) → answers q ≡ some x → result.calls ≤ suc (2 * q)

  slow_loop-Runs :
      (fuel remaining calls batch count : ℕ)
      → remaining ≤ fuel
      → calls + remaining ≡ count
      → good calls ≡ calls
      → batch ≤ remaining
      → (remaining ≡ 0 ⊎ 0 < batch)
      → Runs count calls batch (slow_loop answers fuel remaining calls batch calls)
  unfolding slow_loop
  slow_loop-Runs fuel remaining calls zero count f c g b p = record {
    result = record { calls = calls; successes = calls; error = none };
    returns = refl;
    counts = sym g;
    within = omega arith;
    complete = λ e. (omega arith, omega arith);
    reason = λ x e. cc;
    growth = λ w q x e. omega (arith, first_failure calls q x g e);
  }
  slow_loop-Runs zero remaining calls (suc n) count f c g b p = absurd (omega arith)
  slow_loop-Runs (suc fuel) remaining calls (suc n) count f c g b p =
      elim (List-cases (batch_errors answers calls (suc n))) [
        | inl none_failed ↦
            let all : good (calls + suc n) ≡ calls + suc n =
              omega (arith, length-batch_errors (suc n) calls, ap length none_failed, g) in
            let ih =
              slow_loop-Runs fuel (remaining - suc n) (calls + suc n)
                (min (2 * suc n) (remaining - suc n)) count (omega arith) (omega arith) all
                (omega arith) (ground arith) in
            rw (none_failed, slow_loop)
              (record {
                result = ih.result;
                returns = ih.returns;
                counts = ih.counts;
                within = ih.within;
                complete = ih.complete;
                reason = ih.reason;
                growth = λ w. ih.growth (omega arith);
              })
        | inr (x, xs, e) ↦
            rw (e, slow_loop)
              (record {
                result = record {
                  calls = calls + suc n;
                  successes = calls + (suc n - length (batch_errors answers calls (suc n)));
                  error = some x;
                };
                returns = refl;
                counts =
                    omega (arith, length-batch_errors (suc n) calls, g, failed-le (suc n) calls);
                within = omega arith;
                complete = λ q. cc;
                reason =
                    λ y q. let (i, lo, hi, a) = first_error (suc n) calls x xs e in (i, hi, a ∙ q);
                growth = λ w q y f. omega (arith, first_failure calls q y g f);
              })
      ]

  run :
      (count initial : ℕ)
      → 0 < initial
      → Runs count 0 (min count initial) (slow_start_batch answers count initial)
  unfolding slow_start_batch
  run count initial h =
      slow_loop-Runs count count 0 (min count initial) count (omega arith) (omega arith) refl
        (omega arith) (ground arith)

  outcome :
      (r : Started answers) (count : ℕ)
      → (r.error ≡ none → (r.calls ≡ count) × (r.successes ≡ count))
      → ((x : E) → r.error ≡ some x → (i : ℕ) × (i < r.calls) × (answers i ≡ some x))
      → ((r.error ≡ none) × (r.calls ≡ count) × (r.successes ≡ count))
        ⊎ ((i : ℕ) × (i < r.calls) × (r.error ≡ answers i) × (r.error ≢ none))
  outcome r count c f = elim (Option-cases r.error) [
    | inl e ↦ inl (e, (c e).0, (c e).1)
    | inr (x, e) ↦ let (i, lt, a) = f x e in inr (i, lt, e ∙ sym a, λ n. cc)
  ]

  -- `slowStartBatch` returns, after at most `count` calls, and the number it returns is that of the
  -- calls that succeeded. Either there is no error and it made `count` calls, which all succeeded,
  -- or the error is that of a call it made.
  pub slow_start_batch_lem :
      (count initial : ℕ)
      → 0 < initial
      → (r : Started answers) × (slow_start_batch answers count initial ≡ some r)
        × (r.calls ≤ count)
        × (r.successes ≡ good r.calls)
        × (((r.error ≡ none) × (r.calls ≡ count) × (r.successes ≡ count))
            ⊎ ((i : ℕ) × (i < r.calls) × (r.error ≡ answers i) × (r.error ≢ none)))
  slow_start_batch_lem count initial h =
      let s = run count initial h in
      (s.result, s.returns, s.within, s.counts, outcome s.result count s.complete s.reason)

  -- With batches that start at one call, if call number `q` fails, then `slowStartBatch` makes at most
  -- 2 q + 1 calls.
  pub slow_start_batch_bound :
      (count q : ℕ) (x : E)
      → answers q ≡ some x
      → (r : Started answers) × (slow_start_batch answers count 1 ≡ some r)
        × (r.calls ≤ suc (2 * q))
  slow_start_batch_bound count q x e =
      let s = run count 1 (omega arith) in (s.result, s.returns, s.growth (omega arith) q x e)
