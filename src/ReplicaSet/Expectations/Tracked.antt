-- ===== src/ReplicaSet/Expectations/Tracked.antt =====
-- util/expectations.go: the counter of a controller is the number of keys that it waits for.
use iml.Common.{
  ℕ, ◌<◌, ◌^◌, ◌≡◌, refl, ap, ◌∙◌, true, false, if_pos, if_neg, some, List, arith, Bool-cases,
  Option-cases, inl, inr,
}
use iml.Common.Int.{◌-ℤ◌, ◌+ℤ◌, pos, negsuc, add64, i64, i64_of_pos, add64_pred}
use iml.Common.Stores.{Stores, Sets}
use iml.ReplicaSet.Expectations.{
  ControlleeExpectations, UidTracking, new_set, expect_deletions, deletion_observed,
  expect_deletion_count, deletion_count_observed, lower_expectations,
}

module _ {K U : Type 0} (F : Sets U) (S : Stores K ControlleeExpectations)
    (T : Stores K F.Set) where
  -- The counter of a controller is the number of keys that it waits for.
  pub record Tracked (now : ℕ) (k : K) (s : F.Set) (t : UidTracking F S T) : Type 0 where
    pub keys : T.get k t.uids ≡ some s
    pub counts :
        S.get k t.counts ≡ some (record { add = pos 0; del = pos (F.len s); timestamp = now })
    pub fits : F.len s < 2 ^ 63

  get_added :
      {V : Type 0} (M : Stores K V) (k : K) (v : V) (s : M.Store) → M.get k (M.add k v s) ≡ some v
  get_added M k v s = M.get-add k v s k ∙ if_pos (M.dec k k) refl _ _

  get_other :
      {V : Type 0} (M : Stores K V) (k j : K) (v : V) (s : M.Store)
      → ¬ (k ≡ j)
      → M.get k (M.add j v s) ≡ M.get k s
  get_other M k j v s h = M.get-add j v s k ∙ if_neg (M.dec k j) h _ _

  pub Tracked-expect_deletions :
      (now : ℕ) (k : K) (us : List U) (t : UidTracking F S T)
      → F.len (new_set F S T us) < 2 ^ 63
      → Tracked now k (new_set F S T us) (expect_deletions F S T now k us t)
  unfolding expect_deletions expect_deletion_count i64
  Tracked-expect_deletions now k us t h = record {
    keys = get_added T k (new_set F S T us) t.uids;
    counts =
        get_added S k _ t.counts
        ∙ ap (λ n. some (record { add = pos 0; del = n; timestamp = now })) (i64_of_pos _ h);
    fits = h;
  }

  one_less :
      (s : F.Set) (u : U)
      → F.has u s ≡ true
      → F.len s < 2 ^ 63
      → add64 (pos (F.len s)) (negsuc 0) ≡ pos (F.len (F.delete u s))
  one_less s u e h =
      rw (F.len-delete u s e)
        (add64_pred (F.len (F.delete u s)) (omega (arith, F.len-delete u s e)))

  pub Tracked-own :
      (now : ℕ) (k : K) (s : F.Set) (t : UidTracking F S T) (u : U)
      → Tracked now k s t
      → F.has u s ≡ true
      → Tracked now k (F.delete u s) (deletion_observed F S T k u t)
  unfolding deletion_observed deletion_count_observed lower_expectations ◌-ℤ◌ i64 add64 ◌+ℤ◌
  Tracked-own now k s t u h e = record {
    keys = rw (h.keys, e, deletion_observed) (get_added T k (F.delete u s) t.uids);
    counts =
        rw (h.keys, e, h.counts, deletion_observed, deletion_count_observed, lower_expectations)
          (get_added S k _ t.counts
            ∙ ap (λ n. some (record { add = pos 0; del = n; timestamp = now }))
                (one_less s u e h.fits));
    fits = omega (arith, F.len-delete u s e, h.fits);
  }

  pub Tracked-same :
      (now : ℕ) (k : K) (s : F.Set) (t : UidTracking F S T) (u : U)
      → Tracked now k s t
      → F.has u s ≡ false
      → Tracked now k s (deletion_observed F S T k u t)
  unfolding deletion_observed
  Tracked-same now k s t u h e = rw (h.keys, e, deletion_observed) h

  pub Tracked-other :
      (now : ℕ) (k : K) (s : F.Set) (t : UidTracking F S T) (j : K) (u : U)
      → ¬ (k ≡ j)
      → Tracked now k s t
      → Tracked now k s (deletion_observed F S T j u t)
  unfolding deletion_observed deletion_count_observed lower_expectations
  Tracked-other now k s t j u n h = elim (Option-cases (T.get j t.uids)) [
    | inl e ↦ rw (e, deletion_observed) h
    | inr (r, e) ↦ elim (Bool-cases (F.has u r)) [
      | inr m ↦ rw (e, m, deletion_observed) h
      | inl m ↦ record {
        keys = rw (e, m, deletion_observed) (get_other T k j _ t.uids n ∙ h.keys);
        counts =
            rw (e, m, deletion_observed)
              (elim (Option-cases (S.get j t.counts)) [
                | inl a ↦ rw (a, deletion_count_observed, lower_expectations) h.counts
                | inr (c, a) ↦
                    rw (a, deletion_count_observed, lower_expectations)
                      (get_other S k j _ t.counts n ∙ h.counts)
              ]);
        fits = h.fits;
      }
    ]
  ]
