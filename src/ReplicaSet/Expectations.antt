-- ===== src/ReplicaSet/Expectations.antt =====
-- util/expectations.go: what a controller still has to see. The stores and the sets of keys are
-- parameters. A method runs under its lock and returns the new state; the counters that the
-- program changes in place are put back in the store under their key. Times are nanoseconds.
pub mod Tracked
pub mod Observed
use iml.Common.{
  ℕ, ◌-◌, ◌*◌, ◌^◌, Bool, true, false, ◌&&◌, ◌||◌, ltb, if◌then◌else◌, Option, none, some, List, [],
  ◌∷◌,
}
use iml.Common.Int.{ℤ, pos, negsuc, leb_ℤ, add64, i64, ◌-ℤ◌}
use iml.Common.Stores.{Stores, Sets}

-- 5 * time.Minute
abbrev pub expectations_timeout : ℕ
expectations_timeout = 300 * 10 ^ 9

pub record ControlleeExpectations : Type 0 where
  pub add : ℤ
  pub del : ℤ
  pub timestamp : ℕ

unfoldable pub add_counts : ControlleeExpectations → ℤ → ℤ → ControlleeExpectations
add_counts e add del = record e { add = add64 e.add add; del = add64 e.del del }

unfoldable pub fulfilled : ControlleeExpectations → Bool
fulfilled e = leb_ℤ e.add (pos 0) && leb_ℤ e.del (pos 0)

unfoldable pub is_expired : ℕ → ControlleeExpectations → Bool
is_expired now e = ltb expectations_timeout (now - e.timestamp)

module _ {K : Type 0} (S : Stores K ControlleeExpectations) where
  open S use {Store, get}

  unfoldable pub delete_expectations : K → Store → Store
  delete_expectations k s = elim (get k s) [ none ↦ s | some e ↦ S.delete k s ]

  abbrev pub is_satisfied : ℕ → Option ControlleeExpectations → Bool
  unfolding fulfilled is_expired
  is_satisfied now none = true
  is_satisfied now (some e) = fulfilled e || is_expired now e

  unfoldable pub satisfied_expectations : ℕ → K → Store → Bool
  satisfied_expectations now k s = is_satisfied now (get k s)

  unfoldable pub set_expectations : ℕ → K → ℤ → ℤ → Store → Store
  set_expectations now k add del =
      S.add k (record { add = i64 add; del = i64 del; timestamp = now })

  unfoldable pub expect_creations : ℕ → K → ℤ → Store → Store
  unfolding set_expectations
  expect_creations now k adds = set_expectations now k adds (pos 0)

  unfoldable pub expect_deletion_count : ℕ → K → ℤ → Store → Store
  unfolding set_expectations
  expect_deletion_count now k dels = set_expectations now k (pos 0) dels

  unfoldable pub raise_expectations : K → ℤ → ℤ → Store → Store
  unfolding add_counts
  raise_expectations k add del s = elim (get k s) [
    | none ↦ s
    | some e ↦ S.add k (add_counts e add del) s
  ]

  unfoldable pub lower_expectations : K → ℤ → ℤ → Store → Store
  unfolding add_counts
  lower_expectations k add del s = elim (get k s) [
    | none ↦ s
    | some e ↦ S.add k (add_counts e (pos 0 -ℤ add) (pos 0 -ℤ del)) s
  ]

  unfoldable pub creation_observed : K → Store → Store
  unfolding lower_expectations
  creation_observed k = lower_expectations k (pos 1) (pos 0)

  unfoldable pub deletion_count_observed : K → Store → Store
  unfolding lower_expectations
  deletion_count_observed k = lower_expectations k (pos 0) (pos 1)

-- `UIDTrackingControllerExpectations`: the counters, and the keys of the deletions to observe.
module _ {K U : Type 0} (F : Sets U) (S : Stores K ControlleeExpectations)
    (T : Stores K F.Set) where
  pub record UidTracking : Type 0 where
    pub counts : S.Store
    pub uids : T.Store

  unfoldable pub new_set : List U → F.Set
  new_set [] = F.empty
  new_set (u ∷ us) = F.insert u (new_set us)

  unfoldable pub expect_deletions : ℕ → K → List U → UidTracking → UidTracking
  unfolding new_set expect_deletion_count
  expect_deletions now k us t = record {
    counts = expect_deletion_count S now k (pos (F.len (new_set us))) t.counts;
    uids = T.add k (new_set us) t.uids;
  }

  unfoldable pub deletion_observed : K → U → UidTracking → UidTracking
  unfolding deletion_count_observed
  deletion_observed k u t = elim (T.get k t.uids) [
    | none ↦ t
    | some s ↦
        if F.has u s
        then record {
          counts = deletion_count_observed S k t.counts;
          uids = T.add k (F.delete u s) t.uids;
        }
        else t
  ]

  unfoldable pub delete_tracked : K → UidTracking → UidTracking
  unfolding delete_expectations
  delete_tracked k t = record {
    counts = delete_expectations S k t.counts;
    uids = elim (T.get k t.uids) [ none ↦ t.uids | some s ↦ T.delete k t.uids ];
  }

  -- The deletions that are observed, in their order.
  unfoldable pub observe_all : List (K × U) → UidTracking → UidTracking
  unfolding deletion_observed
  observe_all [] t = t
  observe_all ((k, u) ∷ seen) t = observe_all seen (deletion_observed k u t)
