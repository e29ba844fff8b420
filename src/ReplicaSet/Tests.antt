-- ===== src/ReplicaSet/Tests.antt =====
-- Runs of the replica set controller: controllers named by numbers and network functions by Booleans.
use iml.Common.{
  ℕ, zero, suc, ◌+◌, ◌<◌, ◌≤◌, ◌^◌, ◌≡◌, refl, Bool, true, false, ◌↔◌, ◌⊎◌, ◌≢◌, ◌*◌, ite, Option,
  none, some, List, [], ◌∷◌, arith, ℕ_discrete,
}
use mathlib.Core.List.{Memᴰ}
use mathlib.Core.Bool.{true≢false, false≢true}
use iml.Common.Maps.{Map, empty, insert, delete}
use iml.Common.Stores.{Stores, Sets}
use iml.ReplicaSet.Expectations.{
  ControlleeExpectations, UidTracking, satisfied_expectations, new_set, expect_deletions,
  observe_all,
}
use iml.ReplicaSet.Expectations.Observed.{satisfied_expectations_iff}
use iml.ReplicaSet.SlowStart.{Started, slow_start_batch}
use iml.ReplicaSet.SlowStart.Batches.{good, slow_start_batch_lem}
use iml.Common.Int.{ℤ, pos, ◌≤ℤ◌}
use iml.ReplicaSet.Functions.{NetworkFunction, running, ready, condition_true, next_check}
use iml.ReplicaSet.Replicas.{
  Creation, created, terminating, refused, Created, create_nfs, Deletion, deleted, failed,
  delete_nfs,
}
use iml.ReplicaSet.Replicas.Creations.{waiting, accepted, ignored, create_nfs_lem}
use iml.ReplicaSet.Replicas.Deletions.{delete_nfs_satisfied_iff}

abbrev maps : (V : Type 0) → Stores ℕ V
maps V = record {
  dec = ℕ_discrete;
  Store = Map ℕ V;
  get = λ k s. s k;
  add = insert ℕ_discrete;
  delete = delete ℕ_discrete;
  get-add = λ k v s j. refl;
  get-delete = λ k s j. refl;
}

bool_dec : Discrete Bool
bool_dec true true = yes refl
bool_dec false false = yes refl
bool_dec true false = no true≢false
bool_dec false true = no false≢true

abbrev pick : Bool → Bool × Bool → Bool
pick false p = p.0
pick true p = p.1

abbrev put : Bool → Bool → Bool × Bool → Bool × Bool
put false b p = (b, p.1)
put true b p = (p.0, b)

abbrev number : Bool → ℕ
number false = 0
number true = 1

abbrev size : Bool × Bool → ℕ
size (false, b) = number b
size (true, b) = suc (number b)

has_put :
    (u b : Bool) (s : Bool × Bool) (v : Bool) → pick v (put u b s) ≡ ite (bool_dec v u) b (pick v s)
unfolding bool_dec
has_put false b s false = refl
has_put false b s true = refl
has_put true b s false = refl
has_put true b s true = refl

pick_empty : (u : Bool) → pick u (false, false) ≡ false
pick_empty false = refl
pick_empty true = refl

size-put : (u : Bool) (s : Bool × Bool) → pick u s ≡ true → size s ≡ suc (size (put u false s))
size-put false (true, b) h = refl
size-put false (false, b) h = absurd (false≢true h)
size-put true (false, true) h = refl
size-put true (true, true) h = refl
size-put true (a, false) h = absurd (false≢true h)

pick_of_size : (s : Bool × Bool) → 0 < size s → (u : Bool) × (pick u s ≡ true)
pick_of_size (true, b) h = (false, refl)
pick_of_size (false, true) h = (true, refl)
pick_of_size (false, false) h = absurd (no_zero h)
  where
    no_zero : 0 < 0 → ⊥
    no_zero h' = omega (arith, h')

abbrev bools : Sets Bool
bools = record {
  dec = bool_dec;
  Set = Bool × Bool;
  empty = (false, false);
  has = pick;
  insert = λ u. put u true;
  delete = λ u. put u false;
  len = size;
  has-empty = pick_empty;
  has-insert = λ u. has_put u true;
  has-delete = λ u. has_put u false;
  len-delete = size-put;
  has_of_len = pick_of_size;
}

abbrev counts : Stores ℕ ControlleeExpectations
counts = maps ControlleeExpectations

abbrev keys : Stores ℕ (Bool × Bool)
keys = maps (Bool × Bool)

abbrev nothing : UidTracking bools counts keys
nothing = record { counts = empty; uids = empty }

-- Controller 7 waits for both, and controller 8 observes one of them.
abbrev both : List Bool
both = false ∷ true ∷ []

abbrev seen : List (ℕ × Bool)
seen = (7, true) ∷ (8, false) ∷ (7, true) ∷ []

both_fit : size (new_set bools counts keys both) < 2 ^ 63
unfolding new_set
both_fit = omega arith

satisfied_expectations_iff_example :
    (satisfied_expectations counts 20 7
        (observe_all bools counts keys seen
          (expect_deletions bools counts keys 10 7 both nothing)).counts
      ≡ true)
    ↔ ((u : Bool) → Memᴰ u both → Memᴰ (7, u) seen)
satisfied_expectations_iff_example =
    satisfied_expectations_iff bools counts keys 10 20 7 both nothing seen both_fit (omega arith)

-- The first two calls succeed, and those after them are over quota.
abbrev quota : ℕ → Option Bool
quota zero = none
quota (suc zero) = none
quota (suc (suc n)) = some true

slow_start_batch_example :
    (r : Started quota) × (slow_start_batch quota 5 1 ≡ some r)
    × (r.calls ≤ 5)
    × (r.successes ≡ good quota r.calls)
    × (((r.error ≡ none) × (r.calls ≡ 5) × (r.successes ≡ 5))
        ⊎ ((i : ℕ) × (i < r.calls) × (r.error ≡ quota i) × (r.error ≢ none)))
slow_start_batch_example = slow_start_batch_lem quota 5 1 (omega arith)

-- Two calls succeed of the three that are made.
slow_start_run :
    slow_start_batch quota 5 1 ≡ some (record { calls = 3; successes = 2; error = some true })
unfolding slow_start_batch
slow_start_run = refl

-- The first creation is accepted, the second meets a namespace that terminates.
abbrev namespace_gone : ℕ → Creation Bool
namespace_gone zero = created
namespace_gone (suc zero) = terminating
namespace_gone (suc (suc n)) = refused true

create_nfs_example :
    (r : Created counts.Store Bool) × (calls : ℕ) × (create_nfs counts namespace_gone 10 7 5 empty
      ≡ some r)
    × (calls ≤ 5)
    × (counts.get 7 r.counts
        ≡ some (
            waiting counts namespace_gone 10
              (accepted namespace_gone calls + ignored namespace_gone calls)))
create_nfs_example = create_nfs_lem counts namespace_gone 10 7 5 empty (omega arith)

-- The deletion of one network function is refused.
abbrev refusing : Bool → Deletion ℕ
refusing false = failed 403
refusing true = deleted

delete_nfs_satisfied_iff_example :
    (satisfied_expectations counts 20 7
        (observe_all bools counts keys seen
          (delete_nfs bools counts keys refusing 10 7 both nothing).tracking).counts
      ≡ true)
    ↔ ((u : Bool) → Memᴰ u both → (refusing u ≢ deleted) ⊎ Memᴰ (7, u) seen)
delete_nfs_satisfied_iff_example =
    delete_nfs_satisfied_iff bools counts keys refusing 10 20 7 both nothing seen both_fit
      (omega arith)

-- A network function that is ready since time 10.
abbrev since_ten : NetworkFunction
since_ten = record {
  uid = [];
  target_name = [];
  created = 1;
  deleting = false;
  phase = running;
  conditions = record { kind = ready; status = condition_true; last_transition = 10 } ∷ [];
}

-- A second after time 10 is reached 8 nanoseconds short of a second after time 18.
check_run : next_check since_ten (pos 1) 18 ≡ some (pos 999999992)
unfolding next_check iml.Common.Int.◌-ℤ◌ iml.Common.Int.◌+ℤ◌
check_run = refl
