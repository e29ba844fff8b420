-- ===== src/Common/Stores.antt =====
-- What the program uses of two packages outside it: client-go's cache.Store and apimachinery's
-- sets.Set. A store is kept under the key of each object; its functions fail only if that key does.
use Prim.Native.Nat.{ℕ, suc, ◌<◌}
use mathlib.Core.Path.{◌≡◌}
use mathlib.Core.Logic.{ite}
use mathlib.Core.Bool.{Bool, true, false}
use mathlib.Core.Option.{Option, none, some}

pub record Stores (K : Type 0) (V : Type 0) : Type 1 where
  pub dec : Discrete K
  pub Store : Type 0
  pub get : K → Store → Option V
  pub add : K → V → Store → Store
  pub delete : K → Store → Store
  pub get-add :
      (k : K) (v : V) (s : Store) (j : K) → get j (add k v s) ≡ ite (dec j k) (some v) (get j s)
  pub get-delete : (k : K) (s : Store) (j : K) → get j (delete k s) ≡ ite (dec j k) none (get j s)

pub record Sets (U : Type 0) : Type 1 where
  pub dec : Discrete U
  pub Set : Type 0
  pub empty : Set
  pub has : U → Set → Bool
  pub insert : U → Set → Set
  pub delete : U → Set → Set
  pub len : Set → ℕ
  pub has-empty : (u : U) → has u empty ≡ false
  pub has-insert : (u : U) (s : Set) (v : U) → has v (insert u s) ≡ ite (dec v u) true (has v s)
  pub has-delete : (u : U) (s : Set) (v : U) → has v (delete u s) ≡ ite (dec v u) false (has v s)
  pub len-delete : (u : U) (s : Set) → has u s ≡ true → len s ≡ suc (len (delete u s))
  pub has_of_len : (s : Set) → 0 < len s → (u : U) × (has u s ≡ true)
