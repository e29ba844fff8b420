-- ===== src/Common/Maps.antt =====
-- A Go map with comparable keys: a function that is `none` at a missing key.
use mathlib.Core.Logic.{ite}
use mathlib.Core.Option.{Option, none, some}

abbrev pub Map {ℓ κ} : Type ℓ → Type κ → Type (ℓ ⊔ κ)
Map K V = K → Option V

module _ {ℓ κ} {K : Type ℓ} {V : Type κ} where
  -- `map[K]V{}`
  abbrev pub empty : Map K V
  empty k = none

  module _ (dec : Discrete K) where
    -- `m[k] = v`
    abbrev pub insert : K → V → Map K V → Map K V
    insert k v m j = ite (dec j k) (some v) (m j)

    -- `delete(m, k)`
    abbrev pub delete : K → Map K V → Map K V
    delete k m j = ite (dec j k) none (m j)
