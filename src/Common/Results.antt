-- ===== src/Common/Results.antt =====
-- What a Go function with an `error` result returns: the value, or the error.
pub data Result {ℓ κ} (E : Type ℓ) (A : Type κ) : Type (ℓ ⊔ κ) where
  ok : A → Result E A
  err : E → Result E A
