-- ===== src/Prelude/Results.antt =====
-- Rust's `Result<A, E>`; Reader has the `?` operator, as a bind that also passes the cursor on.
pub data Result {ℓ κ} (E : Type ℓ) (A : Type κ) : Type (ℓ ⊔ κ) where
  ok : A → Result E A
  err : E → Result E A
