-- ===== src/Prelude/Outcome.antt =====
-- What a loop that can end by `return false` returns: it ran out of fuel, it failed, or it ended
-- with a value.
pub data Outcome {ℓ} (A : Type ℓ) : Type ℓ where
  out_of_fuel : Outcome A
  failed : Outcome A
  done : A → Outcome A
