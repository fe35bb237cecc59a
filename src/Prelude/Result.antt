-- ===== src/Prelude/Result.antt =====
-- What a call of the library gives back: a value, or the exception that it throws.

-- `fault` stands for undefined behaviour, such as a read outside an allocation.
pub data Error : Type 0 where
  assertion_failed out_of_range serious_bug allocation_error user_error : Error
  leaf_exists open_error create_error fault out_of_fuel : Error

pub data Result {ℓ} (A : Type ℓ) : Type ℓ where
  ok : A → Result A
  err : Error → Result A
