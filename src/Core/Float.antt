-- ===== src/Core/Float.antt =====
-- The arithmetic of float64 as the code uses it: its operations on bit patterns are those of the
-- language and the processor, so they are given.
use nano_asr.Prelude.{ℕ, Bool}

pub record Float : Type 0 where
  pub less : ℕ → ℕ → Bool
  pub same : ℕ → ℕ → Bool
  pub plus : ℕ → ℕ → ℕ
  pub minus : ℕ → ℕ → ℕ
  pub over : ℕ → ℕ → ℕ
  -- float64(n) of an integer
  pub of_int : ℕ → ℕ
  -- A constant of the source, by its value in thousandths.
  pub milli : ℕ → ℕ
