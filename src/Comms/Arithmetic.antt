-- ===== src/Comms/Arithmetic.antt =====
-- What the program does with a `double`.
use cncremote.Prelude.{ℕ, ℤ, Bool}

pub record Double (W : Type 0) : Type 0 where
  pub nought : W
  pub add : W → W → W
  pub sub : W → W → W
  pub mul : W → W → W
  pub div : W → W → W
  pub sqrt : W → W
  pub lt : W → W → Bool
  pub eq : W → W → Bool
  -- The literal `num / den`.
  pub literal : ℤ → ℕ → W
