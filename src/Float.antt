-- ===== src/Float.antt =====
-- Go's float64 as an interface: its finite values with the operations that the code calls.
use mock_agents.Prelude.{ℕ, Bool}

pub record Float64 : Type 1 where
  pub F : Type 0
  pub f_zero : F
  pub f_one : F
  pub add : F → F → F
  pub sub : F → F → F
  pub mul : F → F → F
  pub div : F → F → F
  pub lt : F → F → Bool
  pub le : F → F → Bool
  pub math_min : F → F → F
  pub math_max : F → F → F
  pub of_int : ℕ → F
  -- Duration.Seconds(), and the conversion time.Duration(x).
  pub seconds : ℕ → F
  pub to_duration : F → ℕ
