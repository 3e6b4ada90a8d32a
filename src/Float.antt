-- ===== src/Float.antt =====
-- Go's `float64` and the functions of package math, as an interface: the type and its operations
-- are parameters of the definitions that compute with floats. What a theorem needs of them it takes
-- as a further argument.
use iicpc_distributed_benchm.Base.{ℕ, Bool}

pub record Float64 : Type 1 where
  pub F : Type 0
  pub of_uint : ℕ → F  -- `float64(n)`
  pub to_uint : F → ℕ  -- `uint64(x)`
  pub lit : ℕ → ℕ → F  -- the literal with this numerator and denominator
  pub add : F → F → F
  pub sub : F → F → F
  pub mul : F → F → F
  pub div : F → F → F
  pub neg : F → F
  pub fmin : F → F → F  -- `math.Min`
  pub fmax : F → F → F  -- `math.Max`
  pub exp : F → F  -- `math.Exp`
  pub pow : F → F → F  -- `math.Pow`
  pub round : F → F  -- `math.Round`
  pub leb : F → F → Bool  -- `x <= y`
