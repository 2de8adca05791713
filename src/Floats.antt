-- ===== src/Floats.antt =====
-- Python's floats, which the client uses for seconds and delays, with the operations that the code
-- calls. Rounding is not modelled: what a theorem needs of the arithmetic is a hypothesis.
use fq_client_py.Prelude.{ℤ, Bool, if◌then◌else◌}
use fq_client_py.Errors.{Result}

pub record Floats : Type 1 where
  pub F : Type 0
  pub zero_float : F
  pub add : F → F → F
  pub sub : F → F → F
  pub mul : F → F → F
  -- `a < b` and `a <= b`
  pub less : F → F → Bool
  pub less_eq : F → F → Bool
  -- `a ** n` for an integer `n`: Python raises OverflowError where the power is out of range.
  pub power : F → ℤ → Result F

module _ (fl : Floats) where
  open fl use {F, less}

  -- `min(a, b)`: the first argument, unless the second is less
  abbrev pub min_float : F → F → F
  min_float a b = if less b a then b else a

  -- `max(a, b)`
  abbrev pub max_float : F → F → F
  max_float a b = if less a b then b else a
