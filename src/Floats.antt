-- ===== src/Floats.antt =====
-- Python's `float`, of which the program uses the operations below: a parameter of every definition
-- that computes with metrics. No law is assumed here; a theorem that needs one names it.
use algorithmic_trading_stra.Base.{ℕ, Bool, List}

pub record Floats : Type 1 where
  pub Float : Type 0
  -- the float of an integer literal or of a length
  pub of_ℕ : ℕ → Float
  pub lt : Float → Float → Bool
  pub le : Float → Float → Bool
  pub eq : Float → Float → Bool
  pub add : Float → Float → Float
  pub sub : Float → Float → Float
  pub mul : Float → Float → Float
  pub div : Float → Float → Float
  pub abs : Float → Float
  -- the builtin `sum`
  pub sum : List Float → Float
