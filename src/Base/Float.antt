-- ===== src/Base/Float.antt =====
-- `float` and `double` values as the native numbers of their bit patterns. The arithmetic is that of
-- the compiler and of <math.h>, and so a parameter of the code that uses it.
use Prim.Native.Nat.{ℕ}
use mathlib.Core.Bool.{Bool}
use eaves_drum.Base.Int.{ℤ}

pub record FloatArith : Type 0 where
  pub of_int : ℤ → ℕ
  pub literal : ℕ → ℕ → ℕ  -- the constant n / d
  pub fsub : ℕ → ℕ → ℕ
  pub fmul : ℕ → ℕ → ℕ
  pub fdiv : ℕ → ℕ → ℕ
  pub fge : ℕ → ℕ → Bool
  pub to_uint : ℕ → ℕ  -- conversion to an unsigned integer, towards zero
  pub pow : ℕ → ℕ → ℕ  -- <math.h>, in `double`
  pub dsub : ℕ → ℕ → ℕ
  pub narrow : ℕ → ℕ  -- from `double` to `float`
  pub round : ℕ → ℕ  -- <math.h>, as the integer that the result is
