-- ===== src/Base/Number.antt =====
-- A JavaScript number where the program asks whether it is an integer: an integer, or anything else
-- (a fraction, an infinity, NaN).
use ai_statement_analyzer.Base.Int.{ℤ, pos, negsuc}
use Prim.Native.Nat.{ℕ, zero, suc}
use mathlib.Core.Option.{Option, none, some}

pub data Number : Type 0 where
  integer : ℤ → Number
  fractional : Number

-- `Number.isInteger(n) && n > 0`, with the value.
abbrev pub positive_integer : Number → Option ℕ
positive_integer (integer (pos zero)) = none
positive_integer (integer (pos (suc n))) = some (suc n)
positive_integer (integer (negsuc n)) = none
positive_integer fractional = none
