-- ===== src/Prelude/Doubles.antt =====
-- JavaScript's numbers where the program divides: floating-point values, known only by the
-- operations that the program makes on them.
use Prim.Native.Nat.{◌*◌, ◌/◌}
use mathlib.Core.Bool.{Bool}
use launch_pad.Prelude.Tests.{if◌then◌else◌}
use launch_pad.Prelude.Int.{ℤ, pos, pos_part, ◌-ℤ◌, leb_ℤ, ltb_ℤ, eqb_ℤ}

pub record Doubles : Type 1 where
  pub Num : Type 0
  -- `a / b`, of two integers
  pub divide : ℤ → ℤ → Num
  -- `Math.min(x, y)`
  pub least : Num → Num → Num
  -- `x - y`
  pub minus : Num → Num → Num
  -- `x > 0`
  pub is_positive : Num → Bool
  -- `x === 0`
  pub is_zero : Num → Bool

-- Thousandths, cut off: a value of the interface that computes.
abbrev pub thousandths : Doubles
thousandths = record {
  Num = ℤ;
  divide = λ a b. pos ((pos_part a * 1000) / pos_part b);
  least = λ x y. if leb_ℤ x y then x else y;
  minus = λ x y. x -ℤ y;
  is_positive = λ x. ltb_ℤ (pos 0) x;
  is_zero = λ x. eqb_ℤ x (pos 0);
}
