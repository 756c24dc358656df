-- ===== src/Number/Evaluation.antt =====
-- Opens the arithmetic at once, for tests and tables: `unfolding evaluation`.
use mathlib.Core.Bool.{xor}
use sewn_covers.Number.Double.{is_finite, num_eq, num_lt, num_le}
use sewn_covers.Number.Arithmetic.{nearest, add, mul, div, math_round, math_floor, math_ceil}
use sewn_covers.Number.Decimal.{decimal, fixed_digits, fixed}

unfoldable pub evaluation : Unit {0}
unfolding is_finite num_eq num_lt num_le nearest add mul div math_round math_floor math_ceil decimal
    fixed_digits fixed xor
evaluation = tt
