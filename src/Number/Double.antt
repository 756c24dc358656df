-- ===== src/Number/Double.antt =====
-- The data of a double, its comparisons and `Number.isFinite`.
-- `fin neg m e` is (-1)^neg * m * 2^e / 2^1074. A double has one such form, the canonical one:
-- m < 2^53, and 2^52 ≤ m unless e = 0. So `===` compares the parts, but for the two zeros.
use sewn_covers.Prelude.{ℕ, ◌*◌, ◌^◌, Bool, true, false, not, ◌&&◌, ◌||◌, ltb, leb, ◌==◌}
use mathlib.Core.Bool.{beq}

pub data Num : Type 0 where
  nan : Num
  inf : Bool → Num
  fin : Bool → ℕ → ℕ → Num

-- The magnitude in units of 2^-1074.
abbrev pub magnitude : ℕ → ℕ → ℕ
magnitude m e = m * 2 ^ e

unfoldable pub is_finite : Num → Bool
is_finite (fin _ _ _) = true
is_finite _ = false

abbrev pub zero_num : Num
zero_num = fin false 0 0

-- `a === b`.
unfoldable pub num_eq : Num → Num → Bool
num_eq (fin s m e) (fin s' m' e') = m == 0 && m' == 0 || beq s s' && m == m' && e == e'
num_eq (inf s) (inf s') = beq s s'
num_eq _ _ = false

-- `a < b`.
unfoldable pub num_lt : Num → Num → Bool
num_lt (fin false m e) (fin false m' e') = ltb (magnitude m e) (magnitude m' e')
num_lt (fin true m e) (fin true m' e') = ltb (magnitude m' e') (magnitude m e)
num_lt (fin true m e) (fin false m' e') = not (m == 0 && m' == 0)
num_lt (fin _ _ _) (inf s) = not s
num_lt (inf s) (fin _ _ _) = s
num_lt (inf s) (inf s') = s && not s'
num_lt _ _ = false

-- `a <= b`.
unfoldable pub num_le : Num → Num → Bool
num_le (fin false m e) (fin false m' e') = leb (magnitude m e) (magnitude m' e')
num_le (fin true m e) (fin true m' e') = leb (magnitude m' e') (magnitude m e)
num_le (fin true _ _) (fin false _ _) = true
num_le (fin false m e) (fin true m' e') = m == 0 && m' == 0
num_le (fin _ _ _) (inf s) = not s
num_le (inf s) (fin _ _ _) = s
num_le (inf s) (inf s') = s || not s'
num_le _ _ = false
