-- ===== src/Number/Laws.antt =====
-- What `===`, `<` and `<=` on doubles say.
use native.Mathlib.Nat.{zero-mul}
use sewn_covers.Prelude.{
  ℕ, zero, suc, ◌^◌, ◌<◌, ◌≤◌, Bool, true, false, ◌≡◌, refl, arith, leb→le, lt→ltb,
}
use mathlib.Core.Bool.{beq}
use sewn_covers.Number.Double.{
  Num, nan, inf, fin, zero_num, is_finite, magnitude, num_eq, num_lt, num_le,
}

beq→eq : (a b : Bool) → beq a b ≡ true → a ≡ b
beq→eq true true h = refl
beq→eq false false h = refl
beq→eq true false h = cc
beq→eq false true h = cc

beq_refl : (a : Bool) → beq a a ≡ true
beq_refl true = refl
beq_refl false = refl

-- A number that is greater than zero has a significand that is not zero.
pub significand_pos : (s : Bool) (m e : ℕ) → num_lt zero_num (fin s m e) ≡ true → 0 < m
unfolding num_lt
significand_pos false zero e h = ground (arith, zero-mul (2 ^ e))
significand_pos false (suc m) e h = omega arith
significand_pos true zero e h = ground (arith, zero-mul (2 ^ e))
significand_pos true (suc m) e h = omega arith

-- Away from zero `===` is equality.
pub num_eq→eq : (a b : Num) → num_eq a b ≡ true → num_lt zero_num a ≡ true → a ≡ b
unfolding num_eq
num_eq→eq (fin s m e) (fin s' m' e') h p = ground (arith, significand_pos s m e, beq→eq s s')
num_eq→eq (inf s) (inf s') h p = ground (arith, beq→eq s s')
num_eq→eq nan b h p = cc
num_eq→eq (fin _ _ _) nan h p = cc
num_eq→eq (fin _ _ _) (inf _) h p = cc
num_eq→eq (inf _) nan h p = cc
num_eq→eq (inf _) (fin _ _ _) h p = cc

-- A finite number is equal to itself (and NaN is not).
pub num_eq_refl : (a : Num) → is_finite a ≡ true → num_eq a a ≡ true
unfolding num_eq is_finite
num_eq_refl (fin s m e) h = ground (arith, beq_refl s)
num_eq_refl (inf s) h = cc
num_eq_refl nan h = cc

-- `a <= b` on two numbers that are not negative is the order of the magnitudes.
pub num_le→le :
    (m e m' e' : ℕ)
    → num_le (fin false m e) (fin false m' e') ≡ true
    → magnitude m e ≤ magnitude m' e'
unfolding num_le
num_le→le m e m' e' h = leb→le _ _ h

-- What is no less than a positive number has no sign.
pub num_le-neg : (m e m' e' : ℕ) → 0 < m → num_le (fin false m e) (fin true m' e') ≡ true → ⊥
unfolding num_le
num_le-neg m e m' e' p h = ground arith

pub num_lt-zero : (m e : ℕ) → 0 < magnitude m e → num_lt zero_num (fin false m e) ≡ true
unfolding num_lt
num_lt-zero m e h = lt→ltb _ _ h
