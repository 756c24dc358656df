-- ===== src/Text/Naturals.antt =====
-- `String(n)` and `Number(digits)` of a whole number.
use sewn_covers.Prelude.{
  ℕ, zero, suc, ◌+◌, ◌-◌, ◌*◌, ◌/◌, ◌%◌, ◌^◌, ◌≤◌, ◌<◌, true, ltb, if◌then◌else◌, [], ◌∷◌, ◌++◌,
  length, all, ◌≡◌, refl, arith, leb, leb→le, and-left, and-right, Bool-cases, inl, inr,
}
use native.Mathlib.Nat.{mul-le-mul_right, pow-suc}
use sewn_covers.Text.Basic.{Text}
use sewn_covers.Text.Patterns.{is_digit}

-- The digits of n, on fuel that is at least n.
unfoldable pub digits : ℕ → ℕ → Text
digits zero n = (b'0' + n) ∷ []
digits (suc fuel) n =
    let rest = digits fuel (n / 10) in
    if ltb n 10 then (b'0' + n) ∷ [] else rest ++ ((b'0' + n % 10) ∷ [])

unfoldable pub natural_text : ℕ → Text
unfolding digits
natural_text n = digits n n

-- The number that digits stand for, after those that were read before.
unfoldable pub value_from : ℕ → Text → ℕ
value_from n [] = n
value_from n (c ∷ s) = value_from (10 * n + (c - b'0')) s

unfoldable pub natural_value : Text → ℕ
unfolding value_from
natural_value s = value_from 0 s

value_from-append :
    (s : Text) (n c : ℕ) → value_from n (s ++ (c ∷ [])) ≡ 10 * value_from n s + (c - b'0')
unfolding value_from
value_from-append [] n c = refl
value_from-append (x ∷ s) n c = value_from-append s (10 * n + (x - b'0')) c

value-digits : (fuel n : ℕ) → n ≤ fuel → value_from 0 (digits fuel n) ≡ n
unfolding digits value_from
value-digits zero n h = omega arith
value-digits (suc fuel) n h = elim (Bool-cases (ltb n 10)) [
  | inl small ↦ rw small (omega arith)
  | inr large ↦
      let rest = value-digits fuel (n / 10) (omega arith) in
      rw (large, value_from-append (digits fuel (n / 10)) 0 (b'0' + n % 10), rest) (omega arith)
]

-- Reading the digits of a number gives the number.
pub natural_value-natural_text : (n : ℕ) → natural_value (natural_text n) ≡ n
unfolding natural_value natural_text
natural_value-natural_text n = value-digits n n (omega arith)

step_lt : (n d p v : ℕ) → d ≤ 9 → v < (10 * n + d + 1) * p → v < (n + 1) * (p * 10)
step_lt n d p v small h =
    let room : (10 * n + d + 1) * p ≤ 10 * (n + 1) * p = mul-le-mul_right p (omega arith) in
    omega (arith, room)

-- k digits stand for less than 10^k.
value_from_lt :
    (s : Text) (n : ℕ) → all is_digit s ≡ true → value_from n s < (n + 1) * 10 ^ length s
unfolding value_from is_digit
value_from_lt [] n h = omega arith
value_from_lt (c ∷ s) n h =
    let digit : is_digit c ≡ true = and-left _ (all is_digit s) h in
    let low = leb→le b'0' c (and-left (leb b'0' c) (leb c b'9') digit) in
    let high = leb→le c b'9' (and-right (leb b'0' c) (leb c b'9') digit) in
    let step = value_from_lt s (10 * n + (c - b'0')) (and-right _ (all is_digit s) h) in
    rw (pow-suc 10 (length s)) (step_lt n (c - b'0') (10 ^ length s) _ (omega arith) step)

pub natural_value_lt : (s : Text) → all is_digit s ≡ true → natural_value s < 10 ^ length s
unfolding natural_value
natural_value_lt s h = omega (arith, value_from_lt s 0 h)
