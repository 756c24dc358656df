-- ===== src/Configuration/Scale/Steps.antt =====
-- A normalised pattern scale is a whole number of steps of 0.1.
use sewn_covers.Prelude.{
  ℕ, zero, suc, ◌+◌, ◌^◌, ◌≤◌, ◌<◌, Bool, true, false, ◌&&◌, some, ◌≡◌, refl, sym, ap, ◌∙◌, arith,
  and-left, and-right,
}
use sewn_covers.Number.{
  Num, nan, inf, fin, is_finite, num_le, num_lt, num_eq, zero_num, decimal, fixed, fixed_digits,
  magnitude, evaluation,
}
use sewn_covers.Number.Laws.{num_eq→eq, num_le→le, num_le-neg, num_lt-zero}
use sewn_covers.Configuration.Scale.Defs.{
  pattern_scale_default, pattern_scale_min, pattern_scale_max, is_pattern_scale_within_range,
  normalize_pattern_scale,
}

-- The digits of a scale between 0.5 and 2.
digits_bounds :
    (m e : ℕ)
    → 2 ^ 1073 ≤ magnitude m e
    → magnitude m e ≤ 2 ^ 1075
    → (5 ≤ fixed_digits 1 m e) × (fixed_digits 1 m e ≤ 20)
unfolding fixed_digits
digits_bounds m e lo hi = omega arith

all_steps : ℕ → (ℕ → Bool) → Bool
all_steps zero p = true
all_steps (suc n) p = p (n + 5) && all_steps n p

all_steps_sound :
    (n : ℕ) (p : ℕ → Bool) (k : ℕ) → all_steps n p ≡ true → 5 ≤ k → k < n + 5 → p k ≡ true
unfolding all_steps
all_steps_sound zero p k h lo hi = absurd (omega arith)
all_steps_sound (suc n) p k h lo hi = ground (arith, all_steps_sound n p k)

min_value : pattern_scale_min ≡ fin false (2 ^ 52) 1021
unfolding pattern_scale_min evaluation
min_value = refl

max_value : pattern_scale_max ≡ fin false (2 ^ 52) 1023
unfolding pattern_scale_max evaluation
max_value = refl

scale_test :
    (v : Num)
    → is_pattern_scale_within_range v
      ≡ (is_finite v && num_le (fin false (2 ^ 52) 1021) v && num_le v (fin false (2 ^ 52) 1023))
unfolding is_pattern_scale_within_range
scale_test v = rw (min_value, max_value)

-- A number in range is positive, and lies between 2^1073 and 2^1075 units.
scale_bounds :
    (v : Num)
    → is_pattern_scale_within_range v ≡ true
    → (m : ℕ) × (e : ℕ) × (v ≡ fin false m e)
      × (2 ^ 1073 ≤ magnitude m e)
      × (magnitude m e ≤ 2 ^ 1075)
scale_bounds v h = bounds v (rw scale_test at h)
  where
    bounds :
        (v : Num)
        → (is_finite v && num_le (fin false (2 ^ 52) 1021) v && num_le v (fin false (2 ^ 52) 1023))
          ≡ true
        → (m : ℕ) × (e : ℕ) × (v ≡ fin false m e)
          × (2 ^ 1073 ≤ magnitude m e)
          × (magnitude m e ≤ 2 ^ 1075)
    bounds nan h = absurd (unfold is_finite in cc)
    bounds (inf s) h = absurd (unfold is_finite in cc)
    bounds (fin true m e) h =
        absurd (num_le-neg (2 ^ 52) 1021 m e (omega arith) (and-right _ _ (and-left _ _ h)))
    bounds (fin false m e) h = (
      m,
      e,
      refl,
      num_le→le (2 ^ 52) 1021 m e (and-right _ _ (and-left _ _ h)),
      num_le→le m e (2 ^ 52) 1023 (and-right _ _ h),
    )

-- A whole number of steps is in range and is its own normal form.
is_step : ℕ → Bool
is_step k =
    num_lt zero_num (fixed 1 (decimal k 1))
    && num_eq (fixed 1 (decimal k 1)) (decimal k 1)
    && is_pattern_scale_within_range (decimal k 1)

step_table : all_steps 16 is_step ≡ true
unfolding all_steps is_step is_pattern_scale_within_range pattern_scale_min pattern_scale_max
    evaluation
step_table = refl

normalize-step :
    (k : ℕ) → 5 ≤ k → k ≤ 20 → normalize_pattern_scale (decimal k 1) ≡ some (decimal k 1)
unfolding is_step normalize_pattern_scale
normalize-step k lo hi =
    let d = decimal k 1 in
    let p = num_lt zero_num (fixed 1 d) in
    let q = num_eq (fixed 1 d) d in
    let r = is_pattern_scale_within_range d in
    let h : (p && q && r) ≡ true = all_steps_sound 16 is_step k step_table lo (omega arith) in
    let pq : (p && q) ≡ true = and-left (p && q) r h in
    let same : fixed 1 d ≡ d = num_eq→eq (fixed 1 d) d (and-right p q pq) (and-left p q pq) in
    let in_range : r ≡ true = and-right (p && q) r h in rw (same, in_range)

normalize-eq-some :
    (v n : Num)
    → normalize_pattern_scale v ≡ some n
    → (is_pattern_scale_within_range v ≡ true) × (fixed 1 v ≡ n)
unfolding normalize_pattern_scale
normalize-eq-some v n h = (ground arith, ground arith)

fixed_positive : (m e : ℕ) → fixed 1 (fin false m e) ≡ decimal (fixed_digits 1 m e) 1
unfolding fixed decimal
fixed_positive m e = refl

-- The only values that normalising gives are the sixteen steps 0.5, 0.6, …, 2.
pub normalize-is_step :
    (v n : Num)
    → normalize_pattern_scale v ≡ some n
    → (k : ℕ) × (5 ≤ k) × (k ≤ 20) × (n ≡ decimal k 1)
normalize-is_step v n h =
    let (in_range, same) = normalize-eq-some v n h in
    let (m, e, v_eq, lo, hi) = scale_bounds v in_range in
    let (above, below) = digits_bounds m e lo hi in
    (fixed_digits 1 m e, above, below, sym same ∙ ap (fixed 1) v_eq ∙ fixed_positive m e)

-- Normalising twice is normalising once.
pub normalize_idempotent :
    (v n : Num) → normalize_pattern_scale v ≡ some n → normalize_pattern_scale n ≡ some n
normalize_idempotent v n h =
    let (k, lo, hi, same) = normalize-is_step v n h in rw same (normalize-step k lo hi)

-- A normalised scale is in range, so it is positive.
pub normalize-in_range :
    (v n : Num) → normalize_pattern_scale v ≡ some n → is_pattern_scale_within_range n ≡ true
unfolding normalize_pattern_scale
normalize-in_range v n h = ground arith

pub normalize-positive : (v n : Num) → normalize_pattern_scale v ≡ some n → num_lt zero_num n ≡ true
normalize-positive v n h =
    let (m, e, same, lo, hi) = scale_bounds n (normalize-in_range v n h) in
    rw same (num_lt-zero m e (omega arith))

pub normalize-default : normalize_pattern_scale pattern_scale_default ≡ some pattern_scale_default
unfolding normalize_pattern_scale pattern_scale_default evaluation
normalize-default = refl

-- A scale that normalising returns is one of the sixteen tenths from 0.5 to 2, and is its own normal
-- form.
pub normalize_steps :
    (v n : Num)
    → normalize_pattern_scale v ≡ some n
    → ((k : ℕ) × (5 ≤ k) × (k ≤ 20) × (n ≡ decimal k 1)) × (normalize_pattern_scale n ≡ some n)
normalize_steps v n h = (normalize-is_step v n h, normalize_idempotent v n h)
