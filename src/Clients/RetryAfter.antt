-- ===== src/Clients/RetryAfter.antt =====
-- The bounds of a `Retry-After` header.
use sewn_covers.Prelude.{
  ℕ, ◌^◌, ◌≤◌, ◌<◌, true, ◌&&◌, leb, ltb, ltb→lt, leb→le, some, or_else, [], all, length, ◌≡◌,
  arith, Bool-cases, inl, inr, and-left, and-right,
}
use native.Mathlib.Nat.{pow-le-pow_right}
use sewn_covers.Text.{Text, codes, trim}
use sewn_covers.Text.Patterns.{is_digit}
use sewn_covers.Text.Naturals.{natural_value, natural_value_lt}
use sewn_covers.Clients.Http.{Headers, is_delay, header_seconds, retry_after_seconds}

power_le : (n : ℕ) → n ≤ 6 → 10 ^ n ≤ 1000000
power_le n h = pow-le-pow_right (omega arith) h

header_seconds_bounds :
    (value : Text) (n : ℕ) → header_seconds value ≡ some n → (0 < n) × (n < 1000000)
header_seconds_bounds value n h = elim (Bool-cases (is_delay value)) [
  | inl good ↦
      let same : natural_value value ≡ n = ground arith in
      let shape : (leb 1 (length value) && leb (length value) 6 && all is_digit value) ≡ true =
        and-left _ (ltb 0 (natural_value value)) good in
      let short =
        and-right (leb 1 (length value)) (leb (length value) 6)
          (and-left _ (all is_digit value) shape) in
      let small =
        natural_value_lt value
          (and-right (leb 1 (length value) && leb (length value) 6) (all is_digit value) shape) in
      let room = power_le (length value) (leb→le (length value) 6 short) in
      let positive = ltb→lt 0 (natural_value value) (
        and-right (leb 1 (length value) && leb (length value) 6 && all is_digit value)
          (ltb 0 (natural_value value)) good) in
      rw (← same) (positive, omega arith)
  | inr bad ↦ absurd (ground arith)
]

-- A wait that is read from an answer is at least a second and under a million seconds.
pub retry_after_seconds_bounds :
    (headers : Headers) (n : ℕ) → retry_after_seconds headers ≡ some n → (0 < n) × (n < 1000000)
unfolding retry_after_seconds
retry_after_seconds_bounds headers n h =
    header_seconds_bounds (trim (or_else (headers (codes "Retry-After")) [])) n h
