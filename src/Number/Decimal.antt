-- ===== src/Number/Decimal.antt =====
-- Between doubles and decimals: numeric literals and `Number(text)`, `toFixed`, and the decimals
-- that `toString` prints.
use sewn_covers.Prelude.{
  ℕ, zero, suc, ◌+◌, ◌*◌, ◌/◌, ◌%◌, ◌^◌, Bool, false, not, ◌&&◌, ◌||◌, ltb, ◌==◌,
}
use sewn_covers.Number.Double.{Num, fin, magnitude, is_finite, num_eq}
use sewn_covers.Number.Arithmetic.{nearest, unit_scale}

-- The literal n / 10^places, for example `decimal 254 2` for 2.54.
unfoldable pub decimal : ℕ → ℕ → Num
decimal n places = nearest false n (10 ^ places)

-- The integer n for which n / 10^places is nearest to the magnitude, the larger of two:
-- the digits that `toFixed(places)` prints.
unfoldable pub fixed_digits : ℕ → ℕ → ℕ → ℕ
fixed_digits places m e = (2 * (magnitude m e * 10 ^ places) + unit_scale) / (2 * unit_scale)

-- `Number(x.toFixed(places))`. The sign of -0 is not printed.
unfoldable pub fixed : ℕ → Num → Num
fixed places (fin s m e) = nearest (s && not (m == 0)) (fixed_digits places m e) (10 ^ places)
fixed places x = x

-- `hasAtMostDecimalPlaces(value, places)` of frontend/services/validation.ts. `toString` prints the
-- shortest decimal that reads back as the value; so it prints at most that many decimals, an
-- exponent counted in, where the value rounded to some number of decimals up to it reads back.
unfoldable pub has_at_most_decimal_places : Num → ℕ → Bool
unfolding is_finite num_eq fixed
has_at_most_decimal_places value zero = is_finite value && num_eq (fixed 0 value) value
has_at_most_decimal_places value (suc places) =
    is_finite value && num_eq (fixed (suc places) value) value
    || has_at_most_decimal_places value places

-- `Number.isSafeInteger`.
unfoldable pub is_safe_integer : Num → Bool
is_safe_integer (fin s m e) =
    magnitude m e % unit_scale == 0 && ltb (magnitude m e / unit_scale) (2 ^ 53)
is_safe_integer _ = false
