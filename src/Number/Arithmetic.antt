-- ===== src/Number/Arithmetic.antt =====
-- `+`, `*`, `/`, `Math.round`, `Math.ceil`, `Math.floor` and `Math.min` on doubles: the exact
-- result is rounded to the nearest double, ties to an even significand.
use mathlib.Core.Bool.{xor}
use sewn_covers.Prelude.{
  ℕ, ◌+◌, ◌-◌, ◌*◌, ◌/◌, ◌%◌, ◌^◌, Bool, true, false, ltb, leb, ◌==◌, if◌then◌else◌, List, [], ◌∷◌,
}
use sewn_covers.Number.Double.{Num, nan, inf, fin, magnitude}

-- 1 in units of 2^-1074.
abbrev pub unit_scale : ℕ
unit_scale = 2 ^ 1074

-- The position of the highest bit, for numbers below 2^8192.
log2_from : List ℕ → ℕ → ℕ
log2_from [] t = 0
log2_from (k ∷ ks) t =
    (if leb (2 ^ k) t then k else 0) + log2_from ks (if leb (2 ^ k) t then t / 2 ^ k else t)

abbrev log2_steps : List ℕ
log2_steps = 4096 ∷ 2048 ∷ 1024 ∷ 512 ∷ 256 ∷ 128 ∷ 64 ∷ 32 ∷ 16 ∷ 8 ∷ 4 ∷ 2 ∷ 1 ∷ []

-- p / q to the nearest integer, ties to even.
unfoldable pub half_even : ℕ → ℕ → ℕ
half_even p q =
    let d = p / q in
    let r = p % q in if ltb (2 * r) q then d else if ltb q (2 * r) then d + 1 else d + d % 2

-- A significand that was rounded up to 2^53, and overflow.
unfoldable pub pack : Bool → ℕ → ℕ → Num
pack neg m e =
    let m' = if m == 2 ^ 53 then 2 ^ 52 else m in
    let e' = if m == 2 ^ 53 then e + 1 else e in if ltb 2045 e' then inf neg else fin neg m' e'

-- The double nearest to p / q.
unfoldable pub nearest : Bool → ℕ → ℕ → Num
unfolding log2_from half_even pack
nearest neg p q =
    let e = log2_from log2_steps (p * unit_scale / q) - 52 in
    pack neg (half_even (p * unit_scale) (q * 2 ^ e)) e

unfoldable pub add : Num → Num → Num
add (fin s m e) (fin s' m' e') =
    let a = magnitude m e in
    let b = magnitude m' e' in
    if xor s s'
    then (if ltb a b
        then nearest s' (b - a) unit_scale
        else if ltb b a
        then nearest s (a - b) unit_scale
        else fin false 0 0)
    else nearest s (a + b) unit_scale
add (inf s) (inf s') = if xor s s' then nan else inf s
add (inf s) (fin _ _ _) = inf s
add (fin _ _ _) (inf s) = inf s
add _ _ = nan

unfoldable pub mul : Num → Num → Num
mul (fin s m e) (fin s' m' e') =
    nearest (xor s s') (magnitude m e * magnitude m' e') (unit_scale * unit_scale)
mul (inf s) (inf s') = inf (xor s s')
mul (inf s) (fin s' m _) = if m == 0 then nan else inf (xor s s')
mul (fin s' m _) (inf s) = if m == 0 then nan else inf (xor s s')
mul _ _ = nan

unfoldable pub div : Num → Num → Num
div (fin s m e) (fin s' m' e') =
    if m' == 0
    then (if m == 0 then nan else inf (xor s s'))
    else nearest (xor s s') (magnitude m e) (magnitude m' e')
div (inf s) (fin s' _ _) = inf (xor s s')
div (fin s _ _) (inf s') = fin (xor s s') 0 0
div _ _ = nan

-- `Math.round(x)` is the integer nearest to x, ties upwards.
unfoldable pub math_round : Num → Num
math_round (fin false m e) = nearest false ((2 * magnitude m e + unit_scale) / (2 * unit_scale)) 1
math_round (fin true m e) =
    nearest true ((2 * magnitude m e + (unit_scale - 1)) / (2 * unit_scale)) 1
math_round x = x

unfoldable pub math_floor : Num → Num
math_floor (fin false m e) = nearest false (magnitude m e / unit_scale) 1
math_floor (fin true m e) = nearest true ((magnitude m e + (unit_scale - 1)) / unit_scale) 1
math_floor x = x

unfoldable pub math_ceil : Num → Num
math_ceil (fin false m e) = nearest false ((magnitude m e + (unit_scale - 1)) / unit_scale) 1
math_ceil (fin true m e) = nearest true (magnitude m e / unit_scale) 1
math_ceil x = x
