-- ===== src/Links/Digest.antt =====
-- `hashValue` and `designFingerprint`. A 32-bit integer is its unsigned value: `Math.imul`, `^`, `>>>`
-- and `&` are the same on it.
use sewn_covers.Prelude.{
  ℕ, zero, suc, ◌+◌, ◌*◌, ◌/◌, ◌%◌, ◌^◌, Bool, ltb, if◌then◌else◌, Option, none, some, [], ◌∷◌,
  ◌++◌,
}
use sewn_covers.Number.{Num}
use sewn_covers.Text.{Text, codes}
use sewn_covers.Value.{Value, null, str, num, arr, nil, cons}
use sewn_covers.Configuration.{
  CushionShape, PatternChoice, built_in, custom, solid, ConfigurationState, shape_id, unit_id,
  material_id, fit_id, closure_id, seam_id, is_tapered,
}
pub mod Bounds

abbrev pub word : ℕ
word = 2 ^ 32

-- `a ^ b` on the last bits of two words.
unfoldable pub bit_xor : ℕ → ℕ → ℕ → ℕ
bit_xor zero a b = 0
bit_xor (suc bits) a b = (a % 2 + b % 2) % 2 + 2 * bit_xor bits (a / 2) (b / 2)

unfoldable pub xor32 : ℕ → ℕ → ℕ
unfolding bit_xor
xor32 a b = bit_xor 32 a b

-- `Math.imul(a, b)`
unfoldable pub imul : ℕ → ℕ → ℕ
imul a b = (a * b) % word

-- The loop over the code units, on the two halves of the digest.
unfoldable pub mix : Text → ℕ × ℕ → ℕ × ℕ
unfolding imul xor32
mix [] (first, second) = (first, second)
mix (c ∷ s) (first, second) =
    mix s (imul (xor32 first c) 2654435761, imul (xor32 second c) 1597334677)

-- The two assignments after the loop; the second reads the new first half.
abbrev pub finish : ℕ × ℕ → ℕ × ℕ
finish (first, second) =
    let last =
      xor32 (imul (xor32 first (first / 2 ^ 16)) 2246822507)
        (imul (xor32 second (second / 2 ^ 13)) 3266489909) in
    (
      last,
      xor32 (imul (xor32 second (second / 2 ^ 16)) 2246822507)
          (imul (xor32 last (last / 2 ^ 13)) 3266489909),
    )

abbrev pub digit_36 : ℕ → ℕ
digit_36 n = if ltb n 10 then b'0' + n else 87 + n

-- `toString(36)` on fuel; a number under 2^53 has at most eleven digits.
unfoldable pub base_36 : ℕ → ℕ → Text
base_36 zero n = []
base_36 (suc fuel) n =
    let rest = base_36 fuel (n / 36) in
    if ltb n 36 then digit_36 n ∷ [] else rest ++ (digit_36 (n % 36) ∷ [])

abbrev pub digest : ℕ × ℕ → ℕ
digest (first, second) = word * (second % 2 ^ 21) + first

unfoldable pub hash_value : Text → Text
unfolding mix imul xor32 base_36
hash_value value = base_36 11 (digest (finish (mix value (0xdeadbeef, 0x41c6ce57))))

abbrev texts : Text → Text → Value
texts kind id = arr (cons (str kind) (cons (str id) nil))

abbrev pub pattern_key : Option PatternChoice → Value
pattern_key none = null
pattern_key (some (built_in id)) = texts (codes "built-in") id
pattern_key (some (solid color)) = texts (codes "solid") color
pattern_key (some (custom p)) = arr (
    cons (str (codes "custom"))
      (cons (str p.asset_id) (cons (str p.derivative_id) (cons (str p.processing_version) nil))))

abbrev pub shape_or_null : Option CushionShape → Value
shape_or_null none = null
shape_or_null (some s) = str (shape_id s)

abbrev pub number_or_null : Option Num → Value
number_or_null none = null
number_or_null (some n) = num n

abbrev pub fingerprint_back_width : Bool → Option Num → Value
fingerprint_back_width tapered b = if tapered then number_or_null b else null

abbrev pub fingerprint_value : ConfigurationState → Value
fingerprint_value c = arr (
    cons (shape_or_null c.shape) (
      cons (number_or_null c.width) (
        cons (number_or_null c.height) (
          cons (fingerprint_back_width (is_tapered c.shape) c.back_width) (
            cons (number_or_null c.thickness) (
              cons (str (unit_id c.unit)) (
                cons (pattern_key c.pattern) (
                  cons (num c.pattern_scale) (
                    cons (str (material_id c.material)) (
                      cons (str (fit_id c.fit)) (
                        cons (str (closure_id c.closure))
                          (cons (str (seam_id c.seam)) nil))))))))))))

-- `JSON.stringify` is the browser's.
module _ (stringify : Value → Text) where
  unfoldable pub design_fingerprint : ConfigurationState → Text
  unfolding hash_value
  design_fingerprint c = hash_value (stringify (fingerprint_value c))
