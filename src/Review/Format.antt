-- ===== src/Review/Format.antt =====
-- `formatMeasurement` and `formatPatternScale` of frontend/context/configuration, and the names of
-- the cover choices in frontend/data/cover-options.ts.
use sewn_covers.Prelude.{
  ℕ, zero, suc, ◌-◌, ◌*◌, ◌/◌, ◌%◌, ◌^◌, Bool, true, false, not, ◌&&◌, ◌==◌, ltb, if◌then◌else◌,
  Option, none, some, [], ◌∷◌, ◌++◌, length,
}
use mathlib.Core.List.{reverse}
use sewn_covers.Number.{Num, fin, is_finite, magnitude, unit_scale, fixed_digits}
use sewn_covers.Text.{Text, codes}
use sewn_covers.Text.Naturals.{natural_text}
use sewn_covers.Configuration.{
  MaterialId, cotton_canvas, linen_blend, polyester_weave, FitPreference, close, relaxed, standard,
  ClosureType, envelope, slip_on, zipper, SeamStyle, piped, plain,
}
use sewn_covers.Configuration.Measurements.{rounded}
use sewn_covers.Configuration.Scale.{normalize_pattern_scale}

abbrev zeros : ℕ → Text
zeros zero = []
zeros (suc n) = b'0' ∷ zeros n

-- The digits of n, filled up to a number of them with zeros.
abbrev padded : ℕ → ℕ → Text
padded places n = let s = natural_text n in zeros (places - length s) ++ s

abbrev point : ℕ → ℕ → Text
point zero n = []
point (suc p) n = b'.' ∷ padded (suc p) (n % 10 ^ suc p)

abbrev sign : Bool → Text
sign true = b'-' ∷ []
sign false = []

unfoldable pub drop_zeros : Text → Text
drop_zeros [] = []
drop_zeros (c ∷ s) = let rest = drop_zeros s in if c == b'0' then rest else c ∷ s

abbrev drop_point : Text → Text
drop_point [] = []
drop_point (c ∷ s) = if c == b'.' then s else c ∷ s

abbrev without_zeros : Text → Text
without_zeros [] = []
without_zeros (c ∷ s) = if c == b'0' then drop_point (drop_zeros s) else c ∷ s

-- `replace(/\.?0+$/, "")`
unfoldable pub strip_zeros : Text → Text
unfolding drop_zeros
strip_zeros s = reverse (without_zeros (reverse s))

-- A number of 10^21 or more is printed as `String` does, which the browser has.
module _ (number_text : Num → Text) where
  -- `value.toFixed(places)`
  unfoldable pub to_fixed : ℕ → Num → Text
  unfolding fixed_digits natural_text
  to_fixed places (fin s m e) =
      if ltb (magnitude m e) (10 ^ 21 * unit_scale)
      then (let n = fixed_digits places m e in
          sign (s && not (m == 0)) ++ (natural_text (n / 10 ^ places) ++ point places n))
      else number_text (fin s m e)
  to_fixed places value = number_text value

  -- `roundMeasurement` does not throw on a finite value.
  unfoldable pub format_measurement : Option Num → Text
  unfolding is_finite rounded to_fixed strip_zeros
  format_measurement none = []
  format_measurement (some value) =
      if is_finite value then strip_zeros (to_fixed 2 (rounded value)) else []

  abbrev scale_text : Option Num → Text
  scale_text none = []
  scale_text (some scale) = to_fixed 1 scale ++ codes "×"

  unfoldable pub format_pattern_scale : Num → Text
  unfolding normalize_pattern_scale to_fixed
  format_pattern_scale value = scale_text (normalize_pattern_scale value)

-- The names in the option tables.
abbrev pub material_name : MaterialId → Text
material_name cotton_canvas = codes "Cotton canvas"
material_name linen_blend = codes "Linen blend"
material_name polyester_weave = codes "Polyester weave"

abbrev pub fit_name : FitPreference → Text
fit_name close = codes "Closer fit"
fit_name standard = codes "Standard fit"
fit_name relaxed = codes "More relaxed fit"

abbrev pub closure_name : ClosureType → Text
closure_name zipper = codes "Zipper access"
closure_name envelope = codes "Envelope opening"
closure_name slip_on = codes "Open-ended slip-on"

abbrev pub seam_name : SeamStyle → Text
seam_name plain = codes "Plain seam"
seam_name piped = codes "Piped edge"
