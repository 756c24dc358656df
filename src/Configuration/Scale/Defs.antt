-- ===== src/Configuration/Scale/Defs.antt =====
-- frontend/context/configuration/pattern-scale.ts.
use sewn_covers.Prelude.{Bool, ◌&&◌, if◌then◌else◌, Option, none, some}
use sewn_covers.Number.{Num, is_finite, num_le, decimal, fixed}

unfoldable pub pattern_scale_min : Num
unfolding decimal
pattern_scale_min = decimal 5 1

unfoldable pub pattern_scale_max : Num
unfolding decimal
pattern_scale_max = decimal 2 0

unfoldable pub pattern_scale_default : Num
unfolding decimal
pattern_scale_default = decimal 1 0

unfoldable pub is_pattern_scale_within_range : Num → Bool
unfolding pattern_scale_min pattern_scale_max is_finite num_le
is_pattern_scale_within_range value =
    is_finite value && num_le pattern_scale_min value && num_le value pattern_scale_max

unfoldable pub normalize_pattern_scale : Num → Option Num
unfolding is_pattern_scale_within_range fixed
normalize_pattern_scale value =
    let normalized = fixed 1 value in
    if is_pattern_scale_within_range value
    then (if is_pattern_scale_within_range normalized then some normalized else none)
    else none
