-- ===== src/Configuration/Color/Defs.antt =====
-- frontend/context/configuration/fabric-color.ts.
use sewn_covers.Prelude.{◌&&◌, ◌==◌, if◌then◌else◌, Option, none, some, [], ◌∷◌, length, all}
use sewn_covers.Text.{Text, trim, to_upper}
use sewn_covers.Text.Patterns.{is_hex}

abbrev pub six_hex : Text → Option Text
six_hex s = if length s == 6 && all is_hex s then some s else none

-- The group of /^#?([0-9a-f]{6})$/i.
unfoldable pub hex_group : Text → Option Text
unfolding is_hex
hex_group [] = six_hex []
hex_group (c ∷ s) = if c == b'#' then six_hex s else six_hex (c ∷ s)

abbrev pub upper_color : Option Text → Option Text
upper_color none = none
upper_color (some s) = some (b'#' ∷ to_upper s)

unfoldable pub normalize_hex_color : Text → Option Text
unfolding hex_group trim to_upper
normalize_hex_color value = upper_color (hex_group (trim value))
