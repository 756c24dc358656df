-- ===== src/Text/Patterns.antt =====
-- The regular expressions of the modelled code, each as the function that decides it.
use sewn_covers.Prelude.{
  ℕ, Bool, true, false, ◌&&◌, ◌||◌, leb, ◌==◌, if◌then◌else◌, [], ◌∷◌, all, length,
}
use sewn_covers.Text.Basic.{Text}

unfoldable pub is_digit : ℕ → Bool
is_digit c = leb b'0' c && leb c b'9'

unfoldable pub is_lower : ℕ → Bool
is_lower c = leb b'a' c && leb c b'z'

unfoldable pub is_upper : ℕ → Bool
is_upper c = leb b'A' c && leb c b'Z'

-- [0-9A-F], and [0-9a-f] in either case.
unfoldable pub is_upper_hex : ℕ → Bool
unfolding is_digit
is_upper_hex c = is_digit c || leb b'A' c && leb c b'F'

unfoldable pub is_hex : ℕ → Bool
unfolding is_upper_hex
is_hex c = is_upper_hex c || leb b'a' c && leb c b'f'

-- `-`, then letters and digits with a first one that is no dash: the tail of a pattern id. The
-- flag says that the last character was a dash.
unfoldable pub id_tail : Bool → Text → Bool
unfolding is_lower is_digit
id_tail dash [] = if dash then false else true
id_tail dash (c ∷ s) =
    let word = id_tail false s in
    let next = id_tail true s in
    if is_lower c || is_digit c then word else if dash then false else c == b'-' && next

-- /^[a-z][a-z0-9]*(?:-[a-z0-9]+)*$/
unfoldable pub is_pattern_id : Text → Bool
unfolding id_tail
is_pattern_id [] = false
is_pattern_id (c ∷ s) = is_lower c && id_tail false s

unfoldable pub is_id_char : ℕ → Bool
unfolding is_lower is_upper is_digit
is_id_char c = is_lower c || is_upper c || is_digit c || c == b'_' || c == b'-'

-- /^[A-Za-z0-9_-]{22}$/
unfoldable pub is_public_id : Text → Bool
unfolding is_id_char
is_public_id s = length s == 22 && all is_id_char s

-- /^#[0-9A-F]{6}$/
unfoldable pub is_hex_color : Text → Bool
unfolding is_upper_hex
is_hex_color [] = false
is_hex_color (c ∷ s) = c == b'#' && (length s == 6 && all is_upper_hex s)
