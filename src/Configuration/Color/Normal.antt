-- ===== src/Configuration/Color/Normal.antt =====
-- Normalised colours: what normalising gives, and that it keeps them.
use mathlib.Core.List.{reverse, reverse-cons, reverse-reverse}
use sewn_covers.Prelude.{
  ℕ, suc, ◌-◌, Bool, true, ◌&&◌, ◌==◌, ==→eq, some, [], ◌∷◌, ◌++◌, length, all, ◌≡◌, refl, ap,
  arith, and-left, and-right, if◌then◌else◌, leb, not, Option-cases, Bool-cases, inl, inr,
}
use sewn_covers.Text.{Text, trim, trim_start, to_upper, is_space}
use sewn_covers.Text.Patterns.{is_hex, is_upper_hex, is_hex_color}
use sewn_covers.Configuration.Color.Defs.{six_hex, hex_group, normalize_hex_color}

upper_hex : ℕ → ℕ
upper_hex c = if leb b'a' c && leb c b'z' then c - 32 else c

length-to_upper : (s : Text) → length (to_upper s) ≡ length s
unfolding to_upper
length-to_upper [] = refl
length-to_upper (c ∷ s) = ap suc (length-to_upper s)

all-to_upper : (s : Text) → all is_hex s ≡ true → all is_upper_hex (to_upper s) ≡ true
unfolding to_upper is_hex
all-to_upper [] h = refl
all-to_upper (c ∷ s) h = ground (arith, all-to_upper s)

IsSixHex : Text → Type 0
IsSixHex g = ((length g == 6) ≡ true) × (all is_hex g ≡ true)

six_hex-eq-some : (s g : Text) → six_hex s ≡ some g → IsSixHex g
unfolding IsSixHex
six_hex-eq-some s g h = elim (Bool-cases (length s == 6 && all is_hex s)) [
  | inl fits ↦
      let same : s ≡ g = ground arith in rw (← same) (and-left _ _ fits, and-right _ _ fits)
  | inr no_fit ↦ absurd (ground arith)
]

hex_group-eq-some : (s g : Text) → hex_group s ≡ some g → IsSixHex g
unfolding hex_group
hex_group-eq-some [] g h = six_hex-eq-some [] g h
hex_group-eq-some (c ∷ s) g h = elim (Bool-cases (c == b'#')) [
  | inl hash ↦ six_hex-eq-some s g (ground arith)
  | inr other ↦ six_hex-eq-some (c ∷ s) g (ground arith)
]

upper-is_hex_color : (g : Text) → IsSixHex g → is_hex_color (b'#' ∷ to_upper g) ≡ true
unfolding is_hex_color IsSixHex
upper-is_hex_color g (six, hex) = rw (length-to_upper g, six, all-to_upper g hex)

-- Every colour that normalising accepts comes back as `#` and six digits in upper case.
pub normalize-is_hex_color : (v c : Text) → normalize_hex_color v ≡ some c → is_hex_color c ≡ true
unfolding normalize_hex_color
normalize-is_hex_color v c h = elim (Option-cases (hex_group (trim v))) [
  | inl missing ↦ absurd (ground arith)
  | inr (g, found) ↦
      let same : b'#' ∷ to_upper g ≡ c = ground arith in
      rw (← same) (upper-is_hex_color g (hex_group-eq-some (trim v) g found))
]

-- Text without white space.
is_solid_text : Text → Bool
is_solid_text s = all (λ c. not (is_space c)) s

trim_start-solid : (s : Text) → is_solid_text s ≡ true → trim_start s ≡ s
unfolding trim_start is_solid_text
trim_start-solid [] h = refl
trim_start-solid (c ∷ s) h = ground arith

solid-append :
    (s t : Text) → is_solid_text s ≡ true → is_solid_text t ≡ true → is_solid_text (s ++ t) ≡ true
unfolding is_solid_text
solid-append [] t h k = k
solid-append (c ∷ s) t h k = ground (arith, solid-append s t)

solid-reverse : (s : Text) → is_solid_text s ≡ true → is_solid_text (reverse s) ≡ true
unfolding is_solid_text
solid-reverse [] h = refl
solid-reverse (c ∷ s) h =
    rw reverse-cons
      (solid-append (reverse s) (c ∷ []) (solid-reverse s (and-right _ _ h)) (ground arith))

trim-solid : (s : Text) → is_solid_text s ≡ true → trim s ≡ s
unfolding trim
trim-solid s h =
    rw (trim_start-solid s h, trim_start-solid (reverse s) (solid-reverse s h)) (reverse-reverse s)

digit_is_solid : (c : ℕ) → is_upper_hex c ≡ true → not (is_space c) ≡ true
unfolding is_upper_hex is_space
digit_is_solid c h = ground arith

digits_are_solid : (s : Text) → all is_upper_hex s ≡ true → is_solid_text s ≡ true
unfolding is_solid_text
digits_are_solid [] h = refl
digits_are_solid (c ∷ s) h = ground (arith, digit_is_solid c, digits_are_solid s)

digits_are_hex : (s : Text) → all is_upper_hex s ≡ true → all is_hex s ≡ true
unfolding is_hex
digits_are_hex [] h = refl
digits_are_hex (c ∷ s) h = ground (arith, digits_are_hex s)

to_upper-digits : (s : Text) → all is_upper_hex s ≡ true → to_upper s ≡ s
unfolding to_upper is_upper_hex
to_upper-digits [] h = refl
to_upper-digits (c ∷ s) h = ground (arith, to_upper-digits s)

hex_group-digits :
    (s : Text) → (length s == 6) ≡ true → all is_hex s ≡ true → hex_group (b'#' ∷ s) ≡ some s
unfolding hex_group
hex_group-digits s six hex = rw (six, hex)

hash_is_solid : (s : Text) → is_solid_text s ≡ true → is_solid_text (b'#' ∷ s) ≡ true
unfolding is_solid_text is_space
hash_is_solid s h = h

normalize-digits :
    (s : Text)
    → (length s == 6) ≡ true
    → all is_upper_hex s ≡ true
    → normalize_hex_color (b'#' ∷ s) ≡ some (b'#' ∷ s)
unfolding normalize_hex_color
normalize-digits s six digits = rw (
  trim-solid (b'#' ∷ s) (hash_is_solid s (digits_are_solid s digits)),
  hex_group-digits s six (digits_are_hex s digits),
  to_upper-digits s digits,
)

-- A normalised colour is kept as it is.
pub normalize-of_is_hex_color : (c : Text) → is_hex_color c ≡ true → normalize_hex_color c ≡ some c
unfolding is_hex_color
normalize-of_is_hex_color [] h = cc
normalize-of_is_hex_color (a ∷ s) h =
    let rest = and-right (a == b'#') (length s == 6 && all is_upper_hex s) h in
    rw (==→eq a b'#' (and-left (a == b'#') (length s == 6 && all is_upper_hex s) h))
      (normalize-digits s (and-left _ _ rest) (and-right _ _ rest))

-- A colour that normalising returns is `#` and six upper-case hexadecimal digits, and is its own
-- normal form.
pub normalize_stable :
    (v c : Text)
    → normalize_hex_color v ≡ some c
    → (is_hex_color c ≡ true) × (normalize_hex_color c ≡ some c)
normalize_stable v c h =
    let normal = normalize-is_hex_color v c h in (normal, normalize-of_is_hex_color c normal)
