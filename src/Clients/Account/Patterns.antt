-- ===== src/Clients/Account/Patterns.antt =====
-- What `readPatternChoice` and `readStringMap` return.
use sewn_covers.Prelude.{true, some, ◌≡◌, subst, inl, inr, refl, arith, Bool-cases}
use sewn_covers.Text.{Text, codes, text_eq}
use sewn_covers.Text.Patterns.{is_hex_color}
use sewn_covers.Value.{Value, str, obj, Fields, field, end, lookup, as_record, >>=-eq-some}
use sewn_covers.Value.Laws.{IsStable}
use sewn_covers.Value.Interface.{Fits, is_interface, has_fields, is_literal, is_string}
use sewn_covers.Clients.Account.Tables.{
  text_field, built_in_pattern, solid_pattern, custom_pattern, pattern_of_kind, read_pattern_choice,
  all_strings, read_string_map,
}
use sewn_covers.Clients.Account.Interfaces.{is_project_pattern_choice, is_string_map}

abbrev built_in_value : Text → Value
built_in_value id = obj (field "kind" (str (codes "built-in")) (field "patternId" (str id) end))

abbrev solid_value : Text → Value
solid_value color = obj (field "kind" (str (codes "solid")) (field "color" (str color) end))

abbrev custom_value : Text → Text → Text → Value
custom_value asset derivative version = obj (
    field "kind" (str (codes "custom")) (
      field "assetId" (str asset)
        (field "derivativeId" (str derivative) (field "processingVersion" (str version) end))))

data IsChoice : Value → Type 0 where
  built_in : (id : Text) → IsChoice (built_in_value id)
  solid : (color : Text) → is_hex_color color ≡ true → IsChoice (solid_value color)
  custom : (asset derivative version : Text) → IsChoice (custom_value asset derivative version)

built_in_pattern-IsChoice : (fs : Fields) (w : Value) → built_in_pattern fs ≡ some w → IsChoice w
built_in_pattern-IsChoice fs w h =
    let (id, _, h1) = >>=-eq-some (text_field "patternId" fs) _ h in
    let same : built_in_value id ≡ w = cc in subst IsChoice same (built_in id)

solid_pattern-IsChoice : (fs : Fields) (w : Value) → solid_pattern fs ≡ some w → IsChoice w
solid_pattern-IsChoice fs w h =
    let (color, _, h1) = >>=-eq-some (text_field "color" fs) _ h in
    elim (Bool-cases (is_hex_color color)) [
      | inl good ↦
          let same : solid_value color ≡ w = ground arith in subst IsChoice same (solid color good)
      | inr bad ↦ absurd (ground arith)
    ]

custom_pattern-IsChoice : (fs : Fields) (w : Value) → custom_pattern fs ≡ some w → IsChoice w
custom_pattern-IsChoice fs w h =
    let (asset, _, h1) = >>=-eq-some (text_field "assetId" fs) _ h in
    let (derivative, _, h2) = >>=-eq-some (text_field "derivativeId" fs) _ h1 in
    let (version, _, h3) = >>=-eq-some (text_field "processingVersion" fs) _ h2 in
    let same : custom_value asset derivative version ≡ w = cc in
    subst IsChoice same (custom asset derivative version)

pattern_of_kind-IsChoice :
    (kind : Text) (fs : Fields) (w : Value) → pattern_of_kind kind fs ≡ some w → IsChoice w
pattern_of_kind-IsChoice kind fs w h = elim (Bool-cases (text_eq kind (codes "built-in"))) [
  | inl a ↦ built_in_pattern-IsChoice fs w (ground arith)
  | inr a ↦ elim (Bool-cases (text_eq kind (codes "solid"))) [
    | inl b ↦ solid_pattern-IsChoice fs w (ground arith)
    | inr b ↦ elim (Bool-cases (text_eq kind (codes "custom"))) [
      | inl c ↦ custom_pattern-IsChoice fs w (ground arith)
      | inr c ↦ absurd (ground arith)
    ]
  ]
]

read_pattern_choice-IsChoice : (v w : Value) → read_pattern_choice v ≡ some w → IsChoice w
unfolding read_pattern_choice
read_pattern_choice-IsChoice v w h =
    let (fs, _, h1) = >>=-eq-some (as_record v) _ h in
    let (kind, _, h2) = >>=-eq-some (text_field "kind" fs) _ h1 in
    pattern_of_kind-IsChoice kind fs w h2

choice-stable : (w : Value) → IsChoice w → read_pattern_choice w ≡ some w
unfolding read_pattern_choice lookup text_eq as_record
choice-stable _ (built_in id) = refl
choice-stable _ (solid color good) = rw good refl
choice-stable _ (custom asset derivative version) = refl

choice-fits : (w : Value) → IsChoice w → is_project_pattern_choice w ≡ true
unfolding is_project_pattern_choice is_interface has_fields lookup is_literal is_string text_eq
choice-fits _ (built_in id) = refl
choice-fits _ (solid color good) = refl
choice-fits _ (custom asset derivative version) = refl

pub read_pattern_choice-IsStable : IsStable read_pattern_choice
unfolding read_pattern_choice
read_pattern_choice-IsStable v w h = choice-stable w (read_pattern_choice-IsChoice v w h)

pub read_pattern_choice-Fits : Fits read_pattern_choice is_project_pattern_choice
unfolding read_pattern_choice
read_pattern_choice-Fits v w h = choice-fits w (read_pattern_choice-IsChoice v w h)

read_string_map-found :
    (v w : Value)
    → read_string_map v ≡ some w
    → (fs : Fields) × (obj fs ≡ w) × (all_strings fs ≡ true)
unfolding read_string_map
read_string_map-found v w h =
    let (fs, _, h1) = >>=-eq-some (as_record v) _ h in
    elim (Bool-cases (all_strings fs)) [
      | inl good ↦ (fs, ground arith, good)
      | inr bad ↦ absurd (ground arith)
    ]

pub read_string_map-IsStable : IsStable read_string_map
unfolding read_string_map as_record
read_string_map-IsStable v w h =
    let (fs, same, good) = read_string_map-found v w h in rw (← same) (rw good refl)

pub read_string_map-Fits : Fits read_string_map is_string_map
unfolding is_string_map
read_string_map-Fits v w h = let (fs, same, good) = read_string_map-found v w h in rw (← same) good
