-- ===== src/Review/Readiness/Requirements.antt =====
-- What a design needs for its review, said of its fields, and that the code tests for it.
use sewn_covers.Prelude.{
  Bool, true, false, not, ◌&&◌, ◌||◌, Option, none, some, List, [], ◌∷◌, ◌≡◌, ◌≢◌, ◌⊎◌, inl, inr,
  refl, sym, ◌∙◌, arith, Bool-cases, Option-cases,
}
use sewn_covers.Number.{Num, zero_num, is_finite, num_lt, num_le, decimal, mul}
use sewn_covers.Number.Laws.{num_eq_refl}
use sewn_covers.Text.{Text, text_eq, text_eq→eq, text_eq_refl}
use sewn_covers.Configuration.{
  CushionShape, MeasurementUnit, cm, inch, CustomPattern, PatternChoice, built_in, custom, solid,
  ConfigurationState, has_equal_face, is_tapered,
}
use sewn_covers.Configuration.Measurements.{
  MeasurementField, width, height, back_width, thickness, is_measurement_within_range,
  has_valid_measurements_for_shape, measurement_eq, measurement_lt, is_finite_positive_measurement,
  to_centimetres, measurement_ranges_cm, centimetres_per_inch,
}
use sewn_covers.Configuration.Measurements.Validity.{measurements-IsValid}
use sewn_covers.Configuration.Scale.{
  is_pattern_scale_within_range, pattern_scale_min, pattern_scale_max,
}
use sewn_covers.Patterns.{
  PatternCatalogueResult, PatternDefinition, empty, error, loading, ready, find_pattern,
}
use sewn_covers.Review.Readiness.{
  ReviewIssue, pattern, ReviewPatternSummary, Selection, selected, refused, is_shown_custom,
  select_custom, select_pattern, are_measured, is_solid_choice,
}

-- A number that is a positive length from the least to the most centimetres.
abbrev IsLength : Num → Num → Num → Type 0
IsLength least most centimetres =
    (num_le least centimetres ≡ true) × (num_le centimetres most ≡ true)

abbrev in_centimetres : Num → MeasurementUnit → Num
in_centimetres value cm = value
in_centimetres value inch = mul value (decimal 254 2)

abbrev IsWithin : Num → Num → Option Num → MeasurementUnit → Type 0
IsWithin least most v unit =
    (x : Num) × (v ≡ some x)
    × (is_finite x ≡ true)
    × (num_lt zero_num x ≡ true)
    × IsLength least most (in_centimetres x unit)

-- A side is from 10 to 300 cm, a thickness from 1 to 60 cm; the face of a square or round cushion is
-- as high as it is wide, and the back of a tapered one is narrower than its front.
pub record AreSizes (s : CushionShape) (state : ConfigurationState) : Type 0 where
  pub width_within : IsWithin (decimal 10 0) (decimal 300 0) state.width state.unit
  pub height_within : IsWithin (decimal 10 0) (decimal 300 0) state.height state.unit
  pub thickness_within : IsWithin (decimal 1 0) (decimal 60 0) state.thickness state.unit
  pub face : has_equal_face (some s) ≡ true → state.width ≡ state.height
  pub back_within :
      is_tapered (some s) ≡ true
      → IsWithin (decimal 10 0) (decimal 300 0) state.back_width state.unit
  pub back_narrower :
      is_tapered (some s) ≡ true → measurement_lt state.back_width state.width ≡ true

abbrev IsListed : Text → List PatternDefinition → Type 0
IsListed id [] = ⊥
IsListed id (p ∷ ps) = (p.id ≡ id) ⊎ IsListed id ps

-- A solid colour, a public pattern of a catalogue that was loaded, or a custom pattern that is not
-- unavailable and has an image to show.
abbrev pub IsChosen : Option PatternChoice → PatternCatalogueResult → Type 0
IsChosen none catalogue = ⊥
IsChosen (some (solid color)) catalogue = Unit {0}
IsChosen (some (built_in id)) catalogue =
    (patterns : List PatternDefinition) × (catalogue ≡ ready patterns) × IsListed id patterns
IsChosen (some (custom p)) catalogue =
    (p.unavailable_reason ≡ none) × ((url : Text) × (p.preview_url ≡ some url) × (url ≢ []))

-- The size of a pattern is from 0.5 to 2; a solid colour needs none.
abbrev pub IsScaled : Option PatternChoice → Num → Type 0
IsScaled (some (solid color)) scale = Unit {0}
IsScaled _ scale =
    (is_finite scale ≡ true)
    × (num_le (decimal 5 1) scale ≡ true)
    × (num_le scale (decimal 2 0) ≡ true)

-- A test that decides a property.
abbrev pub Decides : Bool → Type 0 → Type 0
Decides b A = ((b ≡ true) × A) ⊎ ((b ≡ false) × (A → ⊥))

decides_lem : (b : Bool) (A : Type 0) → (b ≡ true → A) → (A → b ≡ true) → Decides b A
decides_lem true A to from = inl (refl, to refl)
decides_lem false A to from = inr (refl, λ a. let e = from a in cc)

within→IsWithin :
    (v : Option Num) (field : MeasurementField) (unit : MeasurementUnit)
    → is_measurement_within_range v field unit ≡ true
    → IsWithin (measurement_ranges_cm field).min (measurement_ranges_cm field).max v unit
unfolding is_measurement_within_range to_centimetres centimetres_per_inch
    is_finite_positive_measurement
within→IsWithin none field unit h = cc
within→IsWithin (some x) field cm h =
    (x, refl, ground arith, ground arith, (ground arith, ground arith))
within→IsWithin (some x) field inch h =
    (x, refl, ground arith, ground arith, (ground arith, ground arith))

IsWithin→within :
    (v : Option Num) (field : MeasurementField) (unit : MeasurementUnit)
    → IsWithin (measurement_ranges_cm field).min (measurement_ranges_cm field).max v unit
    → is_measurement_within_range v field unit ≡ true
unfolding is_measurement_within_range to_centimetres centimetres_per_inch
    is_finite_positive_measurement
IsWithin→within v field cm (x, e, finite, positive, (least, most)) =
    rw (e, finite, positive, least, most) refl
IsWithin→within v field inch (x, e, finite, positive, (least, most)) =
    rw (e, finite, positive, least, most) refl

in_range_lem :
    (n : Num)
    → Decides
        (is_pattern_scale_within_range n)
        ((is_finite n ≡ true) × (num_le (decimal 5 1) n ≡ true) × (num_le n (decimal 2 0) ≡ true))
unfolding is_pattern_scale_within_range pattern_scale_min pattern_scale_max
in_range_lem n =
    decides_lem _ _ (λ h. (ground arith, ground arith, ground arith))
      (λ (finite, least, most). rw (finite, least, most) refl)

pub scale_lem :
    (o : Option PatternChoice) (n : Num)
    → Decides (is_solid_choice o || is_pattern_scale_within_range n) (IsScaled o n)
scale_lem (some (solid color)) n = inl (refl, tt)
scale_lem none n = in_range_lem n
scale_lem (some (built_in id)) n = in_range_lem n
scale_lem (some (custom p)) n = in_range_lem n

-- A choice is selected, or refused with an issue of the pattern.
abbrev pub IsDecided : Option PatternChoice → PatternCatalogueResult → Selection → Type 0
IsDecided o catalogue choice =
    (IsChosen o catalogue × ((p : ReviewPatternSummary) × (choice ≡ selected p)))
    ⊎ ((IsChosen o catalogue → ⊥)
        × ((i : ReviewIssue) × (choice ≡ refused i) × (i.section ≡ pattern)))

module _ (p : CustomPattern) (catalogue : PatternCatalogueResult) where
  addressed_lem :
      (url : Text)
      → p.unavailable_reason ≡ none
      → p.preview_url ≡ some url
      → Decides (is_shown_custom p) (IsChosen (some (custom p)) catalogue)
  addressed_lem [] e f =
      inr (rw (e, f) refl, λ (_, (url, g, full)). full (let h : [] ≡ url = cc in sym h))
  addressed_lem (c ∷ url) e f = inl (rw (e, f) refl, (e, (c ∷ url, f, λ h. cc)))

  shown_lem : Decides (is_shown_custom p) (IsChosen (some (custom p)) catalogue)
  shown_lem = elim (Option-cases p.unavailable_reason) [
    | inr (reason, e) ↦
        inr (rw e refl, λ (there, rest). let h : some reason ≡ none = sym e ∙ there in cc)
    | inl e ↦ elim (Option-cases p.preview_url) [
      | inl f ↦
          inr (rw (e, f) refl, λ (_, (url, g, full)). let h : none ≡ some url = sym f ∙ g in cc)
      | inr (url, f) ↦ addressed_lem url e f
    ]
  ]

  custom-IsDecided : IsDecided (some (custom p)) catalogue (select_custom p)
  custom-IsDecided = elim shown_lem [
    | inl (h, chosen) ↦ rw h (inl (chosen, (_, refl)))
    | inr (h, other) ↦ rw h (inr (other, (_, refl, refl)))
  ]

find_pattern-IsListed :
    (id : Text) (patterns : List PatternDefinition)
    → ((p : PatternDefinition) × (find_pattern patterns id ≡ some p) × IsListed id patterns)
      ⊎ ((find_pattern patterns id ≡ none) × (IsListed id patterns → ⊥))
unfolding find_pattern
find_pattern-IsListed id [] = inr (refl, λ h. h)
find_pattern-IsListed id (p ∷ ps) = elim (Bool-cases (text_eq p.id id)) [
  | inl same ↦ inl (p, rw same refl, inl (text_eq→eq p.id id same))
  | inr other ↦ elim (find_pattern-IsListed id ps) [
    | inl (q, found, listed) ↦ inl (q, rw other found, inr listed)
    | inr (missing, unlisted) ↦ inr (
      rw other missing,
      λ h. elim h [
        | inl same ↦ let e : false ≡ true = sym other ∙ rw same (text_eq_refl id) in cc
        | inr later ↦ unlisted later
      ],
    )
  ]
]

pub chosen_lem :
    (o : Option PatternChoice) (catalogue : PatternCatalogueResult)
    → IsDecided o catalogue (select_pattern o catalogue)
unfolding select_pattern
chosen_lem (some (custom p)) catalogue = custom-IsDecided p catalogue
chosen_lem (some (solid color)) catalogue = inl (tt, (_, refl))
chosen_lem none loading = inr (λ h. h, (_, refl, refl))
chosen_lem none (error issues) = inr (λ h. h, (_, refl, refl))
chosen_lem none empty = inr (λ h. h, (_, refl, refl))
chosen_lem none (ready patterns) = inr (λ h. h, (_, refl, refl))
chosen_lem (some (built_in id)) loading = inr (λ (ps, e, h). cc, (_, refl, refl))
chosen_lem (some (built_in id)) (error issues) = inr (λ (ps, e, h). cc, (_, refl, refl))
chosen_lem (some (built_in id)) empty = inr (λ (ps, e, h). cc, (_, refl, refl))
chosen_lem (some (built_in id)) (ready patterns) = elim (find_pattern-IsListed id patterns) [
  | inl (p, found, listed) ↦ rw found (inl ((patterns, refl, listed), (_, refl)))
  | inr (missing, unlisted) ↦
      rw missing
        (inr (λ (ps, e, h). let same : patterns ≡ ps = cc in unlisted (rw same h), (_, refl, refl)))
]

module _ (s : CushionShape) (state : ConfigurationState) where
  measured-AreSizes : are_measured state s ≡ true → AreSizes s state
  unfolding measurement_ranges_cm
  measured-AreSizes h =
      let v =
        measurements-IsValid s state.width state.height state.thickness state.unit state.back_width
          h in
      record {
        width_within = within→IsWithin state.width width state.unit v.width_within;
        height_within = within→IsWithin state.height height state.unit v.height_within;
        thickness_within = within→IsWithin state.thickness thickness state.unit v.thickness_within;
        face = v.face;
        back_within = λ e. within→IsWithin state.back_width back_width state.unit (v.back_within e);
        back_narrower = v.back_narrower;
      }

  same_face :
      (a b : Option Num) (x : Num)
      → b ≡ some x
      → is_finite x ≡ true
      → a ≡ b
      → measurement_eq a b ≡ true
  unfolding measurement_eq
  same_face a b x given finite same = rw (same, given) (num_eq_refl x finite)

  face_lem : (b m : Bool) → (b ≡ true → m ≡ true) → (b && not m) ≡ false
  face_lem true m h = rw (h refl) refl
  face_lem false m h = refl

  back_lem :
      (b m n : Bool) → (b ≡ true → m ≡ true) → (b ≡ true → n ≡ true) → (not b || m && n) ≡ true
  back_lem true m n h k = rw (h refl, k refl) refl
  back_lem false m n h k = refl

  AreSizes-measured : AreSizes s state → are_measured state s ≡ true
  unfolding has_valid_measurements_for_shape measurement_ranges_cm
  AreSizes-measured v =
      let (x, given, finite, positive, (least, most)) = v.height_within in
      rw
        (
          IsWithin→within state.width width state.unit v.width_within,
          IsWithin→within state.height height state.unit v.height_within,
          IsWithin→within state.thickness thickness state.unit v.thickness_within,
          face_lem (has_equal_face (some s)) (measurement_eq state.width state.height)
              (λ e. same_face state.width state.height x given finite (v.face e)),
        )
        (back_lem (is_tapered (some s)) _ _
          (λ e. IsWithin→within state.back_width back_width state.unit (v.back_within e))
          v.back_narrower)

  pub measured_lem : Decides (are_measured state s) (AreSizes s state)
  measured_lem = decides_lem _ _ measured-AreSizes AreSizes-measured
