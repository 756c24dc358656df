-- ===== src/Configuration/Draft/Sound.antt =====
-- Whatever a draft holds, sanitising it gives a configuration that the reducer may restore.
use sewn_covers.Prelude.{
  Bool, true, false, ◌&&◌, if◌then◌else◌, Option, none, some, ◌≡◌, refl, arith, and-left, and-right,
  Bool-cases, Option-cases, inl, inr, ap, ◌∙◌,
}
use sewn_covers.Number.{Num, num_eq}
use sewn_covers.Number.Laws.{num_eq→eq}
use sewn_covers.Text.{Text, codes}
use sewn_covers.Text.Patterns.{is_pattern_id, is_public_id, is_hex_color}
use sewn_covers.Value.{Value, num, str, obj, lookup}
use sewn_covers.Configuration.Types.{
  PatternChoice, built_in, custom, solid, ConfigurationState, has_equal_face,
}
use sewn_covers.Configuration.Measurements.{is_finite_positive_measurement, rounded}
use sewn_covers.Configuration.Scale.{normalize_pattern_scale}
use sewn_covers.Configuration.Scale.Steps.{normalize-positive, normalize-default}
use sewn_covers.Configuration.Reducer.Invariant.{IsWellFormed, IsColored}
use sewn_covers.Configuration.Draft.Defs.{
  draft_measurement, text_matching, is_processing_version, custom_of, built_in_of, solid_of,
  is_text, draft_label, draft_pattern, draft_scale, draft_shape, sanitize_draft_configuration,
}

-- A measurement of a draft: none, or finite, positive and rounded to two decimals.
abbrev pub IsMeasured : Option Num → Type 0
IsMeasured none = Unit {0}
IsMeasured (some n) =
    (is_finite_positive_measurement (some n) ≡ true) × (num_eq (rounded n) n ≡ true)

-- A pattern of a draft. A custom one carries neither a preview link nor a reason.
abbrev pub IsDraftPattern : Option PatternChoice → Type 0
IsDraftPattern none = Unit {0}
IsDraftPattern (some (built_in id)) = is_pattern_id id ≡ true
IsDraftPattern (some (solid color)) = is_hex_color color ≡ true
IsDraftPattern (some (custom c)) =
    (is_public_id c.asset_id ≡ true)
    × (is_public_id c.derivative_id ≡ true)
    × (is_processing_version c.processing_version ≡ true)
    × (c.preview_url ≡ none)
    × (c.unavailable_reason ≡ none)

pub record IsDraft (s : ConfigurationState) : Type 0 where
  pub width : IsMeasured s.width
  pub height : IsMeasured s.height
  pub back_width : IsMeasured s.back_width
  pub thickness : IsMeasured s.thickness
  pub equal_face : has_equal_face s.shape ≡ true → s.width ≡ s.height
  pub pattern : IsDraftPattern s.pattern
  pub scale : normalize_pattern_scale s.pattern_scale ≡ some s.pattern_scale

measurement-IsMeasured : (v : Value) → IsMeasured (draft_measurement v)
unfolding draft_measurement
measurement-IsMeasured (num n) =
    elim (Bool-cases (is_finite_positive_measurement (some n) && num_eq (rounded n) n)) [
      | inl kept ↦ rw kept (and-left _ _ kept, and-right _ _ kept)
      | inr dropped ↦ rw dropped tt
    ]
measurement-IsMeasured _ = tt

choice-IsMeasured :
    (b : Bool) (m n : Option Num) → IsMeasured m → IsMeasured n → IsMeasured (if b then m else n)
choice-IsMeasured true m n h k = h
choice-IsMeasured false m n h k = k

text_matching-eq-some :
    (pattern : Text → Bool) (v : Value) (s : Text)
    → text_matching pattern v ≡ some s
    → pattern s ≡ true
text_matching-eq-some pattern (str t) s h = elim (Bool-cases (pattern t)) [
  | inl fits ↦ let same : t ≡ s = ground arith in rw (← same) fits
  | inr no_fit ↦ absurd (ground arith)
]
text_matching-eq-some pattern _ s h = cc

built_in-IsDraftPattern : (v : Value) → IsDraftPattern (built_in_of (text_matching is_pattern_id v))
built_in-IsDraftPattern v = elim (Option-cases (text_matching is_pattern_id v)) [
  | inl missing ↦ rw missing tt
  | inr (id, found) ↦ rw found (text_matching-eq-some is_pattern_id v id found)
]

solid-IsDraftPattern : (v : Value) → IsDraftPattern (solid_of (text_matching is_hex_color v))
solid-IsDraftPattern v = elim (Option-cases (text_matching is_hex_color v)) [
  | inl missing ↦ rw missing tt
  | inr (color, found) ↦ rw found (text_matching-eq-some is_hex_color v color found)
]

custom-IsDraftPattern :
    (a d p : Option Text) (label : Text)
    → ((s : Text) → a ≡ some s → is_public_id s ≡ true)
    → ((s : Text) → d ≡ some s → is_public_id s ≡ true)
    → ((s : Text) → p ≡ some s → is_processing_version s ≡ true)
    → IsDraftPattern (custom_of a d p label)
custom-IsDraftPattern (some a) (some d) (some p) label ha hd hp =
    (ha a refl, hd d refl, hp p refl, refl, refl)
custom-IsDraftPattern (some a) (some d) none label ha hd hp = tt
custom-IsDraftPattern (some a) none p label ha hd hp = tt
custom-IsDraftPattern none d p label ha hd hp = tt

pattern-IsDraftPattern : (v : Value) → IsDraftPattern (draft_pattern v)
unfolding draft_pattern
pattern-IsDraftPattern (obj fs) =
    elim (Bool-cases (is_text (lookup "kind" fs) (codes "built-in"))) [
      | inl built ↦ rw built (built_in-IsDraftPattern (lookup "patternId" fs))
      | inr other ↦ elim (Bool-cases (is_text (lookup "kind" fs) (codes "solid"))) [
        | inl plain ↦ rw (other, plain) (solid-IsDraftPattern (lookup "color" fs))
        | inr more ↦ elim (Bool-cases (is_text (lookup "kind" fs) (codes "custom"))) [
          | inl own ↦
              rw (other, more, own)
                (custom-IsDraftPattern (text_matching is_public_id (lookup "assetId" fs))
                  (text_matching is_public_id (lookup "derivativeId" fs))
                  (text_matching is_processing_version (lookup "processingVersion" fs))
                  (draft_label (lookup "label" fs))
                  (text_matching-eq-some is_public_id (lookup "assetId" fs))
                  (text_matching-eq-some is_public_id (lookup "derivativeId" fs))
                  (text_matching-eq-some is_processing_version (lookup "processingVersion" fs)))
          | inr unknown ↦ rw (other, more, unknown) tt
        ]
      ]
    ]
pattern-IsDraftPattern _ = tt

scale-normal : (v : Value) → normalize_pattern_scale (draft_scale v) ≡ some (draft_scale v)
unfolding draft_scale
scale-normal (num n) = elim (Option-cases (normalize_pattern_scale n)) [
  | inl outside ↦ rw outside normalize-default
  | inr (normal, e) ↦ elim (Bool-cases (num_eq normal n)) [
    | inl same ↦
        let is_n : normal ≡ n = num_eq→eq normal n same (normalize-positive n normal e) in
        rw (e, same) (rw is_n (e ∙ ap some is_n))
    | inr other ↦ rw (e, other) normalize-default
  ]
]
scale-normal _ = normalize-default

-- Sanitising any value gives a configuration of which every field is valid or at its default: the
-- measurements are null or positive, finite and rounded; a square or round face is as high as it is
-- wide; the pattern's ids or colour match; the scale is its own normal form.
pub sanitize-IsDraft : (v : Value) → IsDraft (sanitize_draft_configuration v)
unfolding sanitize_draft_configuration
sanitize-IsDraft (obj fs) = record {
  width = measurement-IsMeasured (lookup "width" fs);
  height =
      choice-IsMeasured (has_equal_face (draft_shape (lookup "shape" fs))) _ _
        (measurement-IsMeasured (lookup "width" fs)) (measurement-IsMeasured (lookup "height" fs));
  back_width = measurement-IsMeasured (lookup "backWidth" fs);
  thickness = measurement-IsMeasured (lookup "thickness" fs);
  equal_face = λ e. rw e;
  pattern = pattern-IsDraftPattern (lookup "pattern" fs);
  scale = scale-normal (lookup "patternScale" fs);
}
sanitize-IsDraft _ = record {
  width = tt;
  height = tt;
  back_width = tt;
  thickness = tt;
  equal_face = λ e. refl;
  pattern = tt;
  scale = normalize-default;
}

draft-IsColored : (p : Option PatternChoice) → IsDraftPattern p → IsColored p
draft-IsColored none h = tt
draft-IsColored (some (built_in id)) h = tt
draft-IsColored (some (solid color)) h = h
draft-IsColored (some (custom c)) h = tt

-- So a sanitised draft meets what `restoreDraft` relies on.
pub IsDraft-IsWellFormed : (s : ConfigurationState) → IsDraft s → IsWellFormed s
IsDraft-IsWellFormed s d = record {
  equal_face = d.equal_face;
  scale = d.scale;
  color = draft-IsColored s.pattern d.pattern;
}
