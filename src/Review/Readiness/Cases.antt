-- ===== src/Review/Readiness/Cases.antt =====
-- When a design is ready to be reviewed, and what is told where it is not.
use sewn_covers.Prelude.{
  Bool, true, false, Option, none, some, List, [], ◌∷◌, ◌++◌, any, ◌≡◌, ◌⊎◌, inl, inr, refl, sym,
  ◌∙◌, subst,
}
use sewn_covers.Number.{Num}
use sewn_covers.Text.{Text}
use sewn_covers.Configuration.{CushionShape, ConfigurationState}
use sewn_covers.Patterns.{PatternCatalogueResult}
use sewn_covers.Review.Readiness.{
  ReviewIssue, ReviewSection, cover_details, measurements, pattern, pattern_scale, shape,
  ReviewReadiness, incomplete, reviewed, Selection, get_invalid_measurement_message, select_pattern,
  has_review_scale, are_measured, measurement_issues, selection_issues, scale_issues, review_issues,
  are_given, review_selected, review_of, derive_review_readiness, shape_required,
}
use sewn_covers.Review.Summary.{ReviewSummary}
use sewn_covers.Review.Readiness.Requirements.{
  AreSizes, IsChosen, IsScaled, Decides, IsDecided, scale_lem, chosen_lem, measured_lem,
}

abbrev is_same_section : ReviewSection → ReviewSection → Bool
is_same_section cover_details cover_details = true
is_same_section measurements measurements = true
is_same_section pattern pattern = true
is_same_section pattern_scale pattern_scale = true
is_same_section shape shape = true
is_same_section _ _ = false

-- Is there an issue with this section?
abbrev pub has_issue : ReviewSection → List ReviewIssue → Bool
has_issue section issues = any (λ i. is_same_section i.section section) issues

-- A shape, with its sizes, a pattern that is there, and a size of the pattern.
pub record IsReviewable (state : ConfigurationState) (catalogue : PatternCatalogueResult)
    : Type 0 where
  pub cushion : CushionShape
  pub shaped : state.shape ≡ some cushion
  pub sized : AreSizes cushion state
  pub chosen : IsChosen state.pattern catalogue
  pub scaled : IsScaled state.pattern state.pattern_scale

-- There is an issue with a section exactly where its requirement is not met.
abbrev pub IsTold : ReviewSection → List ReviewIssue → Type 0 → Type 0
IsTold section issues required =
    ((has_issue section issues ≡ true) × (required → ⊥))
    ⊎ ((has_issue section issues ≡ false) × required)

-- Without a shape, only that is told; else what is told is all that is missing.
abbrev pub AreTold :
    Option CushionShape → ConfigurationState → PatternCatalogueResult → List ReviewIssue → Type 0
AreTold none state catalogue issues = issues ≡ shape_required ∷ []
AreTold (some s) state catalogue issues =
    (has_issue shape issues ≡ false)
    × IsTold measurements issues (AreSizes s state)
    × IsTold pattern issues (IsChosen state.pattern catalogue)
    × IsTold pattern_scale issues (IsScaled state.pattern state.pattern_scale)

-- The outcome of the review of a configuration with this shape, by what the configuration needs.
abbrev pub IsOutcome :
    ReviewReadiness → Option CushionShape → ConfigurationState → PatternCatalogueResult → Type 0
IsOutcome outcome o state catalogue =
    (IsReviewable state catalogue × ((summary : ReviewSummary) × (outcome ≡ reviewed summary)))
    ⊎ ((IsReviewable state catalogue → ⊥)
        × ((issues : List ReviewIssue) × (outcome ≡ incomplete issues)
            × AreTold o state catalogue issues))

measured-given :
    (state : ConfigurationState) (s : CushionShape) → AreSizes s state → are_given state ≡ true
measured-given state s v =
    let (w, w_eq, _, _, (_, _)) = v.width_within in
    let (y, y_eq, _, _, (_, _)) = v.height_within in
    let (t, t_eq, _, _, (_, _)) = v.thickness_within in rw (y_eq, t_eq, w_eq) refl

abbrev issues_of : Bool → Text → Selection → Bool → List ReviewIssue
issues_of measured message choice scaled =
    measurement_issues measured message ++ (selection_issues choice ++ scale_issues scaled)

module _ (number_text : Num → Text) (state : ConfigurationState)
    (catalogue : PatternCatalogueResult) (s : CushionShape) (shaped : state.shape ≡ some s) where
  reviewable-sized : IsReviewable state catalogue → AreSizes s state
  reviewable-sized r =
      let same : r.cushion ≡ s = let e : some r.cushion ≡ some s = sym r.shaped ∙ shaped in cc in
      subst (λ c. AreSizes c state) same r.sized

  review_selected-cases :
      (measured scaled : Bool) (message : Text) (choice : Selection)
      → Decides measured (AreSizes s state)
      → IsDecided state.pattern catalogue choice
      → Decides scaled (IsScaled state.pattern state.pattern_scale)
      → IsOutcome
          (review_selected number_text (issues_of measured message choice scaled) choice state s)
          (some s)
          state
          catalogue
  review_selected-cases measured scaled message choice (inl (m, sized)) (inl (chosen, (p, c)))
        (inl (k, fits)) =
      rw (m, c, k, measured-given state s sized)
        (inl (
          record { cushion = s; shaped = shaped; sized = sized; chosen = chosen; scaled = fits },
          (_, refl),
        ))
  review_selected-cases measured scaled message choice (inl (m, sized)) (inl (chosen, (p, c)))
        (inr (k, loose)) =
      rw (m, c, k)
        (inr (
          λ r. loose r.scaled,
          (_, refl, (refl, inr (refl, sized), inr (refl, chosen), inl (refl, loose))),
        ))
  review_selected-cases measured scaled message choice (inl (m, sized)) (inr (other, (i, c, e)))
        (inl (k, fits)) =
      rw (m, c, k, e)
        (inr (
          λ r. other r.chosen,
          (_, refl, (refl, inr (refl, sized), inl (refl, other), inr (refl, fits))),
        ))
  review_selected-cases measured scaled message choice (inl (m, sized)) (inr (other, (i, c, e)))
        (inr (k, loose)) =
      rw (m, c, k, e)
        (inr (
          λ r. other r.chosen,
          (_, refl, (refl, inr (refl, sized), inl (refl, other), inl (refl, loose))),
        ))
  review_selected-cases measured scaled message choice (inr (m, unsized)) (inl (chosen, (p, c)))
        (inl (k, fits)) =
      rw (m, c, k)
        (inr (
          λ r. unsized (reviewable-sized r),
          (_, refl, (refl, inl (refl, unsized), inr (refl, chosen), inr (refl, fits))),
        ))
  review_selected-cases measured scaled message choice (inr (m, unsized)) (inl (chosen, (p, c)))
        (inr (k, loose)) =
      rw (m, c, k)
        (inr (
          λ r. unsized (reviewable-sized r),
          (_, refl, (refl, inl (refl, unsized), inr (refl, chosen), inl (refl, loose))),
        ))
  review_selected-cases measured scaled message choice (inr (m, unsized)) (inr (other, (i, c, e)))
        (inl (k, fits)) =
      rw (m, c, k, e)
        (inr (
          λ r. unsized (reviewable-sized r),
          (_, refl, (refl, inl (refl, unsized), inl (refl, other), inr (refl, fits))),
        ))
  review_selected-cases measured scaled message choice (inr (m, unsized)) (inr (other, (i, c, e)))
        (inr (k, loose)) =
      rw (m, c, k, e)
        (inr (
          λ r. unsized (reviewable-sized r),
          (_, refl, (refl, inl (refl, unsized), inl (refl, other), inl (refl, loose))),
        ))

review_of-cases :
    (number_text : Num → Text) (o : Option CushionShape) (state : ConfigurationState)
    (catalogue : PatternCatalogueResult)
    → state.shape ≡ o
    → IsOutcome (review_of number_text o state catalogue) o state catalogue
unfolding review_issues
review_of-cases number_text none state catalogue e =
    inr (λ r. let h : none ≡ some r.cushion = sym e ∙ r.shaped in cc, (_, refl, refl))
review_of-cases number_text (some s) state catalogue e =
    review_selected-cases number_text state catalogue s e (are_measured state s)
      (has_review_scale state) (get_invalid_measurement_message state s)
      (select_pattern state.pattern catalogue) (measured_lem s state)
      (chosen_lem state.pattern catalogue) (scale_lem state.pattern state.pattern_scale)

-- A configuration is ready for its review exactly where it has a shape with sizes in range, a solid
-- colour, a listed pattern or a custom pattern with an image, and a size of the pattern from 0.5 to 2
-- unless it is a solid colour. Else, without a shape only that is told; with one, an issue stands with
-- the measurements, with the pattern and with its size exactly where the requirement is not met.
pub derive_review_readiness-cases :
    (number_text : Num → Text) (state : ConfigurationState) (catalogue : PatternCatalogueResult)
    → IsOutcome (derive_review_readiness number_text state catalogue) state.shape state catalogue
unfolding derive_review_readiness
derive_review_readiness-cases number_text state catalogue =
    review_of-cases number_text state.shape state catalogue refl
