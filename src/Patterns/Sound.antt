-- ===== src/Patterns/Sound.antt =====
-- What a response must be to become a catalogue, and what the catalogue then is.
use sewn_covers.Prelude.{
  Bool, true, false, not, ◌&&◌, ◌||◌, Option, none, some, is_some, or_else, List, [], ◌∷◌, ◌++◌,
  map, all, any, ◌≡◌, ◌⊎◌, inl, inr, refl, ap, sym, ◌∙◌, arith, Bool-cases, and-left, and-right,
}
use sewn_covers.Text.{Text, text_eq}
use sewn_covers.Text.Patterns.{is_pattern_id}
use sewn_covers.ApiClient.{PatternResponse}
use sewn_covers.Patterns.Defs.{
  PatternDefinition, PatternFilters, error, ready, includes, is_pattern_category_id,
  is_pattern_color_id, artwork_of, Artwork, inherited, all_pattern_categories, all_pattern_colors,
}
use sewn_covers.Patterns.Resolve.{
  add_value, values_of_set, has_values, issue_if, is_blank, is_incomplete, misses_category,
  misses_color, pattern_issues, definition_with, resolved_with, resolved_pattern,
  issues_of_patterns, resolved_patterns, is_miscounted, catalogue_issues, result_of,
  resolve_pattern_responses,
}
use sewn_covers.Patterns.Distinct.{are_distinct, has_values-find_duplicate_values}

-- The pattern fits the filters that were asked for.
abbrev pub fits_filters : Option PatternFilters → PatternResponse → Bool
fits_filters none p = true
fits_filters (some f) p =
    (text_eq f.category_id all_pattern_categories || text_eq p.category_id f.category_id)
    && (text_eq f.color_id all_pattern_colors || includes p.color_ids f.color_id)

abbrev pub is_valid_pattern : Option PatternFilters → PatternResponse → Bool
is_valid_pattern filters p =
    not (is_blank p.id)
    && not (is_blank p.name)
    && not (is_blank p.description)
    && not (is_blank p.preview_class_name)
    && is_pattern_id p.id
    && is_pattern_category_id p.category_id
    && has_values p.color_ids
    && all is_pattern_color_id p.color_ids
    && are_distinct p.color_ids
    && fits_filters filters p
    && is_some (artwork_of p.id)

has_values-append : (xs ys : List Text) → has_values (xs ++ ys) ≡ (has_values xs || has_values ys)
has_values-append [] ys = refl
has_values-append (x ∷ xs) ys = refl

has_values-issue_if : (b : Bool) (issue : Text) → has_values (issue_if b issue) ≡ b
has_values-issue_if true issue = refl
has_values-issue_if false issue = refl

any-not : (p : Text → Bool) (xs : List Text) → any (λ c. not (p c)) xs ≡ not (all p xs)
any-not p [] = refl
any-not p (x ∷ xs) = ground (arith, any-not p xs)

not_or : (a b : Bool) → not (a || b) ≡ (not a && not b)
not_or a b = ground arith

not_and : (a b : Bool) → not (a && b) ≡ (not a || not b)
not_and a b = ground arith

not-not : (a : Bool) → not (not a) ≡ a
not-not a = ground arith

and_assoc : (a b c : Bool) → ((a && b) && c) ≡ (a && (b && c))
and_assoc a b c = ground arith

ruleset negation = (
  has_values-append, has_values-issue_if, has_values-find_duplicate_values, any-not, not_or,
  not_and, not-not, and_assoc,
)

misses_fits :
    (filters : Option PatternFilters) (p : PatternResponse)
    → (not (misses_category filters p) && not (misses_color filters p)) ≡ fits_filters filters p
unfolding misses_category misses_color
misses_fits none p = refl
misses_fits (some f) p = simp negation

has_values-pattern_issues :
    (filters : Option PatternFilters) (p : PatternResponse)
    → not (has_values (pattern_issues filters p)) ≡ is_valid_pattern filters p
unfolding pattern_issues is_incomplete
has_values-pattern_issues filters p = rw (← misses_fits filters p) (simp negation)

has_values-issues_of_patterns :
    (filters : Option PatternFilters) (ps : List PatternResponse)
    → not (has_values (issues_of_patterns filters ps)) ≡ all (is_valid_pattern filters) ps
unfolding issues_of_patterns
has_values-issues_of_patterns filters [] = refl
has_values-issues_of_patterns filters (p ∷ ps) =
    ap not (has_values-append (pattern_issues filters p) (issues_of_patterns filters ps))
    ∙ (not_or (has_values (pattern_issues filters p)) (has_values (issues_of_patterns filters ps))
        ∙ rw (has_values-pattern_issues filters p, has_values-issues_of_patterns filters ps) refl)

-- What a valid pattern is resolved to.
abbrev pub definition_of : PatternResponse → PatternDefinition
definition_of p = definition_with (or_else (artwork_of p.id) inherited) p

resolved_with-true :
    (o : Option Artwork) (p : PatternResponse)
    → is_some o ≡ true
    → resolved_with o true p ≡ definition_with (or_else o inherited) p ∷ []
resolved_with-true none p h = cc
resolved_with-true (some artwork) p h = refl

resolved_pattern-valid :
    (filters : Option PatternFilters) (p : PatternResponse)
    → is_valid_pattern filters p ≡ true
    → resolved_pattern p ≡ definition_of p ∷ []
unfolding resolved_pattern
resolved_pattern-valid filters p h =
    let known : (is_pattern_category_id p.category_id && all is_pattern_color_id p.color_ids)
        ≡ true =
      ground arith in
    rw known (resolved_with-true (artwork_of p.id) p (and-right _ _ h))

resolved_patterns-valid :
    (filters : Option PatternFilters) (ps : List PatternResponse)
    → all (is_valid_pattern filters) ps ≡ true
    → resolved_patterns ps ≡ map definition_of ps
unfolding resolved_patterns
resolved_patterns-valid filters [] h = refl
resolved_patterns-valid filters (p ∷ ps) h =
    rw (resolved_pattern-valid filters p (and-left _ _ h))
      (ap (λ rest. definition_of p ∷ rest) (resolved_patterns-valid filters ps (and-right _ _ h)))

last_of_four : (a b c d : Bool) → (a && (b && (c && d))) ≡ true → d ≡ true
last_of_four a b c d h = ground arith

module _ (to_locale_lower_case : Text → Text) where
  -- Every pattern is valid, no id and no name comes twice, and a complete catalogue has 12 to 20.
  abbrev pub is_valid_catalogue : Bool → Option PatternFilters → List PatternResponse → Bool
  is_valid_catalogue complete filters ps =
      not (is_miscounted complete ps)
      && (are_distinct (map (λ p. p.id) ps)
          && (are_distinct (map (λ p. to_locale_lower_case p.name) ps)
              && all (is_valid_pattern filters) ps))

  has_values-catalogue_issues :
      (complete : Bool) (filters : Option PatternFilters) (ps : List PatternResponse)
      → not (has_values (catalogue_issues to_locale_lower_case complete filters ps))
        ≡ is_valid_catalogue complete filters ps
  unfolding catalogue_issues
  has_values-catalogue_issues complete filters ps =
      rw (← has_values-issues_of_patterns filters ps) (simp negation)

  values_of_set-grows :
      (set values : List Text) (s : Text)
      → (first : Text) × (rest : List Text) × (values_of_set (s ∷ set) values ≡ first ∷ rest)
  unfolding add_value
  values_of_set-grows set [] s = (s, set, refl)
  values_of_set-grows set (v ∷ values) s = elim (Bool-cases (includes (s ∷ set) v)) [
    | inl old ↦ rw (old, add_value) (values_of_set-grows set values s)
    | inr new ↦ rw (new, add_value) (values_of_set-grows (set ++ (v ∷ [])) values s)
  ]

  result-cases :
      (issues : List Text) (resolved : List PatternDefinition)
      → ((not (has_values issues) ≡ true)
          × (result_of to_locale_lower_case issues resolved ≡ ready resolved))
        ⊎ ((not (has_values issues) ≡ false)
            × ((first : Text) × (rest : List Text) × (result_of to_locale_lower_case issues resolved
                  ≡ error (first ∷ rest))))
  unfolding add_value
  result-cases [] resolved = inl (refl, refl)
  result-cases (issue ∷ issues) resolved =
      let (first, rest, same) = values_of_set-grows [] issues issue in
      inr (refl, (first, rest, ap error same))

  -- A response with a pattern in it is resolved exactly where it is a valid catalogue: then each
  -- pattern becomes its definition, in the order of the response, and else there is an issue.
  pub resolve-cases :
      (complete : Bool) (filters : Option PatternFilters) (p : PatternResponse)
      (ps : List PatternResponse)
      → ((is_valid_catalogue complete filters (p ∷ ps) ≡ true)
          × (resolve_pattern_responses to_locale_lower_case complete filters (p ∷ ps)
              ≡ ready (map definition_of (p ∷ ps))))
        ⊎ ((is_valid_catalogue complete filters (p ∷ ps) ≡ false)
            × ((first : Text) × (rest : List Text) × (resolve_pattern_responses to_locale_lower_case
                    complete filters
                    (p ∷ ps)
                  ≡ error (first ∷ rest))))
  unfolding resolve_pattern_responses
  resolve-cases complete filters p ps =
      let all_ps : List PatternResponse = p ∷ ps in
      let valid = has_values-catalogue_issues complete filters all_ps in
      elim (result-cases (catalogue_issues to_locale_lower_case complete filters all_ps)
        (resolved_patterns all_ps)) [
          | inl (clean, found) ↦
              let holds : is_valid_catalogue complete filters all_ps ≡ true = sym valid ∙ clean in
              let each : all (is_valid_pattern filters) all_ps ≡ true =
                last_of_four (not (is_miscounted complete all_ps))
                  (are_distinct (map (λ q. q.id) all_ps))
                  (are_distinct (map (λ q. to_locale_lower_case q.name) all_ps))
                  (all (is_valid_pattern filters) all_ps) holds in
              inl (holds, found ∙ ap ready (resolved_patterns-valid filters all_ps each))
          | inr (faulty, found) ↦ inr (sym valid ∙ faulty, found)
        ]
