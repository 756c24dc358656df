-- ===== src/Patterns/Resolve.antt =====
-- `findDuplicateValues` and `resolvePatternResponses`.
use sewn_covers.Prelude.{
  Bool, true, false, not, ◌&&◌, ◌||◌, ltb, if◌then◌else◌, Option, none, some, is_some, List, [],
  ◌∷◌, ◌++◌, map, length, all, any,
}
use sewn_covers.Text.{Text, codes, text_eq, is_empty, trim}
use sewn_covers.Text.Patterns.{is_pattern_id}
use sewn_covers.ApiClient.{PatternResponse}
use sewn_covers.Patterns.Defs.{
  PatternDefinition, PatternFilters, PatternCatalogueResult, empty, error, ready, includes,
  is_pattern_category_id, is_pattern_color_id, artwork_of, Artwork, all_pattern_categories,
  all_pattern_colors, pattern_catalogue_minimum, pattern_catalogue_maximum,
}

-- `set.add(value)`: a set keeps the order in which its values came.
unfoldable pub add_value : Text → List Text → List Text
unfolding includes
add_value value set = if includes set value then set else set ++ (value ∷ [])

-- The loop of `findDuplicateValues` with its two sets.
unfoldable pub duplicates_from : List Text → List Text → List Text → List Text
unfolding includes add_value
duplicates_from seen duplicates [] = duplicates
duplicates_from seen duplicates (value ∷ values) =
    duplicates_from (add_value value seen)
      (if includes seen value then add_value value duplicates else duplicates) values

unfoldable pub find_duplicate_values : List Text → List Text
unfolding duplicates_from
find_duplicate_values values = duplicates_from [] [] values

-- `Array.from(new Set(values))`
abbrev pub values_of_set : List Text → List Text → List Text
values_of_set set [] = set
values_of_set set (value ∷ values) = values_of_set (add_value value set) values

abbrev pub has_values : List Text → Bool
has_values [] = false
has_values (_ ∷ _) = true

-- `if (test) issues.push(issue)`
abbrev pub issue_if : Bool → Text → List Text
issue_if true issue = issue ∷ []
issue_if false issue = []

abbrev pub about : Text → Text → Text
about id problem = codes "API pattern \"" ++ (id ++ (codes "\" " ++ problem))

unfoldable pub is_blank : Text → Bool
unfolding trim is_empty
is_blank s = is_empty (trim s)

unfoldable pub is_incomplete : PatternResponse → Bool
unfolding is_blank
is_incomplete p =
    is_blank p.id || is_blank p.name || is_blank p.description || is_blank p.preview_class_name

-- The filters ask for another category, or for a colour that the pattern lacks.
unfoldable pub misses_category : Option PatternFilters → PatternResponse → Bool
unfolding text_eq
misses_category none p = false
misses_category (some f) p =
    not (text_eq f.category_id all_pattern_categories) && not (text_eq p.category_id f.category_id)

unfoldable pub misses_color : Option PatternFilters → PatternResponse → Bool
unfolding text_eq includes
misses_color none p = false
misses_color (some f) p =
    not (text_eq f.color_id all_pattern_colors) && not (includes p.color_ids f.color_id)

-- The issues of one pattern, in the order of the tests.
unfoldable pub pattern_issues : Option PatternFilters → PatternResponse → List Text
pattern_issues filters p =
    issue_if (is_incomplete p) (codes "Every API pattern requires complete display metadata.")
    ++ (issue_if (not (is_pattern_id p.id)) (about p.id (codes "has an invalid ID."))
        ++ (issue_if (not (is_pattern_category_id p.category_id))
              (about p.id (codes "has an unknown category."))
            ++ (issue_if (not (has_values p.color_ids))
                  (about p.id (codes "requires at least one color."))
                ++ (issue_if (any (λ c. not (is_pattern_color_id c)) p.color_ids)
                      (about p.id (codes "has an unknown color."))
                    ++ (issue_if (has_values (find_duplicate_values p.color_ids))
                          (about p.id (codes "has duplicate color tags."))
                        ++ (issue_if (misses_category filters p)
                              (about p.id (codes "does not match the requested category."))
                            ++ (issue_if (misses_color filters p)
                                  (about p.id (codes "does not match the requested color."))
                                ++ issue_if (not (is_some (artwork_of p.id)))
                                    (about p.id (codes "has no frontend artwork mapping.")))))))))

abbrev pub definition_with : Artwork → PatternResponse → PatternDefinition
definition_with artwork p = record {
  category_id = p.category_id;
  color_ids = p.color_ids;
  description = p.description;
  id = p.id;
  name = p.name;
  preview_class_name = artwork;
}

abbrev pub resolved_with : Option Artwork → Bool → PatternResponse → List PatternDefinition
resolved_with (some artwork) true p = definition_with artwork p ∷ []
resolved_with _ _ p = []

-- What one pattern is resolved to, if it is.
unfoldable pub resolved_pattern : PatternResponse → List PatternDefinition
resolved_pattern p =
    resolved_with (artwork_of p.id)
      (is_pattern_category_id p.category_id && all is_pattern_color_id p.color_ids) p

-- The loop over the patterns.
unfoldable pub issues_of_patterns : Option PatternFilters → List PatternResponse → List Text
unfolding pattern_issues
issues_of_patterns filters [] = []
issues_of_patterns filters (p ∷ ps) = pattern_issues filters p ++ issues_of_patterns filters ps

unfoldable pub resolved_patterns : List PatternResponse → List PatternDefinition
unfolding resolved_pattern
resolved_patterns [] = []
resolved_patterns (p ∷ ps) = resolved_pattern p ++ resolved_patterns ps

unfoldable pub is_miscounted : Bool → List PatternResponse → Bool
is_miscounted complete ps =
    complete
    && (ltb (length ps) pattern_catalogue_minimum || ltb pattern_catalogue_maximum (length ps))

-- `toLocaleLowerCase` depends on the locale of the browser.
module _ (to_locale_lower_case : Text → Text) where
  unfoldable pub catalogue_issues : Bool → Option PatternFilters → List PatternResponse → List Text
  unfolding issues_of_patterns is_miscounted find_duplicate_values
  catalogue_issues complete filters ps =
      issue_if (is_miscounted complete ps) (codes "The API catalogue must contain 12-20 patterns.")
      ++ (issue_if (has_values (find_duplicate_values (map (λ p. p.id) ps)))
            (codes "API pattern IDs must be unique.")
          ++ (issue_if
                (has_values (find_duplicate_values (map (λ p. to_locale_lower_case p.name) ps)))
                (codes "API pattern names must be unique.")
              ++ issues_of_patterns filters ps))

  abbrev pub result_of : List Text → List PatternDefinition → PatternCatalogueResult
  result_of [] resolved = ready resolved
  result_of (issue ∷ issues) resolved = error (values_of_set [] (issue ∷ issues))

  unfoldable pub resolve_pattern_responses :
      Bool → Option PatternFilters → List PatternResponse → PatternCatalogueResult
  unfolding catalogue_issues resolved_patterns
  resolve_pattern_responses complete filters [] = empty
  resolve_pattern_responses complete filters (p ∷ ps) =
      result_of (catalogue_issues complete filters (p ∷ ps)) (resolved_patterns (p ∷ ps))
