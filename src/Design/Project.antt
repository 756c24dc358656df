-- ===== src/Design/Project.antt =====
-- `mapConfigurationToProjectConfiguration` of frontend/services/design-save.ts: what a configuration
-- is saved to a project as.
use sewn_covers.Prelude.{
  true, if◌then◌else◌, Bool, Option, none, some, ◌≡◌, refl, ap, subst, arith, Bool-cases, inl, inr,
}
use sewn_covers.Prelude.Result.{Result, ok, throw, invalid_reviewed_configuration, ◌>>=◌, >>=-eq-ok}
use sewn_covers.Text.{Text, codes, text_eq, text_eq→eq}
use sewn_covers.Configuration.{ConfigurationState, PatternChoice, built_in, solid, custom}
use sewn_covers.Design.Contract.{CreateDesignRequest}
use sewn_covers.Design.Request.{map_configuration_to_create_design, texts_match}
use sewn_covers.Design.Echo.{IsRequest}
use sewn_covers.Design.Accepted.{mapped-IsRequest}

pub data ProjectPattern : Type 0 where
  project_built_in : (pattern_id : Text) → ProjectPattern
  project_custom : (asset_id derivative_id processing_version : Text) → ProjectPattern
  project_solid : (color : Text) → ProjectPattern

-- `{ ...common, pattern }`: of the request only the fields beside its pattern id and colour are used.
pub record ProjectConfiguration : Type 0 where
  pub common : CreateDesignRequest
  pub pattern : ProjectPattern

-- The pattern that stands in for one that is not public.
abbrev pub stand_in : Option PatternChoice → Option PatternChoice
stand_in (some (custom c)) = some (built_in (codes "terrace-wave"))
stand_in (some (solid color)) = some (built_in (codes "terrace-wave"))
stand_in pattern = pattern

abbrev pub validation_state : ConfigurationState → ConfigurationState
validation_state c = record c { pattern = stand_in c.pattern }

abbrev pub project_pattern : PatternChoice → ProjectPattern
project_pattern (built_in id) = project_built_in id
project_pattern (custom c) = project_custom c.asset_id c.derivative_id c.processing_version
project_pattern (solid color) = project_solid color

abbrev pub is_validated : PatternChoice → Option Text → Bool
is_validated (built_in id) validated = texts_match validated (some id)
is_validated _ validated = true

abbrev pub project_of : Option PatternChoice → CreateDesignRequest → Result ProjectConfiguration
project_of none validated = throw invalid_reviewed_configuration
project_of (some p) validated =
    if is_validated p validated.pattern_id
    then ok (record { common = validated; pattern = project_pattern p })
    else throw invalid_reviewed_configuration

unfoldable pub map_configuration_to_project_configuration :
    ConfigurationState → Option Text → Result ProjectConfiguration
unfolding map_configuration_to_create_design text_eq
map_configuration_to_project_configuration c legacy = do
  validated ← map_configuration_to_create_design (validation_state c) legacy
  project_of c.pattern validated

-- A chosen pattern as it is saved: a public one by its id, which is also that of the validated
-- request, a custom one by its asset, derivative and processing version, a solid one by its colour.
abbrev pub IsSavedAs : PatternChoice → ProjectConfiguration → Type 0
IsSavedAs (built_in id) p = (p.pattern ≡ project_built_in id) × (p.common.pattern_id ≡ some id)
IsSavedAs (custom c) p = p.pattern ≡ project_custom c.asset_id c.derivative_id c.processing_version
IsSavedAs (solid color) p = p.pattern ≡ project_solid color

texts_match→eq : (o : Option Text) (t : Text) → texts_match o (some t) ≡ true → o ≡ some t
texts_match→eq none t h = cc
texts_match→eq (some s) t h = ap some (text_eq→eq s t h)

saved_lem :
    (q : PatternChoice) (v : CreateDesignRequest)
    → is_validated q v.pattern_id ≡ true
    → IsSavedAs q (record { common = v; pattern = project_pattern q })
saved_lem (built_in id) v h = (refl, texts_match→eq v.pattern_id id h)
saved_lem (custom c) v h = refl
saved_lem (solid color) v h = refl

project_of-eq-ok :
    (o : Option PatternChoice) (v : CreateDesignRequest) (p : ProjectConfiguration)
    → project_of o v ≡ ok p
    → (q : PatternChoice) × (o ≡ some q) × IsSavedAs q p × (v ≡ p.common)
project_of-eq-ok none v p h = cc
project_of-eq-ok (some q) v p h = elim (Bool-cases (is_validated q v.pattern_id)) [
  | inl fits ↦
      let same : record { common = v; pattern = project_pattern q } ≡ p = ground arith in
      (q, refl, subst (IsSavedAs q) same (saved_lem q v fits), ap (λ x. x.common) same)
  | inr other ↦ absurd (ground arith)
]

-- A configuration that is accepted for a project has a pattern, which is saved as it is: a public
-- pattern by its id, which the validated request has too, a custom one by its asset, derivative and
-- processing version, and a solid colour by itself; and the rest of what is saved is a request that
-- the reader of designs accepts.
pub map_project-pattern :
    (c : ConfigurationState) (legacy : Option Text) (p : ProjectConfiguration)
    → map_configuration_to_project_configuration c legacy ≡ ok p
    → ((q : PatternChoice) × (c.pattern ≡ some q) × IsSavedAs q p) × IsRequest p.common
unfolding map_configuration_to_project_configuration
map_project-pattern c legacy p h =
    let (v, mapped, h1) =
      >>=-eq-ok (map_configuration_to_create_design (validation_state c) legacy) _ h in
    let (q, chosen, saved, common) = project_of-eq-ok c.pattern v p h1 in
    ((q, chosen, saved), rw (← common) (mapped-IsRequest (validation_state c) legacy v mapped))
