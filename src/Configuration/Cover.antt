-- ===== src/Configuration/Cover.antt =====
-- The cover choices of frontend/data/cover-options.ts: the ids that the option tables list, in
-- their order, and the defaults. The names and descriptions are page text.
use sewn_covers.Prelude.{Bool, ◌&&◌, List, [], ◌∷◌, any}
use sewn_covers.Configuration.Types.{
  MaterialId, cotton_canvas, linen_blend, polyester_weave, FitPreference, close, relaxed, standard,
  ClosureType, envelope, slip_on, zipper, SeamStyle, piped, plain, ConfigurationState, material_id,
  fit_id, closure_id, seam_id,
}
use sewn_covers.Text.{text_eq}

abbrev pub material_options : List MaterialId
material_options = cotton_canvas ∷ linen_blend ∷ polyester_weave ∷ []

abbrev pub fit_options : List FitPreference
fit_options = close ∷ standard ∷ relaxed ∷ []

abbrev pub closure_options : List ClosureType
closure_options = zipper ∷ envelope ∷ slip_on ∷ []

abbrev pub seam_options : List SeamStyle
seam_options = plain ∷ piped ∷ []

abbrev pub default_material_id : MaterialId
default_material_id = cotton_canvas

abbrev pub default_fit_preference : FitPreference
default_fit_preference = standard

abbrev pub default_closure_type : ClosureType
default_closure_type = zipper

abbrev pub default_seam_style : SeamStyle
default_seam_style = plain

unfoldable pub has_supported_cover_options : ConfigurationState → Bool
unfolding text_eq
has_supported_cover_options c =
    any (λ id. text_eq (material_id id) (material_id c.material)) material_options
    && any (λ id. text_eq (fit_id id) (fit_id c.fit)) fit_options
    && any (λ id. text_eq (closure_id id) (closure_id c.closure)) closure_options
    && any (λ id. text_eq (seam_id id) (seam_id c.seam)) seam_options
