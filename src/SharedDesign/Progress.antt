-- ===== src/SharedDesign/Progress.antt =====
-- The answer to the current load of a link restores the saved design.
use sewn_covers.Prelude.{
  Bool, Bool-cases, inl, inr, true, false, ◌||◌, ◌==◌, none, some, ◌∷◌, ◌≡◌, refl, ==_refl,
}
use sewn_covers.Prelude.Result.{ok}
use sewn_covers.Text.Patterns.{is_public_id}
use sewn_covers.Value.{str, obj, field}
use sewn_covers.Patterns.{PatternCatalogueResult, empty, error, loading, ready}
use sewn_covers.Configuration.{ConfigurationState}
use sewn_covers.Design.{CreateDesignRequest, map_configuration_to_create_design, request_fields}
use sewn_covers.SharedDesign.RoundTrip.{shared, configuration_from_response-map_configuration}
use sewn_covers.SharedDesign.Controller.{
  Load, Restoration, Controller, restored, found, is_solid, is_available, reconcile_pattern,
  reconcile, restore, on_answer,
}

-- A restoration of the configuration that is due now.
abbrev pub restoration : ConfigurationState → Controller → Restoration
restoration configuration c = record {
  configuration = configuration;
  revision = c.revision;
  catalogue = c.catalogue;
  active = c.active;
}

reconcile_pattern-available :
    (p : PatternCatalogueResult) (d : ConfigurationState) (c : Controller)
    → is_available p d.pattern ≡ true
    → reconcile_pattern p d c ≡ restore d c
unfolding is_available
reconcile_pattern-available (ready patterns) d c h = rw h refl
reconcile_pattern-available loading d c h = cc
reconcile_pattern-available empty d c h = cc
reconcile_pattern-available (error issues) d c h = cc

or-right : (a b : Bool) → a ≡ false → (a || b) ≡ true → b ≡ true
or-right true b h k = cc
or-right false b h k = k

reconcile-restore :
    (d : ConfigurationState) (c : Controller)
    → c.revision ≡ c.loaded_revision
    → (is_solid d.pattern || is_available c.catalogue d.pattern) ≡ true
    → reconcile (record c { pending = some d }) ≡ restore d (record c { pending = some d })
unfolding reconcile
reconcile-restore d c same there =
    let unedited : (c.revision == c.loaded_revision) ≡ true = rw same (==_refl c.loaded_revision) in
    elim (Bool-cases (is_solid d.pattern)) [
      | inl plain ↦ rw (unedited, plain) refl
      | inr drawn ↦
          rw (unedited, drawn)
            (reconcile_pattern-available c.catalogue d (record c { pending = some d })
              (or-right _ _ drawn there))
    ]

-- If a configuration with no older pattern id is accepted for saving, the load of its link is the
-- last one, the configuration was not edited since it started, and the pattern is a solid colour or
-- one of the catalogue, then the answer that holds the saved record restores what was saved.
pub on_answer-saved :
    (d : ConfigurationState) (r : CreateDesignRequest) (load : Load) (c : Controller)
    → map_configuration_to_create_design d none ≡ ok r
    → is_public_id load.public_id ≡ true
    → load.version ≡ c.version
    → c.revision ≡ c.loaded_revision
    → (is_solid d.pattern || is_available c.catalogue d.pattern) ≡ true
    → let e =
        on_answer load (found (obj (field "publicId" (str load.public_id) (request_fields r)))) c in
      (e.phase ≡ restored)
      × (e.pending ≡ none)
      × (e.restorations ≡ restoration (shared d) c ∷ c.restorations)
unfolding on_answer restore
on_answer-saved d r load c mapped public last same there =
    let now : (load.version == c.version) ≡ true = rw last (==_refl c.version) in
    let read = configuration_from_response-map_configuration d r load.public_id mapped public in
    let due = reconcile-restore (shared d) c same there in rw (now, read, due) (refl, refl, refl)
