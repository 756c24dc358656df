-- ===== src/Links/Protection.antt =====
-- A link does not ask to overwrite the design that it opened, and the design that it restores is
-- recognised.
use sewn_covers.Prelude.{
  Bool, true, false, not, ◌&&◌, if◌then◌else◌, Option, none, some, ◌≡◌, refl, ap, and_intro,
}
use sewn_covers.Prelude.Result.{ok}
use sewn_covers.Number.{Num}
use sewn_covers.Text.{Text, text_eq_refl}
use sewn_covers.Text.Patterns.{is_public_id}
use sewn_covers.Value.{Value, str, num, obj, arr, cons, nil, field}
use sewn_covers.Configuration.{
  ConfigurationState, is_tapered, unit_id, material_id, fit_id, closure_id, seam_id,
}
use sewn_covers.BrowserDraft.{ConfiguratorDraft, Store, read_draft, write_draft, updated}
use sewn_covers.Design.{CreateDesignRequest, map_configuration_to_create_design, request_fields}
use sewn_covers.SharedDesign.{configuration_from_response}
use sewn_covers.SharedDesign.RoundTrip.{shared, configuration_from_response-map_configuration}
use sewn_covers.Links.Digest.{
  fingerprint_back_width, fingerprint_value, shape_or_null, number_or_null, pattern_key,
  design_fingerprint, hash_value,
}
use sewn_covers.Links.Draft.{
  design_ref, public_design_update, draft_needs_protection, record_link_restore,
  record_public_design,
}

origin-protection : (a b c : Bool) → b ≡ true → (a && (not b && c)) ≡ false
origin-protection true b c h = rw h refl
origin-protection false b c h = refl

linked-protection : (a b c : Bool) → c ≡ true → (a && (b && not c)) ≡ false
linked-protection false b c h = refl
linked-protection true false c h = refl
linked-protection true true c h = rw h refl

shared-back_width :
    (tapered : Bool) (b : Option Num)
    → fingerprint_back_width tapered (if tapered then b else none)
      ≡ fingerprint_back_width tapered b
shared-back_width true b = refl
shared-back_width false b = refl

-- The values of a fingerprint, with the back width given.
abbrev value_of : ConfigurationState → Value → Value
value_of c b = arr (
    cons (shape_or_null c.shape) (
      cons (number_or_null c.width) (
        cons (number_or_null c.height) (
          cons b (
            cons (number_or_null c.thickness) (
              cons (str (unit_id c.unit)) (
                cons (pattern_key c.pattern) (
                  cons (num c.pattern_scale) (
                    cons (str (material_id c.material)) (
                      cons (str (fit_id c.fit)) (
                        cons (str (closure_id c.closure))
                          (cons (str (seam_id c.seam)) nil))))))))))))

module _ (stringify : Value → Text) where
  -- After a link has replaced the design, no link asks to overwrite it while it is unchanged.
  pub record_link_restore-unprotected :
      (ref : Text) (c : ConfigurationState) (project : Option (Text × Text)) (s : Store)
      (link : Text)
      → draft_needs_protection
          (read_draft (record_link_restore stringify ref c project s)).0
          (some (design_fingerprint stringify c))
          link
        ≡ false
  unfolding draft_needs_protection record_link_restore read_draft write_draft updated
  record_link_restore-unprotected ref c project s link =
      origin-protection _ _ _ (text_eq_refl (design_fingerprint stringify c))

  recorded-unprotected :
      (id f : Text) (s : Store)
      → draft_needs_protection
          (read_draft (write_draft (public_design_update id f) s)).0
          (some f)
          (design_ref id)
        ≡ false
  unfolding draft_needs_protection read_draft write_draft updated
  recorded-unprotected id f s =
      linked-protection _ _ _ (and_intro _ _ (text_eq_refl f) (text_eq_refl (design_ref id)))

  -- If there is a draft, then after a public link was made for a design that link does not ask to
  -- overwrite the design while it is unchanged.
  pub record_public_design-unprotected :
      (id : Text) (c : ConfigurationState) (d : ConfiguratorDraft) (s : Store)
      → (read_draft s).0 ≡ some d
      → draft_needs_protection
          (read_draft (record_public_design stringify id c s)).0
          (some (design_fingerprint stringify c))
          (design_ref id)
        ≡ false
  unfolding record_public_design
  record_public_design-unprotected id c d s there =
      rw there (recorded-unprotected id (design_fingerprint stringify c) (read_draft s).1)

  fingerprint-shared : (c : ConfigurationState) → fingerprint_value (shared c) ≡ fingerprint_value c
  fingerprint-shared c =
      ap (λ b. value_of c b) (shared-back_width (is_tapered c.shape) c.back_width)

  -- If a configuration with no older pattern id is accepted for saving, then the record made of its
  -- request and a public id, opened under that id, restores a configuration with the fingerprint of
  -- the one that was saved.
  pub configuration_from_response-fingerprint :
      (c : ConfigurationState) (r : CreateDesignRequest) (id : Text)
      → map_configuration_to_create_design c none ≡ ok r
      → is_public_id id ≡ true
      → (d : ConfigurationState) × (configuration_from_response
            (obj (field "publicId" (str id) (request_fields r)))
            id
          ≡ some d)
        × (design_fingerprint stringify d ≡ design_fingerprint stringify c)
  unfolding design_fingerprint
  configuration_from_response-fingerprint c r id mapped public = (
    shared c,
    configuration_from_response-map_configuration c r id mapped public,
    ap (λ v. hash_value (stringify v)) (fingerprint-shared c),
  )
