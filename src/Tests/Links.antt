-- ===== src/Tests/Links.antt =====
-- The links of a draft: frontend/services/draft-links.ts.
use sewn_covers.Prelude.{false, Option, none, some, if◌then◌else◌, ◌≡◌, refl}
use sewn_covers.Text.{Text, codes, text_eq}
use sewn_covers.Value.{Value, str, obj, field}
use sewn_covers.Configuration.{ConfigurationState}
use sewn_covers.BrowserDraft.{Store, empty_draft, read_draft}
use sewn_covers.Design.{request_fields}
use sewn_covers.SharedDesign.{configuration_from_response}
use sewn_covers.Links.{
  hash_value, link_ref_from_search, draft_needs_protection, record_link_restore,
  record_public_design, design_ref, design_fingerprint,
}
use sewn_covers.Links.Protection.{
  record_link_restore-unprotected, record_public_design-unprotected,
  configuration_from_response-fingerprint,
}
use sewn_covers.Tests.BrowserDraft.{empty_store}
use sewn_covers.Tests.Configuration.{thick_square}
use sewn_covers.Tests.Design.{request, public_id, mapped, id_fits}

hash_runs :
    (hash_value (codes "a") ≡ codes "262p94epp1d") × (hash_value (codes "") ≡ codes "wvjl67o803")
unfolding hash_value
hash_runs = (refl, refl)

-- A query with a project and no version.
abbrev get_project : Text → Text → Option Text
get_project query name = if text_eq name (codes "project") then some (codes "p1") else none

link_run : link_ref_from_search get_project (codes "?project=p1") ≡ some (codes "project:p1:")
unfolding link_ref_from_search text_eq
link_run = refl

abbrev stringify : Value → Text
stringify v = codes "[]"

abbrev shared_ref : Text
shared_ref = codes "share:abc"

record_link_restore-unprotected_example :
    draft_needs_protection
      (read_draft (record_link_restore stringify shared_ref thick_square none empty_store)).0
      (some (design_fingerprint stringify thick_square))
      shared_ref
    ≡ false
record_link_restore-unprotected_example =
    record_link_restore-unprotected stringify shared_ref thick_square none empty_store shared_ref

configuration_from_response-fingerprint_example :
    (d : ConfigurationState) × (configuration_from_response
        (obj (field "publicId" (str public_id) (request_fields request)))
        public_id
      ≡ some d)
    × (design_fingerprint stringify d ≡ design_fingerprint stringify thick_square)
configuration_from_response-fingerprint_example =
    configuration_from_response-fingerprint stringify thick_square request public_id mapped id_fits

-- A page that has a draft in memory.
abbrev drafting : Store
drafting = record empty_store { memory = some (some empty_draft) }

drafting_run : (read_draft drafting).0 ≡ some empty_draft
unfolding read_draft
drafting_run = refl

record_public_design-unprotected_example :
    draft_needs_protection
      (read_draft (record_public_design stringify public_id thick_square drafting)).0
      (some (design_fingerprint stringify thick_square))
      (design_ref public_id)
    ≡ false
record_public_design-unprotected_example =
    record_public_design-unprotected stringify public_id thick_square empty_draft drafting
      drafting_run
