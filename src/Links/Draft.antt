-- ===== src/Links/Draft.antt =====
-- What a draft remembers of the link that it came from, and when a link would overwrite it.
use sewn_covers.Prelude.{Bool, false, not, ◌&&◌, if◌then◌else◌, Option, none, some, ◌++◌, drop}
use sewn_covers.Number.{zero_num}
use sewn_covers.Text.{Text, codes, text_eq, starts_with}
use sewn_covers.Value.{Value}
use sewn_covers.Configuration.{ConfigurationState}
use sewn_covers.Configuration.Draft.{storable_configuration}
use sewn_covers.BrowserDraft.{
  shape, DraftProjectLink, DraftPublicDesign, DraftOrigin, ConfiguratorDraft, DraftUpdate, Store,
  read_draft, write_draft,
}
use sewn_covers.Links.Digest.{hash_value, design_fingerprint}

abbrev public_design_of : Text → Text → Option DraftPublicDesign
public_design_of ref fingerprint =
    if starts_with (codes "design:") ref
    then some (record { public_id = drop 7 ref; fingerprint = fingerprint })
    else none

-- The project and the version of a link to a project.
abbrev project_link_of : Option (Text × Text) → Text → Option DraftProjectLink
project_link_of none fingerprint = none
project_link_of (some (project, version)) fingerprint =
    some (record { project_id = project; version_id = version; fingerprint = fingerprint })

abbrev pub has_fingerprint : Option Text → Text → Bool
has_fingerprint none fingerprint = false
has_fingerprint (some f) fingerprint = text_eq f fingerprint

abbrev pub design_ref : Text → Text
design_ref id = codes "design:" ++ id

abbrev is_linked_design : Option DraftPublicDesign → Text → Text → Bool
is_linked_design none fingerprint ref = false
is_linked_design (some d) fingerprint ref =
    text_eq d.fingerprint fingerprint && text_eq ref (design_ref d.public_id)

abbrev project_fingerprint : Option DraftProjectLink → Option Text
project_fingerprint none = none
project_fingerprint (some p) = some p.fingerprint

abbrev origin_fingerprint : Option DraftOrigin → Option Text
origin_fingerprint none = none
origin_fingerprint (some o) = some o.fingerprint

unfoldable pub draft_needs_protection : Option ConfiguratorDraft → Option Text → Text → Bool
unfolding text_eq
draft_needs_protection none fingerprint ref = false
draft_needs_protection (some d) none ref = false
draft_needs_protection (some d) (some f) ref =
    not (has_fingerprint (project_fingerprint d.project) f)
    && (not (has_fingerprint (origin_fingerprint d.origin) f)
        && not (is_linked_design d.public_design f ref))

abbrev project_ref : Option Text → Option Text → Option Text
project_ref none none = none
project_ref (some p) none = some (codes "project:" ++ (p ++ codes ":"))
project_ref none (some v) = some (codes "project::" ++ v)
project_ref (some p) (some v) = some (codes "project:" ++ (p ++ (codes ":" ++ v)))

abbrev share_ref : Option Text → Option Text → Option Text → Option Text
share_ref (some share) project version = some (codes "share:" ++ share)
share_ref none project version = project_ref project version

abbrev ref_of : Option Text → Option Text → Option Text → Option Text → Option Text
ref_of (some design) share project version = some (design_ref design)
ref_of none share project version = share_ref share project version

-- `URLSearchParams.get` is the browser's.
module _ (get : Text → Text → Option Text) where
  unfoldable pub link_ref_from_search : Text → Option Text
  link_ref_from_search search =
      ref_of (get search (codes "design")) (get search (codes "share"))
        (get search (codes "project")) (get search (codes "version"))

abbrev pub public_design_update : Text → Text → DraftUpdate
public_design_update id fingerprint = record {
  configuration = none;
  step = none;
  highest_step = none;
  origin = none;
  project = none;
  cart = none;
  public_design = some (some (record { public_id = id; fingerprint = fingerprint }));
}

module _ (stringify : Value → Text) where
  abbrev pub link_update : Text → ConfigurationState → Option (Text × Text) → DraftUpdate
  link_update ref c project =
      let fingerprint = design_fingerprint stringify c in
      record {
        configuration = some (storable_configuration c);
        step = some shape;
        highest_step = some zero_num;
        origin = some (some (record { ref = hash_value ref; fingerprint = fingerprint }));
        project = some (project_link_of project fingerprint);
        cart = some none;
        public_design = some (public_design_of ref fingerprint);
      }

  -- `recordLinkRestore`
  unfoldable pub record_link_restore :
      Text → ConfigurationState → Option (Text × Text) → Store → Store
  record_link_restore ref c project s = write_draft (link_update ref c project) s

  abbrev pub record_if : Option ConfiguratorDraft → Text → ConfigurationState → Store → Store
  record_if none id c s = s
  record_if (some d) id c s =
      write_draft (public_design_update id (design_fingerprint stringify c)) s

  -- `recordPublicDesign`
  unfoldable pub record_public_design : Text → ConfigurationState → Store → Store
  record_public_design id c s = let (draft, ready) = read_draft s in record_if draft id c ready
