-- ===== src/BrowserDraft/Persistence.antt =====
-- A written draft is read back: from memory always, and after a reload where the storage works.
use sewn_covers.Prelude.{true, Option, none, some, ◌≡◌, refl, ap, ◌∙◌, arith}
use sewn_covers.Number.{Num, num_eq, evaluation}
use sewn_covers.Value.{num, str, obj, Fields}
use sewn_covers.BrowserDraft.Types.{
  StepId, shape, measurements, details, pattern, preview, review, step_id, DraftOrigin,
  DraftProjectLink, DraftCartMarker, DraftPublicDesign, ConfiguratorDraft, DraftUpdate, working,
  Store,
}
use sewn_covers.BrowserDraft.Encoding.{
  json, json_number, origin_value, project_value, cart_value, public_design_value, version_number,
  draft_value, parse_origin, parse_project, parse_cart, parse_public_design, parse_step,
  parse_highest_step, parse_draft, is_integer, clamp_step,
}
use sewn_covers.BrowserDraft.Operations.{
  read_draft, updated, write_draft, reload_draft_from_storage, write_stored, read_stored,
}

-- The draft's configuration is a record that JSON keeps as it is, and its highest step is the index of
-- a step.
pub record IsStorable (d : ConfiguratorDraft) : Type 0 where
  pub fields : Fields
  pub configuration : d.configuration ≡ obj fields
  pub kept : json (obj fields) ≡ obj fields
  pub written : json_number d.highest_step ≡ num d.highest_step
  pub whole : is_integer d.highest_step ≡ true
  pub clamped : clamp_step d.highest_step ≡ d.highest_step

parse-step : (s : StepId) → parse_step (str (step_id s)) ≡ s
unfolding parse_step
parse-step shape = refl
parse-step measurements = refl
parse-step details = refl
parse-step pattern = refl
parse-step preview = refl
parse-step review = refl

parse-origin : (o : Option DraftOrigin) → parse_origin (origin_value o) ≡ o
unfolding parse_origin
parse-origin none = refl
parse-origin (some o) = refl

parse-project : (p : Option DraftProjectLink) → parse_project (project_value p) ≡ p
unfolding parse_project
parse-project none = refl
parse-project (some p) = refl

parse-cart : (c : Option DraftCartMarker) → parse_cart (cart_value c) ≡ c
unfolding parse_cart
parse-cart none = refl
parse-cart (some c) = refl

parse-public_design :
    (d : Option DraftPublicDesign) → parse_public_design (public_design_value d) ≡ d
unfolding parse_public_design
parse-public_design none = refl
parse-public_design (some d) = refl

parse-highest_step :
    (n : Num) → is_integer n ≡ true → clamp_step n ≡ n → parse_highest_step (num n) ≡ n
unfolding parse_highest_step
parse-highest_step n h k = rw h k

pub version_matches : num_eq version_number version_number ≡ true
unfolding version_number evaluation
version_matches = refl

pub parse-draft_value :
    (d : ConfiguratorDraft) → IsStorable d → parse_draft (draft_value d) ≡ some d
unfolding parse_draft draft_value
parse-draft_value d s =
    rw (s.configuration, s.kept, s.written, version_matches)
      λ i. some (record {
        configuration = obj s.fields;
        step = parse-step d.step i;
        highest_step = parse-highest_step d.highest_step s.whole s.clamped i;
        origin = parse-origin d.origin i;
        project = parse-project d.project i;
        cart = parse-cart d.cart i;
        public_design = parse-public_design d.public_design i;
      })

-- Writing a draft makes it the draft that is read, whatever the storage does.
read-write_draft :
    (u : DraftUpdate) (s : Store) → (read_draft (write_draft u s)).0 ≡ some (updated u s)
unfolding read_draft write_draft
read-write_draft u s = refl

local-write_draft :
    (u : DraftUpdate) (s : Store)
    → s.local.access ≡ working
    → read_stored (write_draft u s).local ≡ draft_value (updated u s)
unfolding write_draft write_stored read_stored
local-write_draft u s w = ground arith

-- The merged draft is read after the write. If the local storage works, the configuration of that
-- draft is a record that JSON keeps as it is, and its highest step is an integer from 0 to the index
-- of the last step, it is still read after the memory was dropped and the storage is read again.
pub read-write_draft_reload :
    (u : DraftUpdate) (s : Store)
    → s.local.access ≡ working
    → IsStorable (updated u s)
    → ((read_draft (write_draft u s)).0 ≡ some (updated u s))
      × ((read_draft (reload_draft_from_storage (write_draft u s))).0 ≡ some (updated u s))
unfolding read_draft reload_draft_from_storage
read-write_draft_reload u s w d = (
  read-write_draft u s,
  ap parse_draft (local-write_draft u s w) ∙ parse-draft_value (updated u s) d,
)
