-- ===== src/BrowserDraft/Types.antt =====
-- The draft, the pending account action, and the browser's storages.
use sewn_covers.Prelude.{Option, none, List, [], ◌∷◌}
use sewn_covers.Number.{Num, zero_num}
use sewn_covers.Text.{Text, codes}
use sewn_covers.Value.{Value, null}

pub data StepId : Type 0 where
  shape measurements details pattern preview review : StepId

abbrev pub step_id : StepId → Text
step_id shape = codes "shape"
step_id measurements = codes "measurements"
step_id details = codes "details"
step_id pattern = codes "pattern"
step_id preview = codes "preview"
step_id review = codes "review"

abbrev pub step_ids : List StepId
step_ids = shape ∷ measurements ∷ details ∷ pattern ∷ preview ∷ review ∷ []

pub data DraftResetKind : Type 0 where
  cleared stripped : DraftResetKind

pub record DraftProjectLink : Type 0 where
  pub project_id : Text
  pub version_id : Text
  pub fingerprint : Text

pub record DraftCartMarker : Type 0 where
  pub version_id : Text
  pub quote_id : Text

pub record DraftPublicDesign : Type 0 where
  pub public_id : Text
  pub fingerprint : Text

pub record DraftOrigin : Type 0 where
  pub ref : Text
  pub fingerprint : Text

pub record ConfiguratorDraft : Type 0 where
  pub configuration : Value
  pub step : StepId
  pub highest_step : Num
  pub origin : Option DraftOrigin
  pub project : Option DraftProjectLink
  pub cart : Option DraftCartMarker
  pub public_design : Option DraftPublicDesign

-- `Partial<ConfiguratorDraft>`: a field that is not given is `none`.
pub record DraftUpdate : Type 0 where
  pub configuration : Option Value
  pub step : Option StepId
  pub highest_step : Option Num
  pub origin : Option (Option DraftOrigin)
  pub project : Option (Option DraftProjectLink)
  pub cart : Option (Option DraftCartMarker)
  pub public_design : Option (Option DraftPublicDesign)

pub data PendingAccountActionKind : Type 0 where
  cart save : PendingAccountActionKind

pub record PendingAccountAction : Type 0 where
  pub kind : PendingAccountActionKind
  pub name : Text
  pub fingerprint : Text
  pub created_at : Num

abbrev pub empty_draft : ConfiguratorDraft
empty_draft = record {
  configuration = null;
  step = shape;
  highest_step = zero_num;
  origin = none;
  project = none;
  cart = none;
  public_design = none;
}

-- A storage of the browser works, refuses to write (it is full), or throws at every access. The
-- module keeps one item in each storage, here as what `JSON.parse` makes of it; null is no item.
pub data Access : Type 0 where
  working full blocked : Access

pub record BrowserStorage : Type 0 where
  pub access : Access
  pub item : Value

-- What the subscribers are told, the latest first.
pub data Notification : Type 0 where
  draft_changed : Notification
  draft_reset : DraftResetKind → Notification

-- The module's variables and the two storages. `memory` is `none` before the first read.
pub record Store : Type 0 where
  pub memory : Option (Option ConfiguratorDraft)
  pub pending : Option PendingAccountAction
  pub auth_return_hint : Option Text
  pub local : BrowserStorage
  pub session : BrowserStorage
  pub told : List Notification
