-- ===== src/BrowserDraft/Encoding.antt =====
-- Drafts and pending actions as they are written, and `parseDraft`.
use sewn_covers.Prelude.{
  Bool, false, ◌%◌, ◌==◌, if◌then◌else◌, String, Option, none, some, find, or_else,
}
use sewn_covers.Number.{
  Num, fin, zero_num, is_finite, num_eq, num_le, num_lt, decimal, magnitude, unit_scale,
}
use sewn_covers.Text.{Text, codes, text_eq}
use sewn_covers.Value.{
  Value, undef, null, flag, num, str, arr, obj, Items, nil, cons, Fields, end, field, lookup,
  as_record, ◌>>=◌,
}
use sewn_covers.BrowserDraft.Types.{
  StepId, shape, step_id, step_ids, DraftProjectLink, DraftCartMarker, DraftPublicDesign,
  DraftOrigin, ConfiguratorDraft, PendingAccountActionKind, cart, save, PendingAccountAction,
}

abbrev pub json_number : Num → Value
json_number n = if is_finite n then (if num_eq n zero_num then num zero_num else num n) else null

abbrev pub json_field : String → Value → Fields → Fields
json_field k undef fs = fs
json_field k v fs = field k v fs

abbrev pub json_item : Value → Value
json_item undef = null
json_item v = v

-- `JSON.parse(JSON.stringify(value))`: undefined fields are dropped, undefined items become null,
-- and so do numbers that are not finite; -0 becomes 0.
unfoldable mutual
  pub json : Value → Value
  json undef = undef
  json (str s) = str s
  json (num n) = json_number n
  json (flag b) = flag b
  json null = null
  json (obj fs) = obj (json_fields fs)
  json (arr vs) = arr (json_items vs)

  pub json_fields : Fields → Fields
  json_fields (field k v fs) = json_field k (json v) (json_fields fs)
  json_fields end = end

  pub json_items : Items → Items
  json_items (cons v vs) = cons (json_item (json v)) (json_items vs)
  json_items nil = nil

abbrev pub origin_value : Option DraftOrigin → Value
origin_value none = null
origin_value (some o) = obj (field "ref" (str o.ref) (field "fingerprint" (str o.fingerprint) end))

abbrev pub project_value : Option DraftProjectLink → Value
project_value none = null
project_value (some p) = obj (
    field "projectId" (str p.project_id)
      (field "versionId" (str p.version_id) (field "fingerprint" (str p.fingerprint) end)))

abbrev pub cart_value : Option DraftCartMarker → Value
cart_value none = null
cart_value (some c) =
    obj (field "versionId" (str c.version_id) (field "quoteId" (str c.quote_id) end))

abbrev pub public_design_value : Option DraftPublicDesign → Value
public_design_value none = null
public_design_value (some d) =
    obj (field "publicId" (str d.public_id) (field "fingerprint" (str d.fingerprint) end))

unfoldable pub version_number : Num
version_number = decimal 1 0

-- `{ version: 1, ...next }`, as it reads back.
unfoldable pub draft_value : ConfiguratorDraft → Value
draft_value d = obj (
    field "version" (num version_number) (
      json_field "configuration" (json d.configuration) (
        field "step" (str (step_id d.step)) (
          field "highestStep" (json_number d.highest_step) (
            field "origin" (origin_value d.origin) (
              field "project" (project_value d.project) (
                field "cart" (cart_value d.cart)
                  (field "publicDesign" (public_design_value d.public_design) end))))))))

abbrev pub as_text : Value → Option Text
as_text (str s) = some s
as_text _ = none

-- `parseLink` with its list of keys, for each kind of link.
unfoldable pub parse_origin : Value → Option DraftOrigin
unfolding lookup as_record
parse_origin value = do
  fs ← as_record value
  ref ← as_text (lookup "ref" fs)
  fingerprint ← as_text (lookup "fingerprint" fs)
  some (record { ref = ref; fingerprint = fingerprint })

unfoldable pub parse_project : Value → Option DraftProjectLink
unfolding lookup as_record
parse_project value = do
  fs ← as_record value
  project_id ← as_text (lookup "projectId" fs)
  version_id ← as_text (lookup "versionId" fs)
  fingerprint ← as_text (lookup "fingerprint" fs)
  some (record { project_id = project_id; version_id = version_id; fingerprint = fingerprint })

unfoldable pub parse_cart : Value → Option DraftCartMarker
unfolding lookup as_record
parse_cart value = do
  fs ← as_record value
  version_id ← as_text (lookup "versionId" fs)
  quote_id ← as_text (lookup "quoteId" fs)
  some (record { version_id = version_id; quote_id = quote_id })

unfoldable pub parse_public_design : Value → Option DraftPublicDesign
unfolding lookup as_record
parse_public_design value = do
  fs ← as_record value
  public_id ← as_text (lookup "publicId" fs)
  fingerprint ← as_text (lookup "fingerprint" fs)
  some (record { public_id = public_id; fingerprint = fingerprint })

-- `CONFIGURATOR_STEP_IDS.find(...) ?? "shape"`
unfoldable pub parse_step : Value → StepId
unfolding text_eq
parse_step (str s) = or_else (find (λ id. text_eq (step_id id) s) step_ids) shape
parse_step _ = shape

-- `Number.isInteger`.
unfoldable pub is_integer : Num → Bool
is_integer (fin s m e) = magnitude m e % unit_scale == 0
is_integer _ = false

-- The index of the last step.
unfoldable pub last_step : Num
last_step = decimal 5 0

-- `Math.min(Math.max(step, 0), last)` of an integer.
unfoldable pub clamp_step : Num → Num
unfolding num_le num_lt last_step
clamp_step n = if num_le n zero_num then zero_num else if num_lt last_step n then last_step else n

unfoldable pub parse_highest_step : Value → Num
unfolding is_integer clamp_step
parse_highest_step (num n) = if is_integer n then clamp_step n else zero_num
parse_highest_step _ = zero_num

abbrev pub is_version : Value → Bool
is_version (num n) = num_eq n version_number
is_version _ = false

abbrev pub draft_of : Fields → Fields → ConfiguratorDraft
draft_of fs configuration = record {
  configuration = obj configuration;
  step = parse_step (lookup "step" fs);
  highest_step = parse_highest_step (lookup "highestStep" fs);
  origin = parse_origin (lookup "origin" fs);
  project = parse_project (lookup "project" fs);
  cart = parse_cart (lookup "cart" fs);
  public_design = parse_public_design (lookup "publicDesign" fs);
}

unfoldable pub parse_draft : Value → Option ConfiguratorDraft
unfolding lookup as_record num_eq version_number
parse_draft value = do
  fs ← as_record value
  configuration ←
      (if is_version (lookup "version" fs) then as_record (lookup "configuration" fs) else none)
  some (draft_of fs configuration)

abbrev pub kind_id : PendingAccountActionKind → Text
kind_id cart = codes "cart"
kind_id save = codes "save"

-- A pending action as it is written; the object in memory has the same fields.
unfoldable pub pending_value : PendingAccountAction → Value
pending_value a = obj (
    field "kind" (str (kind_id a.kind)) (
      field "name" (str a.name)
        (field "fingerprint" (str a.fingerprint) (field "createdAt" (num a.created_at) end))))
