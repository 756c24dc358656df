-- ===== src/BrowserDraft/Operations.antt =====
-- The operations. `now` is `Date.now()`.
use text.Mathlib.Text.{◌==◌ as key_eq}
use sewn_covers.Prelude.{
  Bool, true, false, not, ◌||◌, if◌then◌else◌, String, Option, none, some, ◌∷◌, or_else, is_some,
  take,
}
use sewn_covers.Number.{Num, fin, nan, inf, add, num_lt, decimal}
use sewn_covers.Text.{Text, codes, text_eq}
use sewn_covers.Value.{Value, null, num, str, obj, Fields, end, field, lookup, as_record, ◌>>=◌}
use sewn_covers.BrowserDraft.Types.{
  DraftResetKind, cleared, stripped, ConfiguratorDraft, DraftUpdate, PendingAccountActionKind, cart,
  save, PendingAccountAction, empty_draft, working, blocked, BrowserStorage, Notification,
  draft_changed, draft_reset, Store,
}
use sewn_covers.BrowserDraft.Encoding.{draft_value, parse_draft, pending_value, kind_id, as_text}

-- `readStored`: null where the storage throws.
unfoldable pub read_stored : BrowserStorage → Value
read_stored s = elim s.access [ blocked ↦ null | _ ↦ s.item ]

-- `writeStored` of a value, and of null, which removes the item. A failure is swallowed.
unfoldable pub write_stored : Value → BrowserStorage → BrowserStorage
write_stored v s = elim s.access [ working ↦ record s { item = v } | _ ↦ s ]

unfoldable pub remove_stored : BrowserStorage → BrowserStorage
remove_stored s = elim s.access [ blocked ↦ s | _ ↦ record s { item = null } ]

unfoldable pub notify : Notification → Store → Store
notify n s = record s { told = n ∷ s.told }

-- `readDraft`: the draft, and the store with the draft in memory.
unfoldable pub read_draft : Store → Option ConfiguratorDraft × Store
unfolding read_stored
read_draft s = elim s.memory [
  | some draft ↦ (draft, s)
  | none ↦
      let draft = parse_draft (read_stored s.local) in (draft, record s { memory = some draft })
]

-- `{ ...draft, ...update }`
abbrev pub merge : ConfiguratorDraft → DraftUpdate → ConfiguratorDraft
merge d u = record {
  configuration = or_else u.configuration d.configuration;
  step = or_else u.step d.step;
  highest_step = or_else u.highest_step d.highest_step;
  origin = or_else u.origin d.origin;
  project = or_else u.project d.project;
  cart = or_else u.cart d.cart;
  public_design = or_else u.public_design d.public_design;
}

-- `readDraft() ?? emptyDraft`, with the update.
unfoldable pub updated : DraftUpdate → Store → ConfiguratorDraft
unfolding read_draft
updated u s = merge (or_else (read_draft s).0 empty_draft) u

unfoldable pub write_draft : DraftUpdate → Store → Store
unfolding updated write_stored notify
write_draft u s =
    let next = updated u s in
    notify draft_changed
      (record s { memory = some (some next); local = write_stored (draft_value next) s.local })

unfoldable pub clear_draft : Store → Store
unfolding remove_stored notify
clear_draft s =
    notify draft_changed (record s { memory = some none; local = remove_stored s.local })

unfoldable pub reload_draft_from_storage : Store → Store
unfolding notify
reload_draft_from_storage s =
    notify draft_changed (record s { memory = none; pending = none; auth_return_hint = none })

unfoldable pub draft_has_design : Option ConfiguratorDraft → Bool
unfolding lookup as_record
draft_has_design none = false
draft_has_design (some d) = elim (as_record d.configuration) [
  | none ↦ false
  | some fs ↦ is_some (as_text (lookup "shape" fs))
]

unfoldable pub set_pending_account_action :
    PendingAccountActionKind → Text → Text → Num → Store → Store
unfolding pending_value write_stored
set_pending_account_action kind name fingerprint now s =
    let action =
      let a : PendingAccountAction = record {
        kind = kind;
        name = name;
        fingerprint = fingerprint;
        created_at = now;
      } in
      a in
    record s { pending = some action; session = write_stored (pending_value action) s.session }

unfoldable pub clear_pending_account_action : Store → Store
unfolding remove_stored
clear_pending_account_action s = record s { pending = none; session = remove_stored s.session }

abbrev pub in_memory : Option PendingAccountAction → Value
in_memory none = null
in_memory (some a) = pending_value a

-- `isRecord(stored) ? stored : memoryPendingAction`
unfoldable pub candidate : Store → Value
unfolding read_stored as_record pending_value
candidate s =
    if is_some (as_record (read_stored s.session))
    then read_stored s.session
    else in_memory s.pending

abbrev pub read_kind : Value → Option PendingAccountActionKind
read_kind (str s) =
    if text_eq s (kind_id save)
    then some save
    else if text_eq s (kind_id cart)
    then some cart
    else none
read_kind _ = none

abbrev pub negate : Num → Num
negate (fin s m e) = fin (not s) m e
negate (inf s) = inf (not s)
negate nan = nan

unfoldable pub max_age_ms : Num
max_age_ms = decimal 1800000 0

-- `Date.now() - createdAt > PENDING_ACTION_MAX_AGE_MS`
unfoldable pub is_expired : Num → Num → Bool
is_expired now created_at = num_lt max_age_ms (add now (negate created_at))

abbrev pub fresh : Num → Value → Option Num
fresh now (num created_at) = if is_expired now created_at then none else some created_at
fresh now _ = none

abbrev pub same_text : Text → Value → Option Text
same_text t (str s) = if text_eq s t then some s else none
same_text t _ = none

-- What `takePendingAccountAction` makes of the candidate.
unfoldable pub accept_pending : Text → Num → Value → Option PendingAccountAction
unfolding lookup as_record text_eq is_expired
accept_pending fingerprint now value = do
  fs ← as_record value
  kind ← read_kind (lookup "kind" fs)
  name ← as_text (lookup "name" fs)
  same ← same_text fingerprint (lookup "fingerprint" fs)
  created_at ← fresh now (lookup "createdAt" fs)
  some (record { kind = kind; name = take 120 name; fingerprint = same; created_at = created_at })

unfoldable pub take_pending_account_action :
    Text → Num → Store → Option PendingAccountAction × Store
unfolding candidate clear_pending_account_action accept_pending
take_pending_account_action fingerprint now s =
    (accept_pending fingerprint now (candidate s), clear_pending_account_action s)

unfoldable pub set_auth_return_hint : Option Text → Store → Store
set_auth_return_hint target s = record s { auth_return_hint = target }

abbrev pub hint_is : Option Text → Text → Bool
hint_is none t = false
hint_is (some s) t = text_eq s t

unfoldable pub take_auth_return_hint : Text → Store → Bool × Store
unfolding text_eq
take_auth_return_hint target s =
    if hint_is s.auth_return_hint target
    then (true, record s { auth_return_hint = none })
    else (false, s)

-- `{ ...configuration, [key]: value }`
unfoldable pub set_field : String → Value → Fields → Fields
set_field key v end = field key v end
set_field key v (field k w fs) =
    if key_eq k key then field k v fs else field k w (set_field key v fs)

-- Is the pattern of this configuration a custom one?
unfoldable pub has_custom_pattern : Fields → Bool
unfolding text_eq as_record
has_custom_pattern fs = elim (as_record (lookup "pattern" fs)) [
  | none ↦ false
  | some pattern ↦ elim (as_text (lookup "kind" pattern)) [
    | none ↦ false
    | some kind ↦ text_eq kind (codes "custom")
  ]
]

-- The configuration without its pattern, and no origin.
abbrev pub stripping : Fields → DraftUpdate
stripping fs = record {
  configuration = some (obj (set_field "pattern" null fs));
  step = none;
  highest_step = none;
  origin = some none;
  project = none;
  cart = none;
  public_design = none;
}

-- The update that strips a custom pattern, where the draft holds one.
unfoldable pub strip_update : ConfiguratorDraft → Option DraftUpdate
unfolding as_record
strip_update d = elim (as_record d.configuration) [
  | none ↦ none
  | some fs ↦ if has_custom_pattern fs then some (stripping fs) else none
]

abbrev pub strip : Option DraftUpdate → Store → Option DraftResetKind × Store
strip none s = (none, s)
strip (some u) s = (some stripped, notify (draft_reset stripped) (write_draft u s))

-- The two tests on the draft at sign-out.
abbrev pub reset_draft : Option ConfiguratorDraft → Store → Option DraftResetKind × Store
reset_draft none s = (none, s)
reset_draft (some d) s =
    if is_some d.project || is_some d.cart
    then (some cleared, notify (draft_reset cleared) (clear_draft s))
    else strip (strip_update d) s

unfoldable pub clear_account_linked_browser_data : Store → Option DraftResetKind × Store
clear_account_linked_browser_data s =
    let signed_out = record (clear_pending_account_action s) { auth_return_hint = none } in
    let (draft, ready) = read_draft signed_out in reset_draft draft ready
