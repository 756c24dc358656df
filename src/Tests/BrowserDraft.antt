-- ===== src/Tests/BrowserDraft.antt =====
-- The draft and the pending action: frontend/services/configurator-draft.ts.
use sewn_covers.Prelude.{◌≤◌, false, none, some, [], inr, sym, ◌∙◌, ◌≡◌, ◌≢◌, refl, length}
use sewn_covers.Number.{decimal, evaluation}
use sewn_covers.Text.{codes}
use sewn_covers.Value.{null, str, num, obj, Fields, end, field}
use sewn_covers.BrowserDraft.{
  measurements, DraftUpdate, save, PendingAccountAction, working, full, Store, json, is_integer,
  clamp_step, read_draft, updated, write_draft, reload_draft_from_storage, is_expired, max_age_ms,
  take_pending_account_action, set_pending_account_action, clear_account_linked_browser_data,
}
use sewn_covers.BrowserDraft.Persistence.{IsStorable, read-write_draft_reload}
use sewn_covers.BrowserDraft.Pending.{take_once, take_accepts, take-set}
use sewn_covers.BrowserDraft.SignOut.{IsSignedOut, IsGuest}
use sewn_covers.BrowserDraft.SignOut.Reload.{IsSynced, sign_out-IsGuest}
use sewn_covers.BrowserDraft.{
  read_stored, write_stored, draft_value, parse_draft, parse_step, parse_highest_step, parse_origin,
  parse_project, parse_cart, parse_public_design, version_number,
}

abbrev pub empty_store : Store
empty_store = record {
  memory = none;
  pending = none;
  auth_return_hint = none;
  local = record { access = working; item = null };
  session = record { access = working; item = null };
  told = [];
}

abbrev box_fields : Fields
box_fields = field "shape" (str (codes "box")) (field "width" (num (decimal 45 0)) end)

abbrev update : DraftUpdate
update = record {
  configuration = some (obj box_fields);
  step = some measurements;
  highest_step = some (decimal 3 0);
  origin = none;
  project = some (
      some (record {
        project_id = codes "project";
        version_id = codes "version";
        fingerprint = codes "fp";
      }));
  cart = none;
  public_design = none;
}

updated-IsStorable : IsStorable (updated update empty_store)
unfolding updated read_draft json is_integer clamp_step evaluation
updated-IsStorable = record {
  fields = box_fields;
  configuration = refl;
  kept = refl;
  written = refl;
  whole = refl;
  clamped = refl;
}

read-write_draft_reload_example :
    ((read_draft (write_draft update empty_store)).0 ≡ some (updated update empty_store))
    × ((read_draft (reload_draft_from_storage (write_draft update empty_store))).0
        ≡ some (updated update empty_store))
read-write_draft_reload_example = read-write_draft_reload update empty_store refl updated-IsStorable

abbrev action : PendingAccountAction
action = record {
  kind = save;
  name = codes "Bench cushion";
  fingerprint = codes "fp";
  created_at = decimal 1000 0;
}

abbrev with_action : Store
with_action =
    set_pending_account_action action.kind action.name action.fingerprint action.created_at
      empty_store

young : is_expired (decimal 61000 0) action.created_at ≡ false
unfolding is_expired max_age_ms evaluation
young = refl

session_works : empty_store.session.access ≢ full
session_works h = cc

take-set_example :
    (take_pending_account_action (codes "fp") (decimal 61000 0) with_action).0 ≡ some action
take-set_example = take-set empty_store action (decimal 61000 0) session_works young

take_accepts_example :
    (action.fingerprint ≡ codes "fp")
    × (length action.name ≤ 120)
    × (is_expired (decimal 61000 0) action.created_at ≡ false)
take_accepts_example =
    take_accepts with_action (codes "fp") (decimal 61000 0) action take-set_example

take_once_example :
    (take_pending_account_action
      (codes "fp")
      (decimal 62000 0)
      (take_pending_account_action (codes "fp") (decimal 61000 0) with_action).1).0
    ≡ none
take_once_example =
    take_once with_action (codes "fp") (codes "fp") (decimal 61000 0) (decimal 62000 0)

-- A draft of a custom pattern that is saved to no project, as the page that wrote it holds it.
abbrev custom_fields : Fields
custom_fields = field "pattern" (obj (field "kind" (str (codes "custom")) end)) end

abbrev custom_store : Store
custom_store =
    write_draft (record update { configuration = some (obj custom_fields); project = none })
      with_action

custom_store_access : custom_store.local.access ≡ working
unfolding write_draft write_stored set_pending_account_action
custom_store_access = refl

custom_store_works : custom_store.local.access ≢ full
custom_store_works h = let e : working ≡ full = sym custom_store_access ∙ h in cc

custom_store-IsSynced : IsSynced custom_store
unfolding write_draft updated read_draft read_stored write_stored parse_draft draft_value json
    parse_step parse_highest_step is_integer clamp_step parse_origin parse_project parse_cart
    parse_public_design evaluation version_number set_pending_account_action
custom_store-IsSynced = inr refl

sign_out-IsGuest_example :
    let out = (clear_account_linked_browser_data custom_store).1 in
    IsSignedOut out
    × IsGuest (read_draft out).0
    × IsGuest (read_draft (reload_draft_from_storage out)).0
sign_out-IsGuest_example = sign_out-IsGuest custom_store custom_store_works custom_store-IsSynced
