-- ===== src/BrowserDraft/SignOut/Reload.antt =====
-- Signing out also removes what the local storage keeps of the account.
use text.Mathlib.Text.{◌==◌}
use sewn_covers.Prelude.{
  false, ◌||◌, String, Option, none, some, ◌≡◌, ◌≢◌, ◌⊎◌, inl, inr, refl, arith, Bool-cases,
  Option-cases, is_some,
}
use sewn_covers.Value.{Value, undef, null, flag, num, str, arr, obj, Fields, end, field, lookup}
use sewn_covers.BrowserDraft.Types.{ConfiguratorDraft, DraftUpdate, full, BrowserStorage, Store}
use sewn_covers.BrowserDraft.Encoding.{
  json, json_field, json_fields, draft_value, parse_draft, parse_project, parse_cart,
}
use sewn_covers.BrowserDraft.Operations.{
  read_draft, clear_draft, write_draft, set_field, has_custom_pattern, strip_update, stripping,
  reset_draft, reload_draft_from_storage, clear_account_linked_browser_data, read_stored,
  write_stored, notify, updated, merge, clear_pending_account_action,
}
use sewn_covers.BrowserDraft.Pending.{read-remove_stored}
use sewn_covers.BrowserDraft.Persistence.{version_matches}
use sewn_covers.BrowserDraft.SignOut.{
  IsGuest, lookup-set_field, strip_update-none, strip_update-some, unlinked, read-ready, signed_out,
  IsSignedOut, sign_out_now-IsGuest,
}

lookup-json_field_ne :
    (key k : String) (v : Value) (fs : Fields)
    → (k == key) ≡ false
    → lookup key (json_field k v fs) ≡ lookup key fs
unfolding lookup
lookup-json_field_ne key k undef fs other = refl
lookup-json_field_ne key k null fs other = rw other refl
lookup-json_field_ne key k (flag b) fs other = rw other refl
lookup-json_field_ne key k (num n) fs other = rw other refl
lookup-json_field_ne key k (str t) fs other = rw other refl
lookup-json_field_ne key k (arr vs) fs other = rw other refl
lookup-json_field_ne key k (obj gs) fs other = rw other refl

-- A field that is null is still null after `JSON.stringify` and `JSON.parse`.
lookup-json_fields :
    (key : String) (fs : Fields) → lookup key fs ≡ null → lookup key (json_fields fs) ≡ null
unfolding lookup json json_fields
lookup-json_fields key end h = cc
lookup-json_fields key (field k v fs) h = elim (Bool-cases (k == key)) [
  | inl same ↦ let empty : v ≡ null = rw same at h in rw (empty, same) refl
  | inr other ↦
      rw (lookup-json_field_ne key k (json v) (json_fields fs) other)
        (lookup-json_fields key fs (rw other at h))
]

unpatterned : (fs : Fields) → has_custom_pattern (json_fields (set_field "pattern" null fs)) ≡ false
unfolding has_custom_pattern
unpatterned fs =
    rw
      (
        lookup-json_fields "pattern" (set_field "pattern" null fs)
            (lookup-set_field "pattern" null fs),
        has_custom_pattern,
      )
      refl

-- A draft with no link whose pattern was stripped is read from its text as one of a guest.
parsed-IsGuest :
    (d : ConfiguratorDraft) (fs : Fields)
    → d.configuration ≡ obj (set_field "pattern" null fs)
    → d.project ≡ none
    → d.cart ≡ none
    → IsGuest (parse_draft (draft_value d))
unfolding parse_draft draft_value json parse_project parse_cart
parsed-IsGuest d fs c p k = rw (c, p, k, version_matches) (refl, refl, unpatterned fs)

read-write_stored :
    (v : Value) (s : BrowserStorage)
    → s.access ≢ full
    → (read_stored (write_stored v s) ≡ v) ⊎ (read_stored (write_stored v s) ≡ null)
unfolding read_stored write_stored
read-write_stored v s h = ground arith

updated-memory :
    (u : DraftUpdate) (s : Store) (d : ConfiguratorDraft)
    → s.memory ≡ some (some d)
    → updated u s ≡ merge d u
unfolding updated read_draft
updated-memory u s d m = rw m refl

null-IsGuest : IsGuest (parse_draft null)
unfolding parse_draft
null-IsGuest = tt

stripped-stored :
    (s : Store) (d : ConfiguratorDraft) (fs : Fields)
    → s.memory ≡ some (some d)
    → s.local.access ≢ full
    → d.project ≡ none
    → d.cart ≡ none
    → IsGuest (parse_draft (read_stored (write_draft (stripping fs) s).local))
unfolding write_draft
stripped-stored s d fs m h p c =
    let next = merge d (stripping fs) in
    rw (updated-memory (stripping fs) s d m)
      (elim (read-write_stored (draft_value next) s.local h) [
        | inl written ↦ rw written (parsed-IsGuest next fs refl p c)
        | inr nothing ↦ rw nothing null-IsGuest
      ])

-- The draft that the local storage holds, if it holds one, is the one that the page reads.
abbrev pub IsSynced : Store → Type 0
IsSynced s =
    (parse_draft (read_stored s.local) ≡ none)
    ⊎ (parse_draft (read_stored s.local) ≡ (read_draft s).0)

cleared-stored : (s : Store) → IsGuest (parse_draft (read_stored (clear_draft s).local))
unfolding clear_draft parse_draft
cleared-stored s = rw (read-remove_stored s.local) tt

kept-stored :
    (s : Store) (d : ConfiguratorDraft)
    → d.project ≡ none
    → d.cart ≡ none
    → strip_update d ≡ none
    → (parse_draft (read_stored s.local) ≡ none) ⊎ (parse_draft (read_stored s.local) ≡ some d)
    → IsGuest (parse_draft (read_stored s.local))
kept-stored s d p c plain (inl e) = rw e tt
kept-stored s d p c plain (inr e) = rw e (p, c, strip_update-none d plain)

reset_draft-stored :
    (draft : Option ConfiguratorDraft) (s : Store)
    → s.memory ≡ some draft
    → s.local.access ≢ full
    → (parse_draft (read_stored s.local) ≡ none) ⊎ (parse_draft (read_stored s.local) ≡ draft)
    → IsGuest (parse_draft (read_stored (reset_draft draft s).1.local))
unfolding notify clear_draft
reset_draft-stored none s m h (inl e) = rw e tt
reset_draft-stored none s m h (inr e) = rw e tt
reset_draft-stored (some d) s m h synced = elim (Bool-cases (is_some d.project || is_some d.cart)) [
  | inl linked ↦ rw linked (cleared-stored s)
  | inr guest ↦
      let (p, c) = unlinked d guest in
      rw guest (elim (Option-cases (strip_update d)) [
        | inl plain ↦ rw plain (kept-stored s d p c plain synced)
        | inr (u, found) ↦
            let (fs, same) = strip_update-some d u found in
            rw (found, same) (stripped-stored s d fs m h p c)
      ])
]

read-reload :
    (s : Store) → (read_draft (reload_draft_from_storage s)).0 ≡ parse_draft (read_stored s.local)
unfolding read_draft reload_draft_from_storage
read-reload s = refl

local-read_draft : (s : Store) → (read_draft s).1.local ≡ s.local
unfolding read_draft
local-read_draft s = ground arith

local-signed_out : (s : Store) → (signed_out s).local ≡ s.local
unfolding signed_out clear_pending_account_action
local-signed_out s = refl

read-signed_out : (s : Store) → (read_draft (signed_out s)).0 ≡ (read_draft s).0
unfolding read_draft signed_out clear_pending_account_action
read-signed_out s = ground arith

signed_out-IsSynced :
    (s : Store)
    → IsSynced s
    → let (draft, ready) = read_draft (signed_out s) in
      (parse_draft (read_stored ready.local) ≡ none)
      ⊎ (parse_draft (read_stored ready.local) ≡ draft)
signed_out-IsSynced s synced =
    rw (read-signed_out s, local-read_draft (signed_out s), local-signed_out s) synced

stored_lem :
    (s : Store)
    → s.local.access ≢ full
    → IsSynced s
    → let (draft, ready) = read_draft (signed_out s) in
      IsGuest (parse_draft (read_stored (reset_draft draft ready).1.local))
stored_lem s h synced =
    let (draft, ready) = read_draft (signed_out s) in
    reset_draft-stored draft ready (read-ready (signed_out s))
      (rw (local-read_draft (signed_out s), local-signed_out s) h) (signed_out-IsSynced s synced)

-- If the local storage is not full (it takes writes, or is blocked altogether), and it holds no draft
-- or the one that the page reads, then signing out leaves no pending action, in memory or in the
-- session storage, no return hint, and a draft with no project, no cart entry and no custom pattern,
-- both as this page reads it and as it is read from the storage after a reload.
pub sign_out-IsGuest :
    (s : Store)
    → s.local.access ≢ full
    → IsSynced s
    → let out = (clear_account_linked_browser_data s).1 in
      IsSignedOut out
      × IsGuest (read_draft out).0
      × IsGuest (read_draft (reload_draft_from_storage out)).0
unfolding clear_account_linked_browser_data signed_out
sign_out-IsGuest s h synced =
    let (out, now) = sign_out_now-IsGuest s in
    (out, now, rw (read-reload (clear_account_linked_browser_data s).1) (stored_lem s h synced))
