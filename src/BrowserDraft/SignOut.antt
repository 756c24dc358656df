-- ===== src/BrowserDraft/SignOut.antt =====
-- Signing out removes what is tied to the account.
use text.Mathlib.TextPositions.{eq_refl}
use sewn_covers.Prelude.{
  Bool, false, ◌||◌, String, Option, none, some, ◌≡◌, inl, inr, refl, ap, ◌∙◌, arith, Bool-cases,
  Option-cases, is_some,
}
use sewn_covers.Value.{Value, null, Fields, end, field, lookup, as_record}
use sewn_covers.BrowserDraft.Types.{
  ConfiguratorDraft, cleared, stripped, Store, DraftUpdate, draft_reset,
}
use sewn_covers.BrowserDraft.Pending.{read-remove_stored}
use sewn_covers.BrowserDraft.Operations.{
  read_draft, notify, clear_draft, write_draft, clear_pending_account_action, set_field,
  has_custom_pattern, strip_update, stripping, strip, reset_draft,
  clear_account_linked_browser_data, read_stored,
}
pub mod Reload

-- Does the draft's configuration hold a custom pattern?
abbrev pub holds_custom_pattern : Value → Bool
holds_custom_pattern v = elim (as_record v) [ none ↦ false | some fs ↦ has_custom_pattern fs ]

-- A draft with nothing of an account: no project, no cart entry, no private pattern.
abbrev pub IsGuest : Option ConfiguratorDraft → Type 0
IsGuest none = Unit {0}
IsGuest (some d) =
    (d.project ≡ none) × (d.cart ≡ none) × (holds_custom_pattern d.configuration ≡ false)

pub lookup-set_field : (k : String) (v : Value) (fs : Fields) → lookup k (set_field k v fs) ≡ v
unfolding lookup set_field
lookup-set_field k v end = rw (eq_refl k)
lookup-set_field k v (field j w fs) = ground (arith, eq_refl k, lookup-set_field k v fs)

no_custom_pattern : (fs : Fields) → has_custom_pattern (set_field "pattern" null fs) ≡ false
unfolding has_custom_pattern
no_custom_pattern fs = rw (lookup-set_field "pattern" null fs, has_custom_pattern)

pub strip_update-none :
    (d : ConfiguratorDraft) → strip_update d ≡ none → holds_custom_pattern d.configuration ≡ false
unfolding strip_update as_record
strip_update-none d h = ground arith

pub strip_update-some :
    (d : ConfiguratorDraft) (u : DraftUpdate)
    → strip_update d ≡ some u
    → (fs : Fields) × (u ≡ stripping fs)
unfolding strip_update as_record
strip_update-some d u h = elim (Option-cases (as_record d.configuration)) [
  | inl missing ↦ absurd (ground arith)
  | inr (fs, e) ↦ (fs, ground arith)
]

-- The draft that is read after the stripping update was written.
stripped-IsGuest :
    (s : Store) (d : ConfiguratorDraft) (fs : Fields)
    → s.memory ≡ some (some d)
    → d.project ≡ none
    → d.cart ≡ none
    → IsGuest (read_draft (notify (draft_reset stripped) (write_draft (stripping fs) s))).0
unfolding read_draft write_draft as_record
stripped-IsGuest s d fs m p c = rw m (p, c, no_custom_pattern fs)

pub unlinked :
    (d : ConfiguratorDraft)
    → (is_some d.project || is_some d.cart) ≡ false
    → (d.project ≡ none) × (d.cart ≡ none)
unlinked d h = ground arith

read-cleared : (s : Store) → (read_draft (notify (draft_reset cleared) (clear_draft s))).0 ≡ none
unfolding read_draft clear_draft
read-cleared s = refl

pub read-memory :
    (s : Store) (draft : Option ConfiguratorDraft)
    → s.memory ≡ some draft
    → (read_draft s).0 ≡ draft
unfolding read_draft
read-memory s draft m = rw m

reset_draft-IsGuest :
    (draft : Option ConfiguratorDraft) (s : Store)
    → s.memory ≡ some draft
    → IsGuest (read_draft (reset_draft draft s).1).0
reset_draft-IsGuest none s m = rw (read-memory s none m) tt
reset_draft-IsGuest (some d) s m = elim (Bool-cases (is_some d.project || is_some d.cart)) [
  | inl linked ↦ rw linked (rw (read-cleared s) tt)
  | inr guest ↦ let (p, c) = unlinked d guest in rw guest (strip-IsGuest p c)
]
  where
    strip-IsGuest :
        d.project ≡ none → d.cart ≡ none → IsGuest (read_draft (strip (strip_update d) s).1).0
    strip-IsGuest p c = elim (Option-cases (strip_update d)) [
      | inl plain ↦ rw plain (rw (read-memory s (some d) m) (p, c, strip_update-none d plain))
      | inr (u, found) ↦
          let (fs, same) = strip_update-some d u found in
          rw found (rw same (stripped-IsGuest s d fs m p c))
    ]

pub read-ready : (s : Store) → (read_draft s).1.memory ≡ some (read_draft s).0
unfolding read_draft
read-ready s = ground arith

-- The parts of the store that the draft's operations leave alone.
abbrev SameSession : Store → Store → Type 0
SameSession s t =
    (t.pending ≡ s.pending) × (t.auth_return_hint ≡ s.auth_return_hint) × (t.session ≡ s.session)

read_draft-SameSession : (s : Store) → SameSession s (read_draft s).1
unfolding read_draft
read_draft-SameSession s = ground arith

strip-SameSession : (u : Option DraftUpdate) (s : Store) → SameSession s (strip u s).1
unfolding write_draft notify
strip-SameSession none s = (refl, refl, refl)
strip-SameSession (some u) s = (refl, refl, refl)

reset_draft-SameSession :
    (draft : Option ConfiguratorDraft) (s : Store) → SameSession s (reset_draft draft s).1
unfolding clear_draft notify
reset_draft-SameSession none s = (refl, refl, refl)
reset_draft-SameSession (some d) s = elim (Bool-cases (is_some d.project || is_some d.cart)) [
  | inl linked ↦ rw linked (refl, refl, refl)
  | inr guest ↦ rw guest (strip-SameSession (strip_update d) s)
]

-- No pending action, in memory or in the session storage, and no return hint.
abbrev pub IsSignedOut : Store → Type 0
IsSignedOut s = (s.pending ≡ none) × (s.auth_return_hint ≡ none) × (read_stored s.session ≡ null)

unfoldable pub signed_out : Store → Store
signed_out s = record (clear_pending_account_action s) { auth_return_hint = none }

signed_out-IsSignedOut : (s : Store) → IsSignedOut (signed_out s)
unfolding signed_out clear_pending_account_action
signed_out-IsSignedOut s = (refl, refl, read-remove_stored s.session)

SameSession-IsSignedOut : (s t : Store) → SameSession s t → IsSignedOut s → IsSignedOut t
SameSession-IsSignedOut s t (p, h, e) (p', h', e') = (p ∙ p', h ∙ h', ap read_stored e ∙ e')

-- Whatever the storages do, signing out leaves no pending action, in memory or in the session storage,
-- no return hint, and the page that signs out reads a draft with nothing of the account.
pub sign_out_now-IsGuest :
    (s : Store)
    → IsSignedOut (clear_account_linked_browser_data s).1
      × IsGuest (read_draft (clear_account_linked_browser_data s).1).0
unfolding clear_account_linked_browser_data signed_out
sign_out_now-IsGuest s =
    let out = signed_out s in
    let (draft, ready) = read_draft out in
    (
      SameSession-IsSignedOut ready (reset_draft draft ready).1
          (reset_draft-SameSession draft ready)
          (SameSession-IsSignedOut out ready (read_draft-SameSession out)
            (signed_out-IsSignedOut s)),
      reset_draft-IsGuest draft ready (read-ready out),
    )
