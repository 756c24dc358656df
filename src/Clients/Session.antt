-- ===== src/Clients/Session.antt =====
-- The session token of frontend/services/account-api.ts, in the session storage of a tab.
use sewn_covers.Prelude.{
  ℕ, suc, Bool, true, false, ◌&&◌, ◌==◌, if◌then◌else◌, Option, none, some, ◌≡◌, refl, all, length,
  arith, Bool-cases, inl, inr,
}
use sewn_covers.Text.{Text}
use sewn_covers.Text.Patterns.{is_id_char}

-- /^[A-Za-z0-9_-]{43}$/
unfoldable pub is_session_token : Text → Bool
unfolding is_id_char
is_session_token s = length s == 43 && all is_id_char s

-- Access to the storage throws, or it holds a token or none; a full one does not take another.
pub data TokenStorage : Type 0 where
  blocked : TokenStorage
  open_storage : (is_full : Bool) (token : Option Text) → TokenStorage

-- A tab of a browser, or the server, which has no window; and the events that were dispatched.
pub record Tab : Type 0 where
  pub has_window : Bool
  pub storage : TokenStorage
  pub changes : ℕ

abbrev pub removed : TokenStorage → TokenStorage
removed blocked = blocked
removed (open_storage is_full token) = open_storage is_full none

unfoldable pub clear_stored_token : Tab → Tab
clear_stored_token t =
    if t.has_window then record t { storage = removed t.storage; changes = suc t.changes } else t

abbrev accepted_token : Option Text → Option Text
accepted_token none = none
accepted_token (some value) = if is_session_token value then some value else none

abbrev stored_token : TokenStorage → Option Text
stored_token blocked = none
stored_token (open_storage is_full token) = accepted_token token

unfoldable pub read_session_token : Tab → Option Text
unfolding is_session_token
read_session_token t = if t.has_window then stored_token t.storage else none

-- `storeSessionToken` throws that the response was malformed, or what the browser throws.
pub data Stored : Type 0 where
  malformed denied : Stored
  stored : Tab → Stored

abbrev written : Tab → Text → TokenStorage → Stored
written t token blocked = denied
written t token (open_storage true old) = denied
written t token (open_storage false old) =
    stored (record t { storage = open_storage false (some token); changes = suc t.changes })

unfoldable pub store_session_token : Text → Tab → Stored
unfolding is_session_token
store_session_token token t =
    if is_session_token token
    then if t.has_window then written t token t.storage else denied
    else malformed

unfoldable pub remove_session_token : Tab → Tab
unfolding clear_stored_token
remove_session_token t = clear_stored_token t

module _ (token : Text) where
  accepted_token-IsToken :
      (o : Option Text) → accepted_token o ≡ some token → is_session_token token ≡ true
  accepted_token-IsToken none h = cc
  accepted_token-IsToken (some value) h = elim (Bool-cases (is_session_token value)) [
    | inl good ↦ let same : value ≡ token = ground arith in rw (← same) good
    | inr bad ↦ absurd (ground arith)
  ]

  stored_token-IsToken :
      (s : TokenStorage) → stored_token s ≡ some token → is_session_token token ≡ true
  stored_token-IsToken blocked h = cc
  stored_token-IsToken (open_storage is_full o) h = accepted_token-IsToken o h

  -- What is read back is a session token.
  pub read_session_token-IsToken :
      (t : Tab) → read_session_token t ≡ some token → is_session_token token ≡ true
  unfolding read_session_token
  read_session_token-IsToken t h = elim (Bool-cases t.has_window) [
    | inl window ↦ stored_token-IsToken t.storage (ground arith)
    | inr server ↦ absurd (ground arith)
  ]

  written-stored :
      (t u : Tab) (s : TokenStorage)
      → written t token s ≡ stored u
      → u ≡ record t { storage = open_storage false (some token); changes = suc t.changes }
  written-stored t u blocked h = cc
  written-stored t u (open_storage true old) h = cc
  written-stored t u (open_storage false old) h = ground arith

  store_session_token-stored :
      (t u : Tab)
      → store_session_token token t ≡ stored u
      → (is_session_token token ≡ true)
        × (t.has_window ≡ true)
        × (u ≡ record t { storage = open_storage false (some token); changes = suc t.changes })
  unfolding store_session_token
  store_session_token-stored t u h = elim (Bool-cases (is_session_token token)) [
    | inr bad ↦ absurd (ground arith)
    | inl good ↦ elim (Bool-cases t.has_window) [
      | inr server ↦ absurd (ground arith)
      | inl window ↦ (good, window, written-stored t u t.storage (ground arith))
    ]
  ]

  -- A token that is stored is read back, until it is removed; the page is told both times.
  pub store_session_token-read :
      (t u : Tab)
      → store_session_token token t ≡ stored u
      → (read_session_token u ≡ some token)
        × (read_session_token (remove_session_token u) ≡ none)
        × ((remove_session_token u).changes ≡ suc (suc t.changes))
  unfolding read_session_token remove_session_token clear_stored_token
  store_session_token-read t u h =
      let (good, window, same) = store_session_token-stored t u h in
      rw same (rw (window, good) (refl, refl, refl))
