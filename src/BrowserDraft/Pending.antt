-- ===== src/BrowserDraft/Pending.antt =====
-- The pending account action is handed over at most once, and only to its own design.
use sewn_covers.Prelude.{
  false, none, some, ◌≡◌, ◌≢◌, ◌≤◌, inl, inr, refl, sym, ◌∙◌, arith, Bool-cases, take, length,
  length-take_le,
}
use sewn_covers.Number.{Num}
use sewn_covers.Text.{Text, text_eq, text_eq→eq, text_eq_refl}
use sewn_covers.Value.{Value, null, num, str, lookup, as_record, >>=-eq-some}
use sewn_covers.BrowserDraft.Types.{
  PendingAccountActionKind, cart, save, PendingAccountAction, full, Store, BrowserStorage,
}
use sewn_covers.BrowserDraft.Encoding.{pending_value, kind_id, as_text}
use sewn_covers.BrowserDraft.Operations.{
  read_stored, remove_stored, candidate, read_kind, fresh, same_text, is_expired, accept_pending,
  clear_pending_account_action, take_pending_account_action, set_pending_account_action,
}

-- After its item was removed a storage reads as empty.
pub read-remove_stored : (s : BrowserStorage) → read_stored (remove_stored s) ≡ null
unfolding read_stored remove_stored
read-remove_stored s = ground arith

candidate-clear : (s : Store) → candidate (clear_pending_account_action s) ≡ null
unfolding candidate clear_pending_account_action
candidate-clear s = rw (read-remove_stored s.session)

-- What was taken is gone: a second taker gets nothing, whatever it asks for, whichever way the
-- storage fails.
pub take_once :
    (s : Store) (fingerprint other : Text) (now later : Num)
    → (take_pending_account_action other later (take_pending_account_action fingerprint now s).1).0
      ≡ none
unfolding take_pending_account_action accept_pending
take_once s fingerprint other now later = rw (candidate-clear s)

same_text-eq-some : (t : Text) (v : Value) (s : Text) → same_text t v ≡ some s → s ≡ t
same_text-eq-some t (str r) s h = elim (Bool-cases (text_eq r t)) [
  | inl same ↦ let found : r ≡ s = ground arith in sym found ∙ text_eq→eq r t same
  | inr other ↦ absurd (ground arith)
]
same_text-eq-some t _ s h = cc

fresh-eq-some : (now : Num) (v : Value) (c : Num) → fresh now v ≡ some c → is_expired now c ≡ false
fresh-eq-some now (num d) c h = elim (Bool-cases (is_expired now d)) [
  | inl old ↦ absurd (ground arith)
  | inr young ↦ let found : d ≡ c = ground arith in rw (← found) young
]
fresh-eq-some now _ c h = cc

accept_pending-eq-some :
    (fingerprint : Text) (now : Num) (v : Value) (a : PendingAccountAction)
    → accept_pending fingerprint now v ≡ some a
    → (a.fingerprint ≡ fingerprint) × (length a.name ≤ 120) × (is_expired now a.created_at ≡ false)
unfolding accept_pending
accept_pending-eq-some fingerprint now v a h =
    let (fs, _, h1) = >>=-eq-some (as_record v) _ h in
    let (kind, _, h2) = >>=-eq-some (read_kind (lookup "kind" fs)) _ h1 in
    let (name, _, h3) = >>=-eq-some (as_text (lookup "name" fs)) _ h2 in
    let (same, fits, h4) = >>=-eq-some (same_text fingerprint (lookup "fingerprint" fs)) _ h3 in
    let (created, young, h5) = >>=-eq-some (fresh now (lookup "createdAt" fs)) _ h4 in
    let result : record {
      kind = kind;
      name = take 120 name;
      fingerprint = same;
      created_at = created;
    }
        ≡ a =
      cc in
    rw (← result) (
      same_text-eq-some fingerprint _ same fits,
      length-take_le 120 name,
      fresh-eq-some now _ created young,
    )

-- An action that is handed over was stored for this design, at most thirty minutes ago, and its
-- name has at most 120 units.
pub take_accepts :
    (s : Store) (fingerprint : Text) (now : Num) (a : PendingAccountAction)
    → (take_pending_account_action fingerprint now s).0 ≡ some a
    → (a.fingerprint ≡ fingerprint) × (length a.name ≤ 120) × (is_expired now a.created_at ≡ false)
unfolding take_pending_account_action
take_accepts s fingerprint now a h = accept_pending-eq-some fingerprint now (candidate s) a h

read-kind_id : (k : PendingAccountActionKind) → read_kind (str (kind_id k)) ≡ some k
unfolding text_eq
read-kind_id cart = refl
read-kind_id save = refl

accept-pending_value :
    (a : PendingAccountAction) (now : Num)
    → is_expired now a.created_at ≡ false
    → accept_pending a.fingerprint now (pending_value a)
      ≡ some (record a { name = take 120 a.name })
unfolding accept_pending pending_value
accept-pending_value a now h = rw (read-kind_id a.kind, text_eq_refl a.fingerprint, h)

candidate-set :
    (s : Store) (a : PendingAccountAction)
    → s.session.access ≢ full
    → candidate (set_pending_account_action a.kind a.name a.fingerprint a.created_at s)
      ≡ pending_value a
unfolding candidate set_pending_account_action
candidate-set s a h = ground arith

-- Where the session storage works, or is blocked altogether, the action that was set last is the
-- one that is handed over for its design while it is fresh.
pub take-set :
    (s : Store) (a : PendingAccountAction) (now : Num)
    → s.session.access ≢ full
    → is_expired now a.created_at ≡ false
    → (take_pending_account_action a.fingerprint now
        (set_pending_account_action a.kind a.name a.fingerprint a.created_at s)).0
      ≡ some (record a { name = take 120 a.name })
unfolding take_pending_account_action
take-set s a now h fresh = rw (candidate-set s a h) (accept-pending_value a now fresh)
