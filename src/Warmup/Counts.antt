-- ===== src/Warmup/Counts.antt =====
-- What a warm-up owes in a phase, and the counts of its requests.
use sewn_covers.Prelude.{
  ℕ, ◌+◌, ◌≤◌, Bool, true, false, ◌||◌, ◌&&◌, Option, none, some, List, [], ◌∷◌, ◌≡◌, ◌⊎◌, refl,
  arith, Bool-cases, inl, inr,
}
use sewn_covers.ApiClient.{ApiRequestStatus, failure}
use sewn_covers.Warmup.{
  WarmPhase, loading_client, awaiting_health, awaiting_patterns, settled, WarmEntry, SessionFlag,
  Warmup, write_session_flag, read_session_flag,
}

-- The requests that a chain has still to make: for the health, and for the patterns.
abbrev pub phase_pings : WarmPhase → ℕ
phase_pings loading_client = 1
phase_pings _ = 0

abbrev pub phase_lists : WarmPhase → ℕ
phase_lists loading_client = 1
phase_lists awaiting_health = 1
phase_lists _ = 0

abbrev pub due_pings : Option WarmEntry → ℕ
due_pings none = 0
due_pings (some e) = phase_pings e.phase

abbrev pub due_lists : Option WarmEntry → ℕ
due_lists none = 0
due_lists (some e) = phase_lists e.phase

-- A page without a warm-up has made no request, and one with a warm-up makes one at most.
abbrev pub IsPaged : Option WarmEntry → ℕ → Type 0
IsPaged none pings = pings ≡ 0
IsPaged (some e) pings = pings + phase_pings e.phase ≤ 1

abbrev pub is_working : SessionFlag → Bool
is_working flag = flag.is_readable && flag.is_writable

-- Where the session storage works: one request at most, and none before the flag is set.
abbrev pub IsCounted : SessionFlag → ℕ → Type 0
IsCounted flag pings = is_working flag ≡ true → (pings ≤ 1) × (flag.is_set ≡ false → pings ≡ 0)

abbrev pub is_failure : ApiRequestStatus → Bool
is_failure (failure category message) = true
is_failure _ = false

abbrev pub AreKind : List (ℕ × ApiRequestStatus) → Type 0
AreKind [] = Unit {0}
AreKind ((l, status) ∷ rest) = (is_failure status ≡ false) × AreKind rest

abbrev pub IsKindLast : Option ApiRequestStatus → Type 0
IsKindLast none = Unit {0}
IsKindLast (some status) = is_failure status ≡ false

abbrev pub IsKindEntry : Option WarmEntry → Type 0
IsKindEntry none = Unit {0}
IsKindEntry (some e) = IsKindLast e.last_status

pub record IsQuiet (w : Warmup) : Type 0 where
  pub paged : IsPaged w.entry w.page_pings
  pub counted : IsCounted w.flag (w.session_pings + due_pings w.entry)
  pub listed : w.session_lists + due_lists w.entry ≤ w.session_pings + due_pings w.entry
  pub kind : AreKind w.told
  pub kind_last : IsKindEntry w.entry

-- The flag is set by a write, where the storage works.
pub written_lem :
    (readable writable set : Bool) (n : ℕ)
    → (readable && writable) ≡ true
    → (n ≤ 1) × (set ≡ false → n ≡ 0)
    → (n ≤ 1) × (set || writable ≡ false → n ≡ 0)
written_lem readable writable true n working (few, h) = (few, λ e. cc)
written_lem readable true false n working (few, h) = (few, λ e. cc)
written_lem readable false false n working (few, h) = (few, h)

-- A flag that is read as unset was never set, where the storage works.
pub begun_lem :
    (readable writable set : Bool) (n : ℕ)
    → (readable && writable) ≡ true
    → (readable && set) ≡ false
    → (n + 0 ≤ 1) × (set ≡ false → n + 0 ≡ 0)
    → (n + 1 ≤ 1) × (set || writable ≡ false → n + 1 ≡ 0)
begun_lem false writable set n working unread (few, h) = cc
begun_lem true false set n working unread (few, h) = cc
begun_lem true true true n working unread (few, h) = cc
begun_lem true true false n working unread (few, h) =
    let none_yet = h refl in (omega arith, λ e. cc)

pub write-IsCounted :
    (flag : SessionFlag) (n : ℕ) → IsCounted flag n → IsCounted (write_session_flag flag) n
unfolding write_session_flag
write-IsCounted flag n h working =
    written_lem flag.is_readable flag.is_writable flag.is_set n working (h working)

pub started-IsCounted :
    (flag : SessionFlag) (n : ℕ)
    → read_session_flag flag ≡ false
    → IsCounted flag (n + 0)
    → IsCounted (write_session_flag flag) (n + 1)
unfolding write_session_flag read_session_flag
started-IsCounted flag n unread h working =
    begun_lem flag.is_readable flag.is_writable flag.is_set n working unread (h working)

-- What a chain in a phase owes.
pub record IsQuietIn (phase : WarmPhase) (last : Option ApiRequestStatus) (w : Warmup)
    : Type 0 where
  pub paged : w.page_pings + phase_pings phase ≤ 1
  pub counted : IsCounted w.flag (w.session_pings + phase_pings phase)
  pub listed : w.session_lists + phase_lists phase ≤ w.session_pings + phase_pings phase
  pub kind : AreKind w.told
  pub kind_last : IsKindLast last

pub quiet_in :
    (w : Warmup) (e : WarmEntry) → w.entry ≡ some e → IsQuiet w → IsQuietIn e.phase e.last_status w
quiet_in w e there q = record {
  paged = rw there at q.paged;
  counted = rw there at q.counted;
  listed = rw there at q.listed;
  kind = q.kind;
  kind_last = rw there at q.kind_last;
}

pub fewer-IsCounted : (flag : SessionFlag) (m n : ℕ) → m ≤ n → IsCounted flag n → IsCounted flag m
fewer-IsCounted flag m n le h working =
    let (few, before) = h working in (omega arith, λ unset. let z = before unset in omega arith)

pub phase_pings-phase_lists : (phase : WarmPhase) → phase_pings phase ≤ phase_lists phase
phase_pings-phase_lists loading_client = omega arith
phase_pings-phase_lists awaiting_health = omega arith
phase_pings-phase_lists awaiting_patterns = omega arith
phase_pings-phase_lists (settled patterns) = omega arith

pub due_pings-due_lists : (o : Option WarmEntry) → due_pings o ≤ due_lists o
due_pings-due_lists none = omega arith
due_pings-due_lists (some e) = phase_pings-phase_lists e.phase

pub IsPaged-few : (o : Option WarmEntry) (pings : ℕ) → IsPaged o pings → pings ≤ 1
IsPaged-few none pings h = omega arith
IsPaged-few (some e) pings h = omega (arith, h)

pub counted_cases :
    (flag : SessionFlag) (pings : ℕ)
    → IsCounted flag pings
    → (is_working flag ≡ false) ⊎ ((pings ≤ 1) × ((flag.is_set ≡ true) ⊎ (pings ≡ 0)))
counted_cases flag pings h = elim (Bool-cases (is_working flag)) [
  | inr broken ↦ inl broken
  | inl working ↦
      let (few, before) = h working in
      inr
        (few, elim (Bool-cases flag.is_set) [ inl set ↦ inl set | inr unset ↦ inr (before unset) ])
]
