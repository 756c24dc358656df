-- ===== src/Warmup.antt =====
-- The warm-up of the service: frontend/services/api-warmup.ts. A warm-up runs in events, one for each
-- promise that settles; a page that is loaded again forgets all but what the session storage keeps.
use sewn_covers.Prelude.{
  ℕ, suc, ◌+◌, Bool, true, false, ◌||◌, ◌&&◌, ◌==◌, not, if◌then◌else◌, Option, none, some, List,
  [], ◌∷◌, ◌++◌, any, filter, map, ◌≡◌,
}
use sewn_covers.ApiClient.{
  ApiRequestStatus, connecting, cold_start, connected, retrying, failure, PatternResponse,
}
pub mod Counts
mod Events
pub mod Invariant

-- Where the chain of the promise stands; what it gave once it has settled.
pub data WarmPhase : Type 0 where
  loading_client awaiting_health awaiting_patterns : WarmPhase
  settled : Option (List PatternResponse) → WarmPhase

-- A listener stands for the function that is told of a status.
pub record WarmEntry : Type 0 where
  pub last_status : Option ApiRequestStatus
  pub listeners : List ℕ
  pub phase : WarmPhase

-- The flag of the session storage, and whether the browser lets a page read and write it.
pub record SessionFlag : Type 0 where
  pub is_readable : Bool
  pub is_writable : Bool
  pub is_set : Bool

-- The variables of the module; then the session, whether the visitor saves data, the requests that a
-- warm-up has made on this page and in this session, and what listeners were told, the latest first.
pub record Warmup : Type 0 where
  pub entry : Option WarmEntry
  pub requested_elsewhere : Bool
  pub flag : SessionFlag
  pub saves_data : Bool
  pub page_pings : ℕ
  pub session_pings : ℕ
  pub session_lists : ℕ
  pub told : List (ℕ × ApiRequestStatus)

unfoldable pub read_session_flag : SessionFlag → Bool
read_session_flag flag = flag.is_readable && flag.is_set

unfoldable pub write_session_flag : SessionFlag → SessionFlag
write_session_flag flag = record flag { is_set = flag.is_set || flag.is_writable }

-- `noteApiRequest`
unfoldable pub note_api_request : Warmup → Warmup
unfolding write_session_flag
note_api_request w = record w { requested_elsewhere = true; flag = write_session_flag w.flag }

abbrev pub is_settled : WarmPhase → Bool
is_settled (settled patterns) = true
is_settled _ = false

abbrev pub tell_all : List ℕ → ApiRequestStatus → List (ℕ × ApiRequestStatus)
tell_all listeners status = map (λ l. (l, status)) listeners

-- A set keeps one of each.
abbrev with_listener : ℕ → List ℕ → List ℕ
with_listener l ls = if any (λ m. m == l) ls then ls else ls ++ (l ∷ [])

abbrev without_listener : ℕ → List ℕ → List ℕ
without_listener l ls = filter (λ m. not (m == l)) ls

abbrev pub last_told :
    Bool → Option ApiRequestStatus → ℕ → List (ℕ × ApiRequestStatus) → List (ℕ × ApiRequestStatus)
last_told false (some status) l told = (l, status) ∷ told
last_told _ _ l told = told

abbrev pub joined_entry : Option WarmEntry → ℕ → Warmup → Bool × Warmup
joined_entry none l w = (false, w)
joined_entry (some e) l w = (
  true,
  record w {
    told = last_told (is_settled e.phase) e.last_status l w.told;
    entry = some (record e { listeners = with_listener l e.listeners });
  },
)

-- `awaitWarmPatterns`: whether there is a promise to wait for.
unfoldable pub await_warm_patterns : ℕ → Warmup → Bool × Warmup
await_warm_patterns l w = joined_entry w.entry l w

-- The `finally` of the promise that `awaitWarmPatterns` returns.
abbrev pub left_entry : Option WarmEntry → ℕ → Option WarmEntry
left_entry none l = none
left_entry (some e) l =
    some (if is_settled e.phase then record e { listeners = without_listener l e.listeners } else e)

unfoldable pub leave : ℕ → Warmup → Warmup
leave l w = record w { entry = left_entry w.entry l }

abbrev pub has_entry : Option WarmEntry → Bool
has_entry none = false
has_entry (some e) = true

abbrev pub is_warmup_barred : Warmup → Bool
is_warmup_barred w =
    has_entry w.entry || (w.requested_elsewhere || (w.saves_data || read_session_flag w.flag))

abbrev pub new_entry : WarmEntry
new_entry = record { last_status = none; listeners = []; phase = loading_client }

-- `startApiWarmup` up to its first await.
unfoldable pub start_api_warmup : Warmup → Warmup
unfolding read_session_flag write_session_flag
start_api_warmup w =
    if is_warmup_barred w
    then w
    else record w { flag = write_session_flag w.flag; entry = some new_entry }

-- The status of a request, told to those who wait.
abbrev pub forwarded : Option WarmEntry → ApiRequestStatus → Warmup → Warmup
forwarded entry (failure category message) w = w
forwarded none status w = w
forwarded (some e) status w = record w {
  told = tell_all e.listeners status ++ w.told;
  entry = some (record e { last_status = some status });
}

unfoldable pub forward : ApiRequestStatus → Warmup → Warmup
forward status w = forwarded w.entry status w

abbrev pub move : WarmEntry → WarmPhase → Warmup → Warmup
move e phase w = record w { entry = some (record e { phase = phase }) }

abbrev pub client_loaded : WarmEntry → WarmPhase → Bool → Warmup → Warmup
client_loaded e loading_client true w = record (move e awaiting_health w) {
  page_pings = suc w.page_pings;
  session_pings = suc w.session_pings;
}
client_loaded e loading_client false w = move e (settled none) w
client_loaded e _ is_loaded w = w

-- `loadClient` settles: with the client, which is asked for its health, or by throwing.
abbrev pub on_client : Option WarmEntry → Bool → Warmup → Warmup
on_client none is_loaded w = w
on_client (some e) is_loaded w = client_loaded e e.phase is_loaded w

abbrev pub health_known : WarmEntry → WarmPhase → Bool → Warmup → Warmup
health_known e awaiting_health true w = record (move e awaiting_patterns w) {
  session_lists = suc w.session_lists;
}
health_known e awaiting_health false w = move e (settled none) w
health_known e _ is_healthy w = w

-- `getHealth` settles: with a healthy database, or with another answer or an error.
abbrev pub on_health : Option WarmEntry → Bool → Warmup → Warmup
on_health none is_healthy w = w
on_health (some e) is_healthy w = health_known e e.phase is_healthy w

abbrev pub patterns_known : WarmEntry → WarmPhase → Option (List PatternResponse) → Warmup → Warmup
patterns_known e awaiting_patterns patterns w = move e (settled patterns) w
patterns_known e _ patterns w = w

-- `listPatterns` settles: with the patterns, or with an error.
abbrev pub on_patterns : Option WarmEntry → Option (List PatternResponse) → Warmup → Warmup
on_patterns none patterns w = w
on_patterns (some e) patterns w = patterns_known e e.phase patterns w

-- A page that is loaded in the same session.
abbrev pub load_page : Warmup → Warmup
load_page w = record w { entry = none; requested_elsewhere = false; page_pings = 0 }

pub data Step (w : Warmup) : Warmup → Type 0 where
  starts : Step w (start_api_warmup w)
  notes_request : Step w (note_api_request w)
  awaits : (l : ℕ) → Step w (await_warm_patterns l w).1
  leaves : (l : ℕ) → Step w (leave l w)
  reports : (status : ApiRequestStatus) → Step w (forward status w)
  loads_client : (is_loaded : Bool) → Step w (on_client w.entry is_loaded w)
  answers_health : (is_healthy : Bool) → Step w (on_health w.entry is_healthy w)
  answers_patterns :
      (patterns : Option (List PatternResponse)) → Step w (on_patterns w.entry patterns w)
  loads_page : Step w (load_page w)

pub data Steps (w : Warmup) : Warmup → Type 0 where
  done : Steps w w
  then_step : {v u : Warmup} → Steps w v → Step v u → Steps w u

-- A session that begins.
abbrev pub initial_warmup : SessionFlag → Bool → Warmup
initial_warmup flag saves_data = record {
  entry = none;
  requested_elsewhere = false;
  flag = flag;
  saves_data = saves_data;
  page_pings = 0;
  session_pings = 0;
  session_lists = 0;
  told = [];
}
