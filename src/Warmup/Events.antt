-- ===== src/Warmup/Events.antt =====
-- Every event of a warm-up keeps its counts, and tells no failure.
use sewn_covers.Prelude.{
  ℕ, ◌+◌, ◌≤◌, Bool, true, false, ◌||◌, Option, none, some, List, [], ◌∷◌, ◌++◌, if◌then◌else◌, ◌≡◌,
  refl, arith, Bool-cases, Option-cases, inl, inr,
}
use sewn_covers.ApiClient.{
  ApiRequestStatus, connecting, cold_start, connected, retrying, failure, PatternResponse,
}
use sewn_covers.Warmup.{
  WarmPhase, loading_client, awaiting_health, awaiting_patterns, settled, WarmEntry, Warmup,
  note_api_request, await_warm_patterns, leave, start_api_warmup, forward, forwarded, on_client,
  client_loaded, on_health, health_known, on_patterns, patterns_known, load_page,
  write_session_flag, read_session_flag, tell_all, joined_entry, is_settled, is_warmup_barred,
  has_entry, new_entry, move, last_told, without_listener,
}
use sewn_covers.Warmup.Counts.{
  is_failure, AreKind, IsKindLast, IsQuiet, write-IsCounted, started-IsCounted, IsQuietIn, quiet_in,
  fewer-IsCounted, phase_pings-phase_lists, due_pings-due_lists,
}

pub tell-AreKind :
    (listeners : List ℕ) (status : ApiRequestStatus) (told : List (ℕ × ApiRequestStatus))
    → is_failure status ≡ false
    → AreKind told
    → AreKind (tell_all listeners status ++ told)
tell-AreKind [] status told kind h = h
tell-AreKind (l ∷ ls) status told kind h = (kind, tell-AreKind ls status told kind h)

pub note_api_request-IsQuiet : (w : Warmup) → IsQuiet w → IsQuiet (note_api_request w)
unfolding note_api_request
note_api_request-IsQuiet w q = record {
  paged = q.paged;
  counted = write-IsCounted w.flag _ q.counted;
  listed = q.listed;
  kind = q.kind;
  kind_last = q.kind_last;
}

pub begun-IsQuiet :
    (w : Warmup)
    → IsQuiet w
    → w.entry ≡ none
    → read_session_flag w.flag ≡ false
    → IsQuiet (record w { flag = write_session_flag w.flag; entry = some new_entry })
begun-IsQuiet w q free unread =
    let none_made : w.page_pings ≡ 0 = rw free at q.paged in
    record {
      paged = omega arith;
      counted = started-IsCounted w.flag _ unread (rw free at q.counted);
      listed =
          let l : w.session_lists + 0 ≤ w.session_pings + 0 = rw free at q.listed in omega arith;
      kind = q.kind;
      kind_last = tt;
    }

pub free_lem :
    (o : Option WarmEntry) (a b c : Bool)
    → (has_entry o || (a || (b || c))) ≡ false
    → (o ≡ none) × (c ≡ false)
free_lem none false false c h = (refl, h)
free_lem none true b c h = cc
free_lem none false true c h = cc
free_lem (some e) a b c h = cc

pub start_api_warmup-IsQuiet : (w : Warmup) → IsQuiet w → IsQuiet (start_api_warmup w)
unfolding start_api_warmup
start_api_warmup-IsQuiet w q = elim (Bool-cases (is_warmup_barred w)) [
  | inl barred ↦ rw barred q
  | inr free ↦
      let (none_there, unread) = free_lem w.entry _ _ _ free in
      rw free (begun-IsQuiet w q none_there unread)
]

-- A chain that stops owes nothing.
pub stopped_lem :
    (phase : WarmPhase) (patterns : Option (List PatternResponse)) (w : Warmup) (e : WarmEntry)
    → IsQuietIn phase e.last_status w
    → IsQuiet (move e (settled patterns) w)
stopped_lem phase patterns w e q = record {
  paged = omega (arith, q.paged);
  counted = fewer-IsCounted w.flag _ _ (omega arith) q.counted;
  listed = omega (arith, q.listed, phase_pings-phase_lists phase);
  kind = q.kind;
  kind_last = q.kind_last;
}

pub client_loaded-IsQuiet :
    (w : Warmup) (e : WarmEntry) (phase : WarmPhase) (b : Bool)
    → IsQuiet w
    → IsQuietIn phase e.last_status w
    → IsQuiet (client_loaded e phase b w)
client_loaded-IsQuiet w e loading_client true q i = record {
  paged = omega (arith, i.paged);
  counted = fewer-IsCounted w.flag _ _ (omega arith) i.counted;
  listed = omega (arith, i.listed);
  kind = q.kind;
  kind_last = i.kind_last;
}
client_loaded-IsQuiet w e loading_client false q i = stopped_lem loading_client none w e i
client_loaded-IsQuiet w e awaiting_health b q i = q
client_loaded-IsQuiet w e awaiting_patterns b q i = q
client_loaded-IsQuiet w e (settled p) b q i = q

pub health_known-IsQuiet :
    (w : Warmup) (e : WarmEntry) (phase : WarmPhase) (b : Bool)
    → IsQuiet w
    → IsQuietIn phase e.last_status w
    → IsQuiet (health_known e phase b w)
health_known-IsQuiet w e awaiting_health true q i = record {
  paged = i.paged;
  counted = i.counted;
  listed = omega (arith, i.listed);
  kind = q.kind;
  kind_last = i.kind_last;
}
health_known-IsQuiet w e awaiting_health false q i = stopped_lem awaiting_health none w e i
health_known-IsQuiet w e loading_client b q i = q
health_known-IsQuiet w e awaiting_patterns b q i = q
health_known-IsQuiet w e (settled p) b q i = q

pub patterns_known-IsQuiet :
    (w : Warmup) (e : WarmEntry) (phase : WarmPhase) (patterns : Option (List PatternResponse))
    → IsQuiet w
    → IsQuietIn phase e.last_status w
    → IsQuiet (patterns_known e phase patterns w)
patterns_known-IsQuiet w e awaiting_patterns patterns q i =
    stopped_lem awaiting_patterns patterns w e i
patterns_known-IsQuiet w e loading_client patterns q i = q
patterns_known-IsQuiet w e awaiting_health patterns q i = q
patterns_known-IsQuiet w e (settled p) patterns q i = q

-- An event of a chain, where there is one.
pub chained :
    (w : Warmup) (next : WarmEntry → Warmup) (all : Option WarmEntry → Warmup)
    → (all none ≡ w)
    → ((e : WarmEntry) → all (some e) ≡ next e)
    → ((e : WarmEntry) → IsQuietIn e.phase e.last_status w → IsQuiet (next e))
    → IsQuiet w
    → IsQuiet (all w.entry)
chained w next all same there step q = elim (Option-cases w.entry) [
  | inl free ↦ rw (free, same) q
  | inr (e, eq) ↦ rw (eq, there e) (step e (quiet_in w e eq q))
]

pub on_client-IsQuiet : (w : Warmup) (b : Bool) → IsQuiet w → IsQuiet (on_client w.entry b w)
on_client-IsQuiet w b q =
    chained w (λ e. client_loaded e e.phase b w) (λ o. on_client o b w) refl (λ e. refl)
      (λ e i. client_loaded-IsQuiet w e e.phase b q i) q

pub on_health-IsQuiet : (w : Warmup) (b : Bool) → IsQuiet w → IsQuiet (on_health w.entry b w)
on_health-IsQuiet w b q =
    chained w (λ e. health_known e e.phase b w) (λ o. on_health o b w) refl (λ e. refl)
      (λ e i. health_known-IsQuiet w e e.phase b q i) q

pub on_patterns-IsQuiet :
    (w : Warmup) (patterns : Option (List PatternResponse))
    → IsQuiet w
    → IsQuiet (on_patterns w.entry patterns w)
on_patterns-IsQuiet w patterns q =
    chained w (λ e. patterns_known e e.phase patterns w) (λ o. on_patterns o patterns w) refl
      (λ e. refl) (λ e i. patterns_known-IsQuiet w e e.phase patterns q i) q

pub last_told-AreKind :
    (b : Bool) (last : Option ApiRequestStatus) (l : ℕ) (told : List (ℕ × ApiRequestStatus))
    → IsKindLast last
    → AreKind told
    → AreKind (last_told b last l told)
last_told-AreKind false (some status) l told kind h = (kind, h)
last_told-AreKind false none l told kind h = h
last_told-AreKind true last l told kind h = h

pub await_warm_patterns-IsQuiet :
    (w : Warmup) (l : ℕ) → IsQuiet w → IsQuiet (await_warm_patterns l w).1
unfolding await_warm_patterns
await_warm_patterns-IsQuiet w l q =
    chained w (λ e. (joined_entry (some e) l w).1) (λ o. (joined_entry o l w).1) refl (λ e. refl)
      (λ e i. record {
        paged = i.paged;
        counted = i.counted;
        listed = i.listed;
        kind = last_told-AreKind (is_settled e.phase) e.last_status l w.told i.kind_last i.kind;
        kind_last = i.kind_last;
      })
      q

pub told-IsQuiet :
    (w : Warmup) (e : WarmEntry) (status : ApiRequestStatus)
    → is_failure status ≡ false
    → IsQuietIn e.phase e.last_status w
    → IsQuiet (record w {
      told = tell_all e.listeners status ++ w.told;
      entry = some (record e { last_status = some status });
    })
told-IsQuiet w e status kind i = record {
  paged = i.paged;
  counted = i.counted;
  listed = i.listed;
  kind = tell-AreKind e.listeners status w.told kind i.kind;
  kind_last = kind;
}

pub forwarded-IsQuiet :
    (w : Warmup) (e : WarmEntry) (status : ApiRequestStatus)
    → IsQuiet w
    → IsQuietIn e.phase e.last_status w
    → IsQuiet (forwarded (some e) status w)
forwarded-IsQuiet w e (failure category message) q i = q
forwarded-IsQuiet w e connecting q i = told-IsQuiet w e connecting refl i
forwarded-IsQuiet w e cold_start q i = told-IsQuiet w e cold_start refl i
forwarded-IsQuiet w e connected q i = told-IsQuiet w e connected refl i
forwarded-IsQuiet w e (retrying n) q i = told-IsQuiet w e (retrying n) refl i

pub forwarded-none : (status : ApiRequestStatus) (w : Warmup) → forwarded none status w ≡ w
forwarded-none (failure category message) w = refl
forwarded-none connecting w = refl
forwarded-none cold_start w = refl
forwarded-none connected w = refl
forwarded-none (retrying n) w = refl

pub forward-IsQuiet :
    (w : Warmup) (status : ApiRequestStatus) → IsQuiet w → IsQuiet (forward status w)
unfolding forward
forward-IsQuiet w status q =
    chained w (λ e. forwarded (some e) status w) (λ o. forwarded o status w)
      (forwarded-none status w) (λ e. refl) (λ e i. forwarded-IsQuiet w e status q i) q

pub left-IsQuiet :
    (w : Warmup) (e f : WarmEntry)
    → f.phase ≡ e.phase
    → f.last_status ≡ e.last_status
    → IsQuietIn e.phase e.last_status w
    → IsQuiet (record w { entry = some f })
left-IsQuiet w e f phase last i = record {
  paged = rw phase i.paged;
  counted = rw phase i.counted;
  listed = rw phase i.listed;
  kind = i.kind;
  kind_last = rw last i.kind_last;
}

pub left_phase :
    (b : Bool) (e : WarmEntry) (ls : List ℕ)
    → ((if b then record e { listeners = ls } else e).phase ≡ e.phase)
      × ((if b then record e { listeners = ls } else e).last_status ≡ e.last_status)
left_phase true e ls = (refl, refl)
left_phase false e ls = (refl, refl)

pub leave-IsQuiet : (w : Warmup) (l : ℕ) → IsQuiet w → IsQuiet (leave l w)
unfolding leave
leave-IsQuiet w l q = elim (Option-cases w.entry) [
  | inl free ↦ rw free (record {
    paged = rw free at q.paged;
    counted = rw free at q.counted;
    listed = rw free at q.listed;
    kind = q.kind;
    kind_last = tt;
  })
  | inr (e, eq) ↦
      let (phase, last) = left_phase (is_settled e.phase) e (without_listener l e.listeners) in
      rw eq (left-IsQuiet w e _ phase last (quiet_in w e eq q))
]

pub load_page-IsQuiet : (w : Warmup) → IsQuiet w → IsQuiet (load_page w)
load_page-IsQuiet w q = record {
  paged = refl;
  counted = fewer-IsCounted w.flag _ _ (omega arith) q.counted;
  listed = omega (arith, q.listed, due_pings-due_lists w.entry);
  kind = q.kind;
  kind_last = tt;
}
