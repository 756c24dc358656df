-- ===== src/Warmup/Invariant.antt =====
-- How many requests a warm-up makes, and what it tells those who wait.
use sewn_covers.Prelude.{◌≤◌, Bool, true, false, ◌≡◌, ◌⊎◌, refl, arith}
use sewn_covers.Warmup.{
  SessionFlag, Warmup, Step, starts, notes_request, awaits, leaves, reports, loads_client,
  answers_health, answers_patterns, loads_page, Steps, done, then_step, initial_warmup,
}
use sewn_covers.Warmup.Counts.{
  is_working, AreKind, IsQuiet, fewer-IsCounted, due_pings-due_lists, IsPaged-few, counted_cases,
}
use sewn_covers.Warmup.Events.{
  note_api_request-IsQuiet, start_api_warmup-IsQuiet, on_client-IsQuiet, on_health-IsQuiet,
  on_patterns-IsQuiet, await_warm_patterns-IsQuiet, forward-IsQuiet, leave-IsQuiet,
  load_page-IsQuiet,
}

Step-IsQuiet : (w v : Warmup) → Step w v → IsQuiet w → IsQuiet v
Step-IsQuiet w v starts q = start_api_warmup-IsQuiet w q
Step-IsQuiet w v notes_request q = note_api_request-IsQuiet w q
Step-IsQuiet w v (awaits l) q = await_warm_patterns-IsQuiet w l q
Step-IsQuiet w v (leaves l) q = leave-IsQuiet w l q
Step-IsQuiet w v (reports status) q = forward-IsQuiet w status q
Step-IsQuiet w v (loads_client b) q = on_client-IsQuiet w b q
Step-IsQuiet w v (answers_health b) q = on_health-IsQuiet w b q
Step-IsQuiet w v (answers_patterns patterns) q = on_patterns-IsQuiet w patterns q
Step-IsQuiet w v loads_page q = load_page-IsQuiet w q

Steps-IsQuiet : (w v : Warmup) → Steps w v → IsQuiet w → IsQuiet v
Steps-IsQuiet w v done q = q
Steps-IsQuiet w v (then_step {v = u} before step) q =
    Step-IsQuiet u v step (Steps-IsQuiet w u before q)

-- However warm-ups, other requests, listeners, answers and loads of pages interleave in a session, a
-- page asks for the health once at most; where the session storage can be read and written, the
-- session does so once at most, and not before its flag is set; the patterns are never asked for more
-- often than the health; and no listener is told of a failure.
pub Steps-quiet :
    (flag : SessionFlag) (saves_data : Bool) (w : Warmup)
    → Steps (initial_warmup flag saves_data) w
    → (w.page_pings ≤ 1)
      × ((is_working w.flag ≡ false)
          ⊎ ((w.session_pings ≤ 1) × ((w.flag.is_set ≡ true) ⊎ (w.session_pings ≡ 0))))
      × (w.session_lists ≤ w.session_pings)
      × AreKind w.told
Steps-quiet flag saves_data w steps =
    let q = Steps-IsQuiet (initial_warmup flag saves_data) w steps (record {
      paged = refl;
      counted = λ working. (omega arith, λ unset. refl);
      listed = omega arith;
      kind = tt;
      kind_last = tt;
    }) in
    (
      IsPaged-few w.entry w.page_pings q.paged,
      counted_cases w.flag w.session_pings (fewer-IsCounted w.flag _ _ (omega arith) q.counted),
      omega (arith, q.listed, due_pings-due_lists w.entry),
      q.kind,
    )
