-- ===== src/Tests/Warmup.antt =====
-- The warm-up of the service: frontend/services/api-warmup.ts.
use sewn_covers.Prelude.{◌≤◌, true, false, [], ◌∷◌, ◌≡◌, ◌⊎◌, refl}
use sewn_covers.ApiClient.{connecting}
use sewn_covers.Warmup.{
  SessionFlag, Warmup, start_api_warmup, await_warm_patterns, forward, on_client, on_health,
  load_page, initial_warmup, Steps, done, then_step, starts, awaits, loads_client, reports,
  answers_health, loads_page,
}
use sewn_covers.Warmup.Counts.{is_working, AreKind}
use sewn_covers.Warmup.Invariant.{Steps-quiet}

abbrev working_flag : SessionFlag
working_flag = record { is_readable = true; is_writable = true; is_set = false }

-- A page wakes the service, a listener joins, the patterns are asked for; then a second page loads.
abbrev joined : Warmup
joined = (await_warm_patterns 7 (start_api_warmup (initial_warmup working_flag false))).1

abbrev asked : Warmup
asked = forward connecting (on_client joined.entry true joined)

abbrev listing : Warmup
listing = on_health asked.entry true asked

abbrev second_page : Warmup
second_page = start_api_warmup (load_page listing)

warmup_run : Steps (initial_warmup working_flag false) second_page
warmup_run =
    then_step
      (then_step
        (then_step
          (then_step (then_step (then_step (then_step done starts) (awaits 7)) (loads_client true))
            (reports connecting))
          (answers_health true))
        loads_page)
      starts

second_page_runs :
    (second_page.session_pings ≡ 1)
    × (second_page.session_lists ≡ 1)
    × (second_page.page_pings ≡ 0)
    × (second_page.told ≡ (7, connecting) ∷ [])
unfolding start_api_warmup await_warm_patterns forward
second_page_runs = (refl, refl, refl, refl)

Steps-quiet_example :
    (second_page.page_pings ≤ 1)
    × ((is_working second_page.flag ≡ false)
        ⊎ ((second_page.session_pings ≤ 1)
            × ((second_page.flag.is_set ≡ true) ⊎ (second_page.session_pings ≡ 0))))
    × (second_page.session_lists ≤ second_page.session_pings)
    × AreKind second_page.told
Steps-quiet_example = Steps-quiet working_flag false second_page warmup_run
