-- ===== src/ApiClient/Policy.antt =====
-- How often a request is sent, which answer it settles with, and what is reported meanwhile.
use sewn_covers.Prelude.{
  ℕ, zero, suc, ◌+◌, ◌≤◌, ◌<◌, Bool, true, false, List, [], ◌∷◌, ◌++◌, ◌≡◌, ◌⊎◌, inl, inr, refl,
  sym, ap, subst, ◌∙◌, arith, Bool-cases,
}
use sewn_covers.ApiClient.Types.{ApiRequestStatus, connecting, retrying}
use sewn_covers.ApiClient.Request.{
  Method, post, SendOutcome, api_retry_limit, Outcome, received, failed, RequestDefinition,
  should_retry, Run, perform_attempt, final_status, ended, after_retry, retry_or_end, attempts_from,
  cold_start_statuses, request,
}

-- The statuses of so many retries from a number on, and the last one.
abbrev pub retry_statuses : ℕ → ℕ → ApiRequestStatus → List ApiRequestStatus
retry_statuses retry zero last = last ∷ []
retry_statuses retry (suc n) last = retrying (suc retry) ∷ retry_statuses (suc retry) n last

module _ {Body : Type 0} where
  abbrev pub is_retried : Method → Outcome Body → Bool
  is_retried method (received body) = false
  is_retried method (failed e) = should_retry method e

  -- A run that starts at the attempt `retry`, may retry `left` times, and reports `before` first.
  pub record IsPolicy (definition : RequestDefinition Body) (send : ℕ → SendOutcome)
      (left retry : ℕ) (before : List ApiRequestStatus) (run : Run Body) : Type 0 where
    pub extra : ℕ
    pub counted : run.attempts ≡ suc extra
    pub within : extra ≤ left
    pub settled : run.outcome ≡ perform_attempt definition (send (extra + retry))
    pub retried :
        (k : ℕ)
        → k < extra
        → is_retried definition.method (perform_attempt definition (send (k + retry))) ≡ true
    pub stopped : (extra ≡ left) ⊎ (is_retried definition.method run.outcome ≡ false)
    pub reported : run.statuses ≡ before ++ retry_statuses retry extra (final_status run.outcome)

  module _ (definition : RequestDefinition Body) (send : ℕ → SendOutcome) where
    abbrev attempt : ℕ → Outcome Body
    attempt n = perform_attempt definition (send n)

    ended-IsPolicy :
        (left retry : ℕ) (o : Outcome Body)
        → attempt retry ≡ o
        → (0 ≡ left) ⊎ (is_retried definition.method o ≡ false)
        → IsPolicy definition send left retry [] (ended o)
    ended-IsPolicy left retry o same h = record {
      extra = 0;
      counted = refl;
      within = omega arith;
      settled = let zero_add : retry ≡ 0 + retry = omega arith in sym same ∙ ap attempt zero_add;
      retried = λ k less. absurd (omega arith);
      stopped = h;
      reported = refl;
    }

    retried_below :
        (n retry : ℕ)
        → is_retried definition.method (attempt retry) ≡ true
        → ((k : ℕ) → k < n → is_retried definition.method (attempt (k + suc retry)) ≡ true)
        → (k : ℕ) → k < suc n
        → is_retried definition.method (attempt (k + retry)) ≡ true
    retried_below n retry first rest zero less =
        let zero_add : retry ≡ 0 + retry = omega arith in
        subst (λ m. is_retried definition.method (attempt m) ≡ true) zero_add first
    retried_below n retry first rest (suc k) less =
        let same : k + suc retry ≡ suc k + retry = omega arith in
        subst (λ m. is_retried definition.method (attempt m) ≡ true) same (rest k (omega arith))

    after_retry-IsPolicy :
        (left retry : ℕ) (run : Run Body)
        → is_retried definition.method (attempt retry) ≡ true
        → IsPolicy definition send left (suc retry) [] run
        → IsPolicy definition send (suc left) retry [] (after_retry (suc retry) run)
    after_retry-IsPolicy left retry run first p = record {
      extra = suc p.extra;
      counted = ap suc p.counted;
      within = let w : p.extra ≤ left = p.within in omega arith;
      settled =
          let same : p.extra + suc retry ≡ suc p.extra + retry = omega arith in
          p.settled ∙ ap attempt same;
      retried = retried_below p.extra retry first p.retried;
      stopped = elim p.stopped [ inl full ↦ inl (ap suc full) | inr over ↦ inr over ];
      reported = ap (λ rest. retrying (suc retry) ∷ rest) p.reported;
    }

    retry_or_end-IsPolicy :
        (left retry : ℕ) (o : Outcome Body) (next : Run Body)
        → attempt retry ≡ o
        → IsPolicy definition send left (suc retry) [] next
        → IsPolicy definition send (suc left) retry [] (retry_or_end definition.method o retry next)
    retry_or_end-IsPolicy left retry (received body) next same p =
        ended-IsPolicy (suc left) retry (received body) same (inr refl)
    retry_or_end-IsPolicy left retry (failed e) next same p =
        elim (Bool-cases (should_retry definition.method e)) [
          | inl again ↦ rw again (after_retry-IsPolicy left retry next (rw same again) p)
          | inr over ↦ rw over (ended-IsPolicy (suc left) retry (failed e) same (inr over))
        ]

    attempts-IsPolicy :
        (left retry : ℕ)
        → IsPolicy definition send left retry [] (attempts_from definition send left retry)
    unfolding attempts_from
    attempts-IsPolicy zero retry = ended-IsPolicy 0 retry (attempt retry) refl (inl refl)
    attempts-IsPolicy (suc left) retry =
        retry_or_end-IsPolicy left retry (attempt retry)
          (attempts_from definition send left (suc retry)) refl (attempts-IsPolicy left (suc retry))

    -- A request is sent at most three times, each time but the last with a failure that may be
    -- retried. It settles as its last attempt does, which is the third or is not retried; it reports
    -- connecting, the cold start if the timer ran out, each retry with its number, and at the end the
    -- status of what it settled with.
    pub request-IsPolicy :
        (slow : Bool)
        → IsPolicy definition send 2 0
            (connecting ∷ cold_start_statuses slow)
            (request definition send slow)
    unfolding request api_retry_limit
    request-IsPolicy slow =
        let p = attempts-IsPolicy 2 0 in
        record {
          extra = p.extra;
          counted = p.counted;
          within = p.within;
          settled = p.settled;
          retried = p.retried;
          stopped = p.stopped;
          reported = ap (λ rest. connecting ∷ (cold_start_statuses slow ++ rest)) p.reported;
        }

    -- A POST request is sent exactly once, and settles as that attempt does.
    pub request-post :
        (slow : Bool)
        → definition.method ≡ post
        → ((request definition send slow).attempts ≡ 1)
          × ((request definition send slow).outcome ≡ perform_attempt definition (send 0))
    unfolding request api_retry_limit
    request-post slow h =
        let p = attempts-IsPolicy 2 0 in
        let never : p.extra ≡ 0 = no_retry p.extra p.retried in
        (p.counted ∙ ap suc never, p.settled ∙ ap (λ n. attempt (n + 0)) never)
      where
        not_retried : (o : Outcome Body) → is_retried definition.method o ≡ false
        not_retried (received body) = refl
        not_retried (failed e) = rw (h, should_retry) refl

        no_retry :
            (n : ℕ)
            → ((k : ℕ)
                → k < n
                → is_retried definition.method (perform_attempt definition (send (k + 0))) ≡ true)
            → n ≡ 0
        no_retry zero f = refl
        no_retry (suc n) f =
            let yes = f 0 (omega arith) in
            let no = not_retried (perform_attempt definition (send (0 + 0))) in cc
