-- ===== src/Microservices/Platform/Retry/Laws.antt =====
-- What the retry loop does, for any function, any failures and any pauses.
use mathlib.Core.Path.{subst}
use native.Mathlib.Nat.{mod-eq_of_lt}
use go_basics.Common.{
  ℕ, zero, suc, ◌+◌, ◌-◌, ◌*◌, ◌%◌, ◌^◌, ◌≤◌, ◌<◌, ◌≡◌, ◌≢◌, ◌⊎◌, inl, inr, refl, ap, ◌∙◌, true,
  false, Option, none, some, [], ◌∷◌, arith, min, length, All,
}
use go_basics.Microservices.Platform.{ContextError, Failure, context, retryable}
use go_basics.Microservices.Platform.Retry.{
  RetryPolicy, Pause, Ended, succeeded, failed, panicked, backoff, Next, stop, again, after_failure,
  Retried, continue, round, retry_from, retry,
}

-- A random source that keeps `rand.Int63n`'s promise.
abbrev pub DrawsBelow : (ℕ → ℕ) → Type 0
DrawsBelow draw = (n : ℕ) → 0 < n → draw n < n

-- What `after_failure` can lead to.
after_failure_again :
    (p : RetryPolicy) (pause : Pause) (attempt : ℕ) (e : Failure) {d : ℕ}
    → after_failure p pause attempt e ≡ again d
    → (retryable e ≡ true)
      × (attempt ≢ p.max_attempts)
      × (DrawsBelow pause.draw → d ≤ p.max_backoff)
unfolding after_failure backoff
after_failure_again p pause attempt e h = (
  ground arith,
  ground arith,
  λ below. ground (arith, below (min (p.base * 2 ^ (attempt - 1) % 2 ^ 64) p.max_backoff + 1)),
)

-- Why `Do` may give up with an error: it is not worth another attempt, or the attempts are used
-- up, or the context ended.
abbrev pub Reason : RetryPolicy → ℕ → Failure → Type 0
Reason p calls e =
    (retryable e ≡ false) ⊎ (calls ≡ p.max_attempts) ⊎ ((c : ContextError) × (e ≡ context c))

after_failure_stop :
    (p : RetryPolicy) (pause : Pause) (attempt : ℕ) (e : Failure) {e' : Failure}
    → after_failure p pause attempt e ≡ stop (failed e')
    → Reason p attempt e'
unfolding after_failure
after_failure_stop p pause attempt e h = ground arith

-- A base that the doubling keeps in range.
abbrev pub InRange : RetryPolicy → Type 0
InRange p = (k : ℕ) → k < p.max_attempts → p.base * 2 ^ k < 2 ^ 63

after_failure_no_panic :
    (p : RetryPolicy) (pause : Pause) (attempt : ℕ) (e : Failure)
    → InRange p
    → 0 < attempt
    → attempt ≤ p.max_attempts
    → after_failure p pause attempt e ≢ stop panicked
unfolding after_failure backoff
after_failure_no_panic p pause attempt e fits some_attempt h =
    ground (arith, fits (attempt - 1), mod-eq_of_lt {n = p.base * 2 ^ (attempt - 1)} {m = 2 ^ 64})

module _ {S : Type 0} where
  -- What holds of a round: the three ways that it goes.
  round_cases :
      (P : Retried S → Type 0) (next : Failure → Next) (err : Option Failure) (s : S)
      (rest : Failure → S → Retried S)
      → P (record { ended = succeeded; state = s; calls = 1; waits = [] })
      → ((e : Failure) (o : Ended)
          → next e ≡ stop o
          → P (record { ended = o; state = s; calls = 1; waits = [] }))
      → ((e : Failure) (d : ℕ)
          → next e ≡ again d
          → let r = rest e s in
            P (record {
              ended = r.ended;
              state = r.state;
              calls = r.calls + 1;
              waits = d ∷ r.waits;
            }))
      → P (round next err s rest)
  unfolding round
  round_cases P next none s rest good ends goes = good
  round_cases P next (some e) s rest good ends goes = split (next e) refl
    where
      split : (n : Next) → next e ≡ n → P (continue n s (rest e))
      split (stop o) h = unfold continue in ends e o h
      split (again d) h = unfold continue in goes e d h

module _ {S : Type 0} (p : RetryPolicy) (pauses : ℕ → Pause) (fn : ℕ → S → Option Failure × S)
    (below : (n : ℕ) → DrawsBelow (pauses n).draw) where
  -- What holds of the loop from an attempt on, with this many rounds left.
  record Facts (left attempt : ℕ) (r : Retried S) : Type 0 where
    calls_le : r.calls ≤ left
    waits_le : length r.waits ≤ left - 1
    waits_short : All (λ d. d ≤ p.max_backoff) r.waits
    no_panic : InRange p → r.ended ≢ panicked
    reason : (e : Failure) → r.ended ≡ failed e → Reason p (attempt - 1 + r.calls) e

  from-Facts :
      (left attempt : ℕ) (last_err : Option Failure) (s : S)
      → attempt + left ≡ p.max_attempts + 1
      → 0 < attempt
      → Facts left attempt (retry_from p pauses fn left attempt last_err s)
  unfolding retry_from
  from-Facts zero attempt none s total h = record {
    calls_le = omega arith;
    waits_le = omega arith;
    waits_short = tt;
    no_panic = λ fits q. cc;
    reason = λ e q. cc;
  }
  from-Facts zero attempt (some last) s total h = record {
    calls_le = omega arith;
    waits_le = omega arith;
    waits_short = tt;
    no_panic = λ fits q. cc;
    reason = λ e q. inr (inl (omega arith));
  }
  from-Facts (suc left) attempt last_err s total h =
      round_cases (Facts (suc left) attempt) (after_failure p (pauses attempt) attempt)
        (fn attempt s).0 (fn attempt s).1 (λ e. retry_from p pauses fn left (attempt + 1) (some e))
        (record {
          calls_le = omega arith;
          waits_le = omega arith;
          waits_short = tt;
          no_panic = λ fits q. cc;
          reason = λ e q. cc;
        })
        (λ e o ended. record {
          calls_le = omega arith;
          waits_le = omega arith;
          waits_short = tt;
          no_panic = λ fits q.
              after_failure_no_panic p (pauses attempt) attempt e fits h (omega arith)
                (ended ∙ ap stop q);
          reason = λ e' q.
              let same : attempt - 1 + 1 ≡ attempt = omega arith in
              rw same (after_failure_stop p (pauses attempt) attempt e (ended ∙ ap stop q));
        })
        (λ e d went.
          let (worth, early, short) = after_failure_again p (pauses attempt) attempt e went in
          let f =
            from-Facts left (attempt + 1) (some e) (fn attempt s).1 (omega arith) (omega arith) in
          record {
            calls_le = omega (arith, f.calls_le);
            waits_le = omega (arith, f.waits_le, early);
            waits_short = (short (below attempt), f.waits_short);
            no_panic = f.no_panic;
            reason = λ e' q.
                let r = retry_from p pauses fn left (attempt + 1) (some e) (fn attempt s).1 in
                let same : attempt - 1 + (r.calls + 1) ≡ attempt + 1 - 1 + r.calls = omega arith in
                rw same (f.reason e' q);
          })

  -- With random draws below their bound: `Do` calls the function at most `MaxAttempts` times and
  -- waits fewer times than that, never longer than `Max`; if no doubling of the base leaves the
  -- range of `int64` it does not panic; and the error that it gives up with is not worth another
  -- attempt, or comes after `MaxAttempts` calls, or is the context's.
  pub retry_bounded :
      (s : S)
      → let r = retry p pauses fn s in
        (r.calls ≤ p.max_attempts)
        × (length r.waits ≤ p.max_attempts - 1)
        × All (λ d. d ≤ p.max_backoff) r.waits
        × (InRange p → r.ended ≢ panicked)
        × ((e : Failure) → r.ended ≡ failed e → Reason p r.calls e)
  unfolding retry
  retry_bounded s =
      let f = from-Facts p.max_attempts 1 none s (omega arith) (omega arith) in
      (
        f.calls_le,
        f.waits_le,
        f.waits_short,
        f.no_panic,
        λ e q.
            let same : 1 - 1 + (retry p pauses fn s).calls ≡ (retry p pauses fn s).calls =
              omega arith in
            subst (λ n. Reason p n e) same (f.reason e q),
      )
