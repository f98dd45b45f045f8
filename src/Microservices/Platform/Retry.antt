-- ===== src/Microservices/Platform/Retry.antt =====
-- `RetryPolicy.Do` of 63_microservices/internal/platform/resilience.go. The function that is
-- retried changes a state of any type. Durations are natural numbers of nanoseconds.
pub mod Laws
pub mod Recovery
use go_basics.Common.{
  ℕ, zero, suc, ◌+◌, ◌-◌, ◌*◌, ◌%◌, ◌^◌, Bool, true, false, Option, none, some, List, [], ◌∷◌, ltb,
  ◌==◌, min, if◌then◌else◌,
}
use go_basics.Microservices.Platform.{ContextError, Failure, context, retryable}

-- `RetryPolicy`.
pub record RetryPolicy : Type 0 where
  pub max_attempts : ℕ
  pub base : ℕ
  pub max_backoff : ℕ

-- `DefaultRetry`.
abbrev pub default_retry : RetryPolicy
default_retry = record { max_attempts = 3; base = 50_000_000; max_backoff = 500_000_000 }

-- What happens outside after a failed attempt: the random source, where `draw n` is
-- `rand.Int63n(n)`, and `ctx.Err()` if the context ends before the wait does.
pub record Pause : Type 0 where
  pub draw : ℕ → ℕ
  pub ended : Option ContextError

-- How `Do` ends. `panicked` is `rand.Int63n` of a number that is not positive.
pub data Ended : Type 0 where
  succeeded : Ended
  failed : Failure → Ended
  -- no attempt was allowed: the error wraps nil
  nothing_tried : Ended
  panicked : Ended

-- The backoff after an attempt: the shift is that of an `int64`, as a bit pattern, so from 2^63 on
-- it is negative and the smaller of the two: `none`.
unfoldable pub backoff : RetryPolicy → ℕ → Option ℕ
backoff p attempt =
    let shifted = p.base * 2 ^ (attempt - 1) % 2 ^ 64 in
    if ltb shifted (2 ^ 63) then some (min shifted p.max_backoff) else none

-- What a failed attempt leads to: an end, or a wait and another attempt.
pub data Next : Type 0 where
  stop : Ended → Next
  again : ℕ → Next

-- The end of the loop: `exhausted … attempts`, with the last error wrapped.
abbrev pub exhausted : Option Failure → Ended
exhausted none = nothing_tried
exhausted (some e) = failed e

-- The loop's body after `fn` returned an error.
unfoldable pub after_failure : RetryPolicy → Pause → ℕ → Failure → Next
after_failure p pause attempt e =
    if retryable e
    then if attempt == p.max_attempts then stop (failed e) else elim (backoff p attempt) [
      | none ↦ stop panicked
      | some d ↦ elim pause.ended [
        | some c ↦ stop (failed (context c))
        | none ↦ again (pause.draw (d + 1))
      ]
    ]
    else stop (failed e)

-- What `Do` leaves: how it ended, the state, the number of calls of `fn` and the waits.
pub record Retried (S : Type 0) : Type 0 where
  pub ended : Ended
  pub state : S
  pub calls : ℕ
  pub waits : List ℕ

module _ {S : Type 0} where
  -- The rest of a round, after a failed attempt.
  unfoldable pub continue : Next → S → (S → Retried S) → Retried S
  continue (stop o) s rest = record { ended = o; state = s; calls = 1; waits = [] }
  continue (again d) s rest =
      let r = rest s in
      record { ended = r.ended; state = r.state; calls = r.calls + 1; waits = d ∷ r.waits }

  -- A round, after `fn` returned.
  unfoldable pub round :
      (Failure → Next) → Option Failure → S → (Failure → S → Retried S) → Retried S
  round next none s rest = record { ended = succeeded; state = s; calls = 1; waits = [] }
  round next (some e) s rest = continue (next e) s (rest e)

module _ {S : Type 0} (p : RetryPolicy) (pauses : ℕ → Pause) (fn : ℕ → S → Option Failure × S) where
  -- The loop, with the rounds that are left, the next attempt's number and `lastErr`.
  unfoldable pub retry_from : ℕ → ℕ → Option Failure → S → Retried S
  retry_from zero attempt last_err s = record {
    ended = exhausted last_err;
    state = s;
    calls = 0;
    waits = [];
  }
  retry_from (suc left) attempt last_err s =
      let (err, s') = fn attempt s in
      round (after_failure p (pauses attempt) attempt) err s'
        (λ e. retry_from left (attempt + 1) (some e))

  -- `Do`: attempts 1 to `MaxAttempts`.
  unfoldable pub retry : S → Retried S
  retry s = retry_from p.max_attempts 1 none s
