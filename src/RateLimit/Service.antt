-- ===== src/RateLimit/Service.antt =====
-- system-design/fixed-window-counter/internal/service/service.go: per-attempt timeout, bounded
-- retry with backoff, circuit breaker, and the policy for an unreachable counter. What the
-- database, the context, the clock and the random source do during a call is an argument.
pub mod Backoff
pub mod Attempts
pub mod Limit
pub mod Verdicts
use text.Mathlib.Text.{starts_with}
use go_basics.Common.{
  ℕ, zero, suc, ◌+◌, ◌-◌, ◌*◌, ◌%◌, ◌^◌, Bool, true, false, not, ◌||◌, String, Option, none, some,
  List, [], ◌∷◌, str_eq, ltb, leb, ◌==◌, min, if◌then◌else◌,
}
use go_basics.RateLimit.Limiter.{second, Decision, decide}
use go_basics.RateLimit.Store.{
  Table, Counted, Failure, Outcome, done, failed, Reply, increment as store_increment,
}
use go_basics.RateLimit.Breaker.{Breaker, allow, success, failure, release}

-- `config.Rule`.
pub record Rule : Type 0 where
  pub limit : ℕ
  pub window : ℕ

-- `Options`, less the test hooks.
pub record Options : Type 0 where
  pub fail_open : Bool
  pub call_timeout : ℕ
  pub max_attempts : ℕ
  pub base_backoff : ℕ
  pub breaker_threshold : ℕ
  pub breaker_cooldown : ℕ

-- `retryable`.
unfoldable pub retryable : Failure → Bool
retryable e = if e.deadline_exceeded || e.unexpected_eof then true else elim e.pg_code [
  | some code ↦
      if str_eq code "40001" || str_eq code "40P01" || str_eq code "57P03" || str_eq code "53300"
      then true
      else starts_with code "08"
  | none ↦ e.net_error || e.safe_to_retry
]

-- `backoff`. The shift is that of an `int64`, as a bit pattern: 2^63 and above is negative, and
-- gives 0. `draw n` is `rand.Int64N(n)`, a number below `n`.
unfoldable pub backoff : Options → (ℕ → ℕ) → ℕ → ℕ
backoff opts draw attempt =
    let shifted = opts.base_backoff * 2 ^ (attempt - 1) % 2 ^ 64 in
    let d = if ltb shifted (2 ^ 63) then min shifted second else 0 in
    if leb d 0 then 0 else draw (d + 1)

-- What happens outside during one attempt: the database's reply, `ctx.Err()` after it, the random
-- source, and how the sleep before the next attempt ends.
pub record Attempt : Type 0 where
  pub reply : Reply
  pub ctx_err : Option Failure
  pub draw : ℕ → ℕ
  pub sleep_err : Option Failure

-- What `increment` returns, the table it leaves, the delays it slept and the calls it made.
pub record Attempted : Type 0 where
  pub outcome : Outcome
  pub table : Table
  pub delays : List ℕ
  pub calls : ℕ

-- `store.Result{}`, which is returned with no error when `MaxAttempts` is below 1. Its instants are
-- before the epoch; config.go refuses such a setting.
abbrev pub zero_result : Counted
zero_result = record { count = 0; window_start = 0; now = 0 }

abbrev with_last : Option Failure → Outcome
with_last none = done zero_result
with_last (some e) = failed e

abbrev is_some {ℓ} : {A : Type ℓ} → Option A → Bool
is_some none = false
is_some (some a) = true

-- How a round of the loop ends: it returns, after these sleeps, or goes on to the next attempt
-- after a sleep and an error.
pub data Next : Type 0 where
  stop : List ℕ → Outcome → Next
  again : ℕ → Failure → Next

-- The rest of a round, once the attempt has its outcome.
unfoldable pub after_attempt : Options → Attempt → ℕ → Outcome → Next
after_attempt opts a attempt (done r) = stop [] (done r)
after_attempt opts a attempt (failed e) =
    if is_some a.ctx_err || not (retryable e) || attempt == opts.max_attempts
    then stop [] (failed e)
    else elim a.sleep_err [
      | some e' ↦ stop (backoff opts a.draw attempt ∷ []) (failed e')
      | none ↦ again (backoff opts a.draw attempt) e
    ]

-- The round's end: the last word, or the sleep and then the rest of the loop.
unfoldable pub finish : Next → Table → (Failure → Attempted) → Attempted
finish (stop ds o) t rest = record { outcome = o; table = t; delays = ds; calls = 1 }
finish (again d e) t rest =
    let r = rest e in
    record { outcome = r.outcome; table = r.table; delays = d ∷ r.delays; calls = r.calls + 1 }

module _ (opts : Options) (attempts : ℕ → Attempt) (scope_type scope_key : String)
    (window : ℕ) where
  -- The loop of `increment`, with the rounds that are left, the next attempt's number and
  -- `lastErr`.
  unfoldable pub increment_from : ℕ → ℕ → Option Failure → Table → Attempted
  increment_from zero attempt last_err t = record {
    outcome = with_last last_err;
    table = t;
    delays = [];
    calls = 0;
  }
  increment_from (suc left) attempt last_err t =
      let a = attempts attempt in
      let (out, t') = store_increment a.reply scope_type scope_key window t in
      finish (after_attempt opts a attempt out) t'
        (λ e. increment_from left (attempt + 1) (some e) t')

  -- `increment`: attempts 1 to `MaxAttempts`.
  unfoldable pub increment : Table → Attempted
  increment t = increment_from opts.max_attempts 1 none t

-- Why a request is not counted.
pub data Cause : Type 0 where
  breaker_open : Cause
  uncounted : Failure → Cause

-- What `Check` returns: a decision, `ctx.Err()`, or ErrUnavailable joined with its cause.
pub data Verdict : Type 0 where
  decided : Decision → Verdict
  gave_up : Failure → Verdict
  unavailable : Cause → Verdict

-- `degrade`.
unfoldable pub degrade : Options → Rule → Cause → Verdict
degrade opts rule cause =
    if opts.fail_open
    then decided (record {
      allowed = true;
      limit = rule.limit;
      remaining = 0;
      reset_at = 0;
      retry_after = 0;
      degraded = true;
    })
    else unavailable cause

-- What happens outside during one call of `Check`: the breaker's clock at `Allow`, each attempt,
-- `ctx.Err()` after the last, and the breaker's clock at `Failure`.
pub record Call : Type 0 where
  pub asked_at : ℕ
  pub attempts : ℕ → Attempt
  pub ctx_err : Option Failure
  pub finished_at : ℕ

-- The state that requests share: the breaker and the database's table.
pub record Service : Type 0 where
  pub breaker : Breaker
  pub table : Table

-- The `switch` after `increment`.
unfoldable pub conclude : Options → Call → Rule → Outcome → Breaker → Verdict × Breaker
unfolding degrade
conclude opts call rule (done r) b =
    (decided (decide r.count rule.limit r.window_start rule.window r.now), success b)
conclude opts call rule (failed e) b = elim call.ctx_err [
  | some gone ↦ (gave_up gone, release b)
  | none ↦
      if retryable e
      then (degrade opts rule (uncounted e), failure call.finished_at b)
      else (degrade opts rule (uncounted e), success b)
]

-- `Check`.
unfoldable pub check : Options → Call → String → String → Rule → Service → Verdict × Service
unfolding degrade
check opts call scope_type scope_key rule s =
    let (granted, b) = allow call.asked_at s.breaker in
    if granted
    then (let tried = increment opts call.attempts scope_type scope_key rule.window s.table in
        let (verdict, b') = conclude opts call rule tried.outcome b in
        (verdict, record { breaker = b'; table = tried.table }))
    else (degrade opts rule breaker_open, record s { breaker = b })
