-- ===== src/RateLimit/Tests.antt =====
-- Concrete runs of the limiter of system-design/fixed-window-counter.
use go_basics.Common.{
  ◌⊎◌, List, length, ℕ, zero, suc, ◌+◌, ◌-◌, ◌≤◌, ◌<◌, ◌≡◌, ◌≢◌, ◌↔◌, refl, true, false, String,
  none, some, [], ◌∷◌, arith, All, max, replicate, map, str_eq, if◌then◌else◌,
}
use go_basics.Common.Dict.{lookup, insert}
use go_basics.RateLimit.Limiter.{window_start, Decision, decide}
use go_basics.RateLimit.Limiter.Windows.{contains_now}
use go_basics.RateLimit.Limiter.Decisions.{decide_lem}
use go_basics.RateLimit.Store.{
  Failure, answered, unsent, sql_window_start, count_of, known_scope, increment_sql, bump,
  increment as store_increment,
}
use go_basics.RateLimit.Store.Counts.{slot}
use go_basics.RateLimit.Breaker.{
  Breaker, state_open, state_half_open, new_breaker, asked, broke, released, run, answers, allow,
  failure,
}
use go_basics.RateLimit.Breaker.Invariant.{IsSound, run-new_breaker-IsSound}
use go_basics.RateLimit.Breaker.Traces.{one_probe, never_stuck}
use go_basics.RateLimit.Service.{
  Rule, Options, Attempt, Call, Service, Cause, decided, unavailable, increment, increment_from,
  after_attempt, finish, retryable, check,
}
use go_basics.RateLimit.Service.Attempts.{increment_counts}
use go_basics.RateLimit.Service.Verdicts.{IsCounted, check_policy, check_settles}
use go_basics.RateLimit.Config.{Environment, load, loaded, read_config}
use go_basics.RateLimit.Config.Accepted.{IsSoundConfig, IsReadAs, load_iff}
use go_basics.RateLimit.Service.Limit.{Arrival, let_through, let_through-le}

abbrev minute : ℕ
minute = 60_000_000_000

abbrev noon : ℕ
noon = 1_700_000_000_000_000_000

abbrev options : Options
options = record {
  fail_open = true;
  call_timeout = 200_000_000;
  max_attempts = 3;
  base_backoff = 20_000_000;
  breaker_threshold = 2;
  breaker_cooldown = 10_000_000_000;
}

abbrev reset : Failure
reset = record {
  deadline_exceeded = false;
  unexpected_eof = true;
  pg_code = none;
  net_error = false;
  safe_to_retry = false;
}

abbrev counted_at : ℕ → Attempt
counted_at at = record { reply = answered at; ctx_err = none; draw = λ n. 0; sleep_err = none }

abbrev broken : Attempt
broken = record { reply = unsent reset; ctx_err = none; draw = λ n. 0; sleep_err = none }

-- The first attempt fails.
abbrev flaky : ℕ → ℕ → Attempt
flaky at zero = counted_at at
flaky at (suc zero) = broken
flaky at (suc (suc n)) = counted_at at

abbrev call_at : ℕ → Call
call_at at = record { asked_at = at; attempts = flaky at; ctx_err = none; finished_at = at }

-- The client hung up, and no attempt reaches the database.
abbrev gone_at : ℕ → Call
gone_at at = record {
  asked_at = at;
  attempts = λ n. broken;
  ctx_err = some reset;
  finished_at = at;
}

abbrev rule : Rule
rule = record { limit = 2; window = minute }

abbrev fresh : Service
fresh = record { breaker = new_breaker 2 10_000_000_000; table = [] }

abbrev tripped : Breaker
tripped = record (new_breaker 2 10_000_000_000) { state = state_open; opened_at = noon }

abbrev visit : ℕ → Arrival
visit at = record { scope_type = "api_key"; scope_key = "k"; call = call_at at }

let_through-le_example :
    let_through options (λ k. rule) "api_key" "k" 0 (visit 1 ∷ visit 2 ∷ visit 3 ∷ []) fresh
    ≤ 2 - count_of [] (slot "api_key" "k" 0)
let_through-le_example =
    let_through-le options (λ k. rule) (visit 1 ∷ visit 2 ∷ visit 3 ∷ []) "api_key" "k" 0 fresh
      (omega arith)

check_policy_example :
    (options.fail_open ≡ true
      → (c : Cause) → (check options (call_at 7) "api_key" "k" rule fresh).0 ≢ unavailable c)
    × ((d : Decision)
        → (check options (call_at 7) "api_key" "k" rule fresh).0 ≡ decided d
        → IsCounted "api_key" "k" rule d fresh.table
            (check options (call_at 7) "api_key" "k" rule fresh).1.table
          ⊎ ((options.fail_open ≡ true) × (d.degraded ≡ true)))
check_policy_example = check_policy options (call_at 7) "api_key" "k" rule fresh (omega arith)

abbrev open_service : Service
open_service = record { breaker = tripped; table = [] }

check_settles_example :
    (check options
      (call_at (noon + 20_000_000_000))
      "api_key"
      "k"
      rule
      open_service).1.breaker.probing
    ≡ false
unfolding new_breaker
check_settles_example =
    check_settles options (call_at (noon + 20_000_000_000)) "api_key" "k" rule open_service refl

increment_counts_example :
    let s = slot "api_key" "k" 0 in
    (count_of [] s + 1 ≤ 1)
    × (count_of (increment options (flaky 7) "api_key" "k" minute []).table s ≡ 1)
unfolding increment increment_from store_increment after_attempt finish retryable known_scope
    increment_sql bump sql_window_start lookup insert count_of
increment_counts_example =
    increment_counts options (flaky 7) "api_key" "k" minute []
      {c = record { count = 1; window_start = 0; now = 7 }} (omega arith) refl

flaky_draws : (n m : ℕ) → 0 < m → (flaky 7 n).draw m < m
flaky_draws zero m h = h
flaky_draws (suc zero) m h = h
flaky_draws (suc (suc n)) m h = h

contains_now_example :
    (1_699_999_980_000_000_000 ≤ noon) × (noon < 1_699_999_980_000_000_000 + minute)
unfolding window_start
contains_now_example = contains_now noon minute {w = 1_699_999_980_000_000_000} refl

decide_lem_example :
    let d = decide 3 2 0 minute 7 in
    ((d.allowed ≡ true) ↔ (3 ≤ 2))
    × (d.remaining + 3 ≡ max 2 3)
    × (d.allowed ≡ true → d.retry_after ≡ 0)
decide_lem_example = decide_lem 3 2 0 minute 7

run-new_breaker-IsSound_example :
    IsSound (run (asked 1 ∷ broke 2 ∷ asked 3 ∷ broke 4 ∷ asked 20 ∷ []) (new_breaker 2 10))
run-new_breaker-IsSound_example =
    run-new_breaker-IsSound (asked 1 ∷ broke 2 ∷ asked 3 ∷ broke 4 ∷ asked 20 ∷ []) 2 10

one_probe_example :
    (answers (asked (noon + 10_000_000_000) ∷ map asked ((noon + 10_000_000_001) ∷ [])) tripped
      ≡ true ∷ replicate 1 false)
    × ((run
          (asked (noon + 10_000_000_000) ∷ map asked ((noon + 10_000_000_001) ∷ []))
          tripped).state
        ≡ state_half_open)
unfolding new_breaker
one_probe_example =
    one_probe (noon + 10_000_000_000) ((noon + 10_000_000_001) ∷ []) tripped refl (omega arith)

never_stuck_example :
    let b = run (asked 1 ∷ broke 2 ∷ asked 20 ∷ []) (new_breaker 1 10) in
    ((now : ℕ) → 2 + 10 ≤ now → (allow now (run (released ∷ []) b)).0 ≡ true)
    × ((t now : ℕ) (early : List ℕ)
        → b.state ≢ state_open
        → (failure t b).state ≡ state_open
        → All (λ u. u < t + 10) early
        → t + 10 ≤ now
        → (answers (broke t ∷ map asked early) b ≡ replicate (length early) false)
          × ((allow now (run (broke t ∷ map asked early) b)).0 ≡ true))
never_stuck_example =
    never_stuck (asked 1 ∷ broke 2 ∷ asked 20 ∷ []) 1 10 2
      (λ t e. cc, (λ t e. ground arith, (λ t e. cc, tt)))

abbrev key : String
key = "k"

-- Only the database's URL is set.
abbrev environment : Environment
environment = record {
  getenv = λ key. if str_eq key "DATABASE_URL" then "postgres://db" else "";
  atoi = λ v. none;
  parse_bool = λ v. none;
  parse_duration = λ v. none;
}

load_iff_example :
    (load environment ≡ loaded (read_config environment))
    ↔ (IsReadAs environment (read_config environment) × IsSoundConfig (read_config environment))
load_iff_example = load_iff environment (read_config environment)
