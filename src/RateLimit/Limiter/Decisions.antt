-- ===== src/RateLimit/Limiter/Decisions.antt =====
-- What a decision promises to a client.
use go_basics.Common.{ℕ, ◌+◌, ◌*◌, max, ◌≤◌, ◌<◌, ◌≡◌, ◌↔◌, true, arith}
use go_basics.RateLimit.Limiter.{second, decide, retry_after_seconds}

-- A count is allowed exactly when it is at most the limit; what remains is the limit less the count,
-- stopping at 0; and an allowed request has no wait.
pub decide_lem :
    (count limit start window now : ℕ)
    → let d = decide count limit start window now in
      ((d.allowed ≡ true) ↔ (count ≤ limit))
      × (d.remaining + count ≡ max limit count)
      × (d.allowed ≡ true → d.retry_after ≡ 0)
unfolding decide
decide_lem count limit start window now = ground arith

-- For a count over the limit inside the window, `RetryAfterSeconds` is the least number of whole
-- seconds after which the window is over.
pub retry_after_seconds_exact :
    (count limit start window now : ℕ)
    → limit < count
    → now < start + window
    → let s = retry_after_seconds (decide count limit start window now) in
      (start + window ≤ now + s * second) × (now + s * second < start + window + second)
unfolding decide retry_after_seconds
retry_after_seconds_exact count limit start window now over before = ground arith
