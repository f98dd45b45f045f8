-- ===== src/RateLimit/Limiter.antt =====
-- system-design/fixed-window-counter/internal/limiter/limiter.go. An instant is the number of
-- nanoseconds since the Unix epoch, a `time.Duration` one of nanoseconds; limits and counts are
-- natural numbers, since config.go refuses a limit below 1 and a row's count is never negative.
pub mod Windows
pub mod Decisions
use go_basics.Common.{
  ℕ, ◌+◌, ◌-◌, ◌*◌, ◌/◌, ◌%◌, Bool, false, not, Option, none, some, leb, ◌==◌, if◌then◌else◌,
}

-- `time.Second`.
abbrev pub second : ℕ
second = 1_000_000_000

-- `WindowStart`. A window under one second makes `size` 0, and `secs%size` panics: `none`.
unfoldable pub window_start : ℕ → ℕ → Option ℕ
window_start now window =
    let size = window / second in
    let secs = now / second in if size == 0 then none else some ((secs - secs % size) * second)

-- `Decision`.
pub record Decision : Type 0 where
  pub allowed : Bool
  pub limit : ℕ
  pub remaining : ℕ
  pub reset_at : ℕ
  pub retry_after : ℕ
  pub degraded : Bool

-- `Decide`. Subtraction on ℕ stops at 0, as `max(…, 0)` does in the source.
unfoldable pub decide : ℕ → ℕ → ℕ → ℕ → ℕ → Decision
decide count limit start window now =
    let reset_at = start + window in
    let allowed = leb count limit in
    record {
      allowed = allowed;
      limit = limit;
      remaining = limit - count;
      reset_at = reset_at;
      retry_after = if not allowed then reset_at - now else 0;
      degraded = false;
    }

-- `RetryAfterSeconds`.
unfoldable pub retry_after_seconds : Decision → ℕ
retry_after_seconds d = if leb d.retry_after 0 then 0 else (d.retry_after + second - 1) / second
