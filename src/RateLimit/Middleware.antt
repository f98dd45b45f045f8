-- ===== src/RateLimit/Middleware.antt =====
-- system-design/fixed-window-counter/internal/middleware/ratelimit.go. What the handler does to the
-- response is a value; the decimal print of a header's number is the library's.
pub mod Responses
use go_basics.Common.{ℕ, ◌/◌, Bool, not, String, List, [], ◌∷◌, str_eq, max, if◌then◌else◌}
use go_basics.RateLimit.Limiter.{second, Decision, retry_after_seconds}
use go_basics.RateLimit.Service.{
  Options, Rule, Call, Service, Verdict, decided, gave_up, unavailable, check,
}

-- A header's value: text, or a number that `strconv` prints.
pub data HeaderValue : Type 0 where
  text : String → HeaderValue
  num : ℕ → HeaderValue

abbrev pub Headers : Type 0
Headers = List (String × HeaderValue)

-- What becomes of a request: `writeJSON` with the headers set and a status and message, the next
-- handler with the headers set, or nothing written at all.
pub data Reaction : Type 0 where
  write_json : Headers → ℕ → String → Reaction
  serve_next : Headers → Reaction
  silent : Reaction

-- The headers that show a decision.
abbrev pub shown : Decision → Headers
shown d =
    ("X-RateLimit-Limit", num d.limit)
    ∷ ("X-RateLimit-Remaining", num d.remaining)
    ∷ ("X-RateLimit-Reset", num (d.reset_at / second))
    ∷ []

abbrev pub degraded_headers : Headers
degraded_headers = ("X-RateLimit-Degraded", text "true") ∷ []

-- The handler's part after `Check` returned no error.
answer : Decision → Reaction
answer d =
    if d.degraded
    then serve_next degraded_headers
    else if not d.allowed
    then write_json (("Retry-After", num (max (retry_after_seconds d) 1)) ∷ shown d) 429
        "rate limit exceeded"
    else serve_next (shown d)

-- The handler's part after `Check`.
unfoldable pub react : Verdict → Reaction
unfolding answer
react (decided d) = answer d
react (unavailable cause) = write_json [] 503 "rate limiter unavailable, try again shortly"
react (gave_up e) = silent

-- The handler that `RateLimit` returns, for the value of the header X-API-Key.
unfoldable pub rate_limit : Options → Rule → Call → String → Service → Reaction × Service
unfolding react
rate_limit opts rule call key s =
    if str_eq key ""
    then (write_json [] 401 "missing X-API-Key header", s)
    else (let (verdict, s') = check opts call "api_key" key rule s in (react verdict, s'))
