-- ===== src/RateLimit/Middleware/Responses.antt =====
-- What a client sees, and when the next handler runs.
use go_basics.Common.{
  ℕ, ◌+◌, ◌-◌, ◌*◌, ◌/◌, ◌≤◌, ◌<◌, ◌≡◌, ◌≢◌, ◌↔◌, refl, sym, ◌∙◌, true, String, [], ◌∷◌, arith,
  eq_iff, max, Bool-cases, inl, inr,
}
use go_basics.RateLimit.Limiter.{second, Decision, decide, retry_after_seconds}
use go_basics.RateLimit.Limiter.Decisions.{retry_after_seconds_exact}
use go_basics.RateLimit.Store.{Outcome, done, failed}
use go_basics.RateLimit.Breaker.{Breaker, allow}
use go_basics.RateLimit.Service.{
  Options, Rule, Call, Service, Verdict, decided, gave_up, unavailable, increment, conclude, check,
}
use go_basics.RateLimit.Middleware.{
  num, Headers, Reaction, write_json, serve_next, shown, degraded_headers, react, rate_limit,
}

react_over :
    (count limit start window now : ℕ)
    → limit < count
    → let d = decide count limit start window now in
      react (decided d)
      ≡ write_json
          (("Retry-After", num (max (retry_after_seconds d) 1))
            ∷ ("X-RateLimit-Limit", num limit)
            ∷ ("X-RateLimit-Remaining", num 0)
            ∷ ("X-RateLimit-Reset", num ((start + window) / second))
            ∷ [])
          429
          "rate limit exceeded"
unfolding react decide
react_over count limit start window now over = ground arith

-- A count over the limit, inside the window, gets status 429 with a Retry-After of at least one
-- second; a client that waits that long asks in a later window, and one second less would still be
-- in this one, unless that is no wait at all.
pub too_many :
    (count limit start window now : ℕ)
    → limit < count
    → now < start + window
    → (r : ℕ) × (react (decided (decide count limit start window now))
        ≡ write_json
            (("Retry-After", num r)
              ∷ ("X-RateLimit-Limit", num limit)
              ∷ ("X-RateLimit-Remaining", num 0)
              ∷ ("X-RateLimit-Reset", num ((start + window) / second))
              ∷ [])
            429
            "rate limit exceeded")
      × (1 ≤ r)
      × (start + window ≤ now + r * second)
      × (now + (r - 1) * second < start + window)
too_many count limit start window now over before =
    let d = decide count limit start window now in
    let e = retry_after_seconds_exact count limit start window now over before in
    (
      max (retry_after_seconds d) 1,
      react_over count limit start window now over,
      omega arith,
      omega (arith, e.0),
      omega (arith, e.1),
    )

conclude_degraded :
    (opts : Options) (call : Call) (rule : Rule) (out : Outcome) (b : Breaker) (d : Decision)
    → (conclude opts call rule out b).0 ≡ decided d
    → d.degraded ≡ true
    → d.allowed ≡ true
unfolding conclude decide
conclude_degraded opts call rule (done r) b d h g = ground arith
conclude_degraded opts call rule (failed e) b d h g = ground arith

check_degraded :
    (opts : Options) (call : Call) (key : String) (rule : Rule) (s : Service) (d : Decision)
    → (check opts call "api_key" key rule s).0 ≡ decided d
    → d.degraded ≡ true
    → d.allowed ≡ true
unfolding check
check_degraded opts call key rule s d h g =
    let tried = increment opts call.attempts "api_key" key rule.window s.table in
    ground
      (arith, conclude_degraded opts call rule tried.outcome (allow call.asked_at s.breaker).1 d)

-- The next handler runs with these or those headers.
abbrev pub Runs : Reaction → Type 0
Runs r = (hs : Headers) × (r ≡ serve_next hs)

answer-Runs : (d : Decision) → d.allowed ≡ true → Runs (react (decided d))
unfolding react
answer-Runs d h = elim (Bool-cases d.degraded) [
  | inl e ↦ (degraded_headers, ground arith)
  | inr e ↦ (shown d, ground arith)
]

react-Runs :
    (v : Verdict)
    → ((d : Decision) → v ≡ decided d → d.degraded ≡ true → d.allowed ≡ true)
    → Runs (react v) ↔ ((d : Decision) × (v ≡ decided d) × (d.allowed ≡ true))
unfolding react
react-Runs (decided d) ok =
    (λ r. (d, refl, ground (arith, ok d refl)), λ p. answer-Runs d (ground (arith, p.1)))
react-Runs (gave_up e) ok = (λ r. absurd (ground arith), λ p. absurd (ground arith))
react-Runs (unavailable c) ok = (λ r. absurd (ground arith), λ p. absurd (ground arith))

-- With an API key the next handler runs exactly when `Check` decides that the request is allowed;
-- without one it does not run, and neither the breaker nor the table is touched.
pub rate_limit-Runs :
    (opts : Options) (rule : Rule) (call : Call) (key : String) (s : Service)
    → (key ≢ ""
        → Runs (rate_limit opts rule call key s).0 ↔ (
            (d : Decision) × ((check opts call "api_key" key rule s).0 ≡ decided d)
            × (d.allowed ≡ true)))
      × (key ≡ ""
          → (rate_limit opts rule call key s ≡ (write_json [] 401 "missing X-API-Key header", s)))
unfolding rate_limit
rate_limit-Runs opts rule call key s =
    let v = (check opts call "api_key" key rule s).0 in
    let r = react-Runs v (check_degraded opts call key rule s) in
    (
      λ some_key.
          let e : (rate_limit opts rule call key s).0 ≡ react v = ground (arith, eq_iff key "") in
          (λ x. r.0 (x.0, sym e ∙ x.1), λ p. let x = r.1 p in (x.0, e ∙ x.1)),
      λ no_key. ground (arith, eq_iff key ""),
    )
