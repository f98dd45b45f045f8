-- ===== src/RateLimit/Service/Limit.antt =====
-- The promise of the limiter: how many requests it lets through in one window.
use go_basics.Common.{
  ℕ, suc, ◌+◌, ◌-◌, ◌≤◌, ◌<◌, ◌≡◌, refl, Bool, true, false, not, ◌&&◌, String, List, [], ◌∷◌, arith,
  inl, inr, ◌==◌, str_eq, eq_iff, Bool-cases, if◌then◌else◌,
}
use go_basics.RateLimit.Limiter.{decide}
use go_basics.RateLimit.Store.{Counted, Outcome, done, failed, Slot, count_of}
use go_basics.RateLimit.Store.Counts.{slot}
use go_basics.RateLimit.Breaker.{Breaker, allow}
use go_basics.RateLimit.Service.{
  Options, Rule, Call, Service, Verdict, decided, gave_up, unavailable, increment, degrade,
  conclude, check,
}
use go_basics.RateLimit.Service.Attempts.{increment_keeps, increment_counts}

-- The verdict lets the request through, counted, in the window that ends at this instant.
pub lets_through : ℕ → Verdict → Bool
lets_through end (decided d) = d.allowed && not d.degraded && d.reset_at == end
lets_through end (gave_up e) = false
lets_through end (unavailable c) = false

conclude_through :
    (opts : Options) (call : Call) (rule : Rule) (w : ℕ) (out : Outcome) (b : Breaker)
    → lets_through (w + rule.window) (conclude opts call rule out b).0 ≡ true
    → (c : Counted) × (out ≡ done c) × (c.count ≤ rule.limit) × (c.window_start ≡ w)
unfolding lets_through conclude decide
conclude_through opts call rule w (done r) b h = (r, refl, ground arith, ground arith)
conclude_through opts call rule w (failed e) b h = absurd (ground arith)

module _ (opts : Options) (call : Call) (scope_type scope_key : String) (rule : Rule)
    (s : Service) where
  abbrev after : Verdict × Service
  after = check opts call scope_type scope_key rule s

  check_keeps : (j : Slot) → count_of s.table j ≤ count_of after.1.table j
  unfolding check
  check_keeps j =
      ground (arith, increment_keeps opts call.attempts scope_type scope_key rule.window s.table j)

  check_through :
      (w : ℕ)
      → 0 < opts.max_attempts
      → lets_through (w + rule.window) after.0 ≡ true
      → let j = slot scope_type scope_key w in
        (count_of s.table j + 1 ≤ rule.limit) × (count_of s.table j + 1 ≤ count_of after.1.table j)
  unfolding check
  check_through w some_attempt h =
      let tried = increment opts call.attempts scope_type scope_key rule.window s.table in
      let (granted_b, b) = allow call.asked_at s.breaker in
      elim (Bool-cases (allow call.asked_at s.breaker).0) [
        | inl granted ↦
            let h' : lets_through (w + rule.window) (conclude opts call rule tried.outcome b).0
                ≡ true =
              ground arith in
            let (c, got, le, at) = conclude_through opts call rule w tried.outcome b h' in
            let d =
              increment_counts opts call.attempts scope_type scope_key rule.window s.table {c = c}
                some_attempt got in
            ground (arith, d)
        | inr refused ↦ absurd (unfold lets_through degrade in ground arith)
      ]

-- A request that reaches `Check`: its scope, and what happens outside meanwhile.
pub record Arrival : Type 0 where
  pub scope_type : String
  pub scope_key : String
  pub call : Call

module _ (opts : Options) (rule : String → Rule) where
  -- One request, under its scope's rule.
  pub serve : Arrival → Service → Verdict × Service
  serve a s = check opts a.call a.scope_type a.scope_key (rule a.scope_type) s

  -- How many of the requests of this scope are let through, counted, in the window that starts
  -- at `w`, as the requests are served in order.
  pub let_through : String → String → ℕ → List Arrival → Service → ℕ
  let_through scope_type scope_key w [] s = 0
  let_through scope_type scope_key w (a ∷ rest) s =
      let (verdict, s') = serve a s in
      let n = let_through scope_type scope_key w rest s' in
      if str_eq a.scope_type scope_type
        && str_eq a.scope_key scope_key
        && lets_through (w + (rule scope_type).window) verdict
      then suc n
      else n

  let_through-step :
      (scope_type scope_key : String) (w : ℕ) (a : Arrival) (rest : List Arrival) (s : Service)
      → 0 < opts.max_attempts
      → let j = slot scope_type scope_key w in
        let s' = (serve a s).1 in
        let_through scope_type scope_key w rest s' ≤ (rule scope_type).limit - count_of s'.table j
        → let_through scope_type scope_key w (a ∷ rest) s
          ≤ (rule scope_type).limit - count_of s.table j
  unfolding let_through serve
  let_through-step scope_type scope_key w a rest s some_attempt h = ground (
    arith,
    eq_iff a.scope_type scope_type,
    eq_iff a.scope_key scope_key,
    check_through opts a.call a.scope_type a.scope_key (rule a.scope_type) s w some_attempt,
    check_keeps opts a.call a.scope_type a.scope_key (rule a.scope_type) s
        (slot scope_type scope_key w),
  )

  -- Whatever requests come, of whatever scopes and in whatever order, and whatever fails meanwhile:
  -- with at least one attempt allowed, the requests of one scope that are let through, counted, in
  -- one window are at most the limit less the count that the window's row already had.
  pub let_through-le :
      (arrivals : List Arrival) (scope_type scope_key : String) (w : ℕ) (s : Service)
      → 0 < opts.max_attempts
      → let_through scope_type scope_key w arrivals s
        ≤ (rule scope_type).limit - count_of s.table (slot scope_type scope_key w)
  unfolding let_through
  let_through-le [] scope_type scope_key w s some_attempt = omega arith
  let_through-le (a ∷ rest) scope_type scope_key w s some_attempt =
      let_through-step scope_type scope_key w a rest s some_attempt
        (let_through-le rest scope_type scope_key w (serve a s).1 some_attempt)
