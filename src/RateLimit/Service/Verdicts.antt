-- ===== src/RateLimit/Service/Verdicts.antt =====
-- The failure policy of `Check`, and what a call leaves of the breaker.
use go_basics.Common.{
  ℕ, ◌+◌, ◌<◌, ◌≤◌, ◌≡◌, ◌≢◌, ◌↔◌, ◌⊎◌, inl, inr, refl, sym, ap, ◌∙◌, true, false, String, some,
  arith, Bool-cases,
}
use go_basics.RateLimit.Limiter.{Decision, decide}
use go_basics.RateLimit.Store.{Table, Counted, Failure, Outcome, done, failed, count_of}
use go_basics.RateLimit.Store.Counts.{slot}
use go_basics.RateLimit.Service.Attempts.{increment_counts}
use go_basics.RateLimit.Breaker.{
  Breaker, state_closed, state_open, allow, success, failure, release,
}
use go_basics.RateLimit.Service.{
  Options, Rule, Call, Service, Cause, breaker_open, decided, gave_up, unavailable, increment,
  degrade, conclude, check,
}

-- A decision about a request that is counted: the row of its window has gone up, by one or more, to a count that
-- the request is allowed or not by.
abbrev pub IsCounted : String → String → Rule → Decision → Table → Table → Type 0
IsCounted scope_type scope_key rule d t t' =
    (c : Counted) × (count_of t (slot scope_type scope_key c.window_start) + 1 ≤ c.count)
    × (count_of t' (slot scope_type scope_key c.window_start) ≡ c.count)
    × ((d.allowed ≡ true) ↔ (c.count ≤ rule.limit))
    × (d.degraded ≡ false)

Outcome-cases :
    (out : Outcome) → ((c : Counted) × (out ≡ done c)) ⊎ ((e : Failure) × (out ≡ failed e))
Outcome-cases (done c) = inl (c, refl)
Outcome-cases (failed e) = inr (e, refl)

conclude_done :
    (opts : Options) (call : Call) (rule : Rule) (r : Counted) (b : Breaker) (d : Decision)
    → (conclude opts call rule (done r) b).0 ≡ decided d
    → ((d.allowed ≡ true) ↔ (r.count ≤ rule.limit)) × (d.degraded ≡ false)
unfolding conclude decide
conclude_done opts call rule r b d h = ((λ e. ground arith, λ e. ground arith), ground arith)

conclude_failed :
    (opts : Options) (call : Call) (rule : Rule) (e : Failure) (b : Breaker) (d : Decision)
    → (conclude opts call rule (failed e) b).0 ≡ decided d
    → (opts.fail_open ≡ true) × (d.degraded ≡ true)
unfolding conclude
conclude_failed opts call rule e b d h = (ground arith, ground arith)

conclude_open :
    (opts : Options) (call : Call) (rule : Rule) (out : Outcome) (b : Breaker) (c : Cause)
    → opts.fail_open ≡ true
    → (conclude opts call rule out b).0 ≢ unavailable c
unfolding conclude
conclude_open opts call rule (done r) b c o = cc
conclude_open opts call rule (failed e) b c o = ground arith

conclude_probing :
    (opts : Options) (call : Call) (rule : Rule) (out : Outcome) (b : Breaker)
    → (conclude opts call rule out b).1.probing ≡ false
unfolding conclude success failure release
conclude_probing opts call rule (done r) b = ground arith
conclude_probing opts call rule (failed e) b = ground arith

refused_probing :
    (now : ℕ) (b : Breaker) → (allow now b).0 ≡ false → (allow now b).1.probing ≡ b.probing
unfolding allow
refused_probing now b h = ground arith

module _ (opts : Options) (call : Call) (scope_type scope_key : String) (rule : Rule)
    (s : Service) where
  check_granted :
      (d : Decision)
      → 0 < opts.max_attempts
      → (allow call.asked_at s.breaker).0 ≡ true
      → (check opts call scope_type scope_key rule s).0 ≡ decided d
      → IsCounted scope_type scope_key rule d s.table
          (check opts call scope_type scope_key rule s).1.table
        ⊎ ((opts.fail_open ≡ true) × (d.degraded ≡ true))
  unfolding check
  check_granted d tries granted says =
      let tried = increment opts call.attempts scope_type scope_key rule.window s.table in
      let b = (allow call.asked_at s.breaker).1 in
      let same : (check opts call scope_type scope_key rule s).1.table ≡ tried.table =
        ground arith in
      let verdict : (conclude opts call rule tried.outcome b).0 ≡ decided d = ground arith in
      elim (Outcome-cases tried.outcome) [
        | inl (c, counts) ↦
            let (more, at) =
              increment_counts opts call.attempts scope_type scope_key rule.window s.table tries
                counts in
            let (allowed, sure) =
              conclude_done opts call rule c b d
                (ap (λ o. (conclude opts call rule o b).0) (sym counts) ∙ verdict) in
            inl (
              c,
              more,
              ap (λ t. count_of t (slot scope_type scope_key c.window_start)) same ∙ at,
              allowed,
              sure,
            )
        | inr (e, fails) ↦ inr (
            conclude_failed opts call rule e b d
              (ap (λ o. (conclude opts call rule o b).0) (sym fails) ∙ verdict))
      ]

  -- With at least one attempt to make: failing open, `Check` never answers that the limiter is unavailable. A
  -- decision that it gives is of a request that it has counted, in the table's row of a window, and allows it
  -- exactly where that count is within the limit; or it fails open, and the decision says that it is degraded.
  -- So failing closed, it never lets a request through uncounted.
  pub check_policy :
      0 < opts.max_attempts
      → (opts.fail_open ≡ true
          → (c : Cause) → (check opts call scope_type scope_key rule s).0 ≢ unavailable c)
        × ((d : Decision)
            → (check opts call scope_type scope_key rule s).0 ≡ decided d
            → IsCounted scope_type scope_key rule d s.table
                (check opts call scope_type scope_key rule s).1.table
              ⊎ ((opts.fail_open ≡ true) × (d.degraded ≡ true)))
  unfolding check
  check_policy tries =
      let tried = increment opts call.attempts scope_type scope_key rule.window s.table in
      let b = (allow call.asked_at s.breaker).1 in
      (
        λ o c. ground (arith, conclude_open opts call rule tried.outcome b c o),
        λ d says. elim (Bool-cases (allow call.asked_at s.breaker).0) [
          | inl granted ↦ check_granted d tries granted says
          | inr barred ↦ inr (ground arith, ground arith)
        ],
      )

  -- While the breaker is open and has not cooled down, a call touches neither the table nor the
  -- breaker, and gets what the policy gives for an open breaker.
  pub check_open :
      s.breaker.state ≡ state_open
      → call.asked_at < s.breaker.opened_at + s.breaker.cooldown
      → check opts call scope_type scope_key rule s ≡ (degrade opts rule breaker_open, s)
  unfolding check allow
  check_open h early = ground arith

  -- A call that starts with no probe in flight leaves none in flight: whichever way it ends, the
  -- `true` that it got from `Allow` is followed by a Success, a Failure or a Release.
  pub check_settles :
      s.breaker.probing ≡ false
      → (check opts call scope_type scope_key rule s).1.breaker.probing ≡ false
  unfolding check
  check_settles h =
      let tried = increment opts call.attempts scope_type scope_key rule.window s.table in
      let b = (allow call.asked_at s.breaker).1 in
      ground (
        arith,
        conclude_probing opts call rule tried.outcome b,
        refused_probing call.asked_at s.breaker,
      )

  -- A client that hung up does not count against the database: when the attempts fail and the
  -- context is over, a closed breaker keeps its state and its count of failures, and the caller
  -- gets the context's error.
  pub check_gone :
      (e gone : Failure)
      → s.breaker.state ≡ state_closed
      → (increment opts call.attempts scope_type scope_key rule.window s.table).outcome ≡ failed e
      → call.ctx_err ≡ some gone
      → let (verdict, s') = check opts call scope_type scope_key rule s in
        (verdict ≡ gave_up gone)
        × (s'.breaker.state ≡ state_closed)
        × (s'.breaker.failures ≡ s.breaker.failures)
  unfolding check conclude allow release
  check_gone e gone closed out over = ground arith
