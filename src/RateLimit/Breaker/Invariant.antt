-- ===== src/RateLimit/Breaker/Invariant.antt =====
-- What holds of the breaker between any two method calls, in any interleaving.
use go_basics.Common.{ℕ, ◌<◌, max, ◌≡◌, true, List, [], ◌∷◌, arith}
use go_basics.RateLimit.Breaker.{
  BreakerState, state_closed, state_open, state_half_open, Breaker, new_breaker, Event, step, run,
}

-- A probe is in flight only while half-open, and the count of failures is below the threshold (0
-- where the threshold is 0).
pub record IsSound (b : Breaker) : Type 0 where
  pub probe_half_open : b.probing ≡ true → b.state ≡ state_half_open
  pub failures_below : b.failures < max b.threshold 1

step-IsSound : (e : Event) (b : Breaker) → IsSound b → IsSound (step e b)
unfolding step
step-IsSound e b h = ground arith

run-IsSound : (es : List Event) (b : Breaker) → IsSound b → IsSound (run es b)
unfolding run
run-IsSound [] b h = h
run-IsSound (e ∷ es) b h = run-IsSound es (step e b) (step-IsSound e b h)

-- After any method calls on a new breaker, a probe is marked in flight only in the half-open state, and
-- `failures` is below the threshold, or 0 where the threshold is 0.
pub run-new_breaker-IsSound :
    (es : List Event) (threshold cooldown : ℕ) → IsSound (run es (new_breaker threshold cooldown))
unfolding new_breaker
run-new_breaker-IsSound es threshold cooldown =
    run-IsSound es (new_breaker threshold cooldown) (ground arith)

-- The edges of the state diagram. Closed is reached from open too, by a success that comes late.
pub data Edge : BreakerState → BreakerState → Type 0 where
  tripped : Edge state_closed state_open
  cooled : Edge state_open state_half_open
  probe_passed : Edge state_half_open state_closed
  probe_broke : Edge state_half_open state_open
  late_success : Edge state_open state_closed

-- The changes, last first, lead from closed to this state, each along an edge and each from where the one before it ended.
pub data Leads : BreakerState → List (BreakerState × BreakerState) → Type 0 where
  unchanged : Leads state_closed []
  then :
      {s t : BreakerState} {l : List (BreakerState × BreakerState)}
      → Edge s t
      → Leads s l
      → Leads t ((s, t) ∷ l)

step-Leads :
    (e : Event) (b : Breaker) → Leads b.state b.changes → Leads (step e b).state (step e b).changes
unfolding step
step-Leads e b h = grind (arith, then, tripped, cooled, probe_passed, probe_broke, late_success)

run-Leads :
    (es : List Event) (b : Breaker)
    → Leads b.state b.changes
    → Leads (run es b).state (run es b).changes
unfolding run
run-Leads [] b h = h
run-Leads (e ∷ es) b h = run-Leads es (step e b) (step-Leads e b h)

-- The state changes of a new breaker, along any method calls, make one path from closed to the state it
-- is in, and each change is an edge of the diagram.
pub run-new_breaker-Leads :
    (es : List Event) (threshold cooldown : ℕ)
    → let b = run es (new_breaker threshold cooldown) in Leads b.state b.changes
unfolding new_breaker
run-new_breaker-Leads es threshold cooldown =
    run-Leads es (new_breaker threshold cooldown) unchanged
