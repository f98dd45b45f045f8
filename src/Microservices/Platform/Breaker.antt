-- ===== src/Microservices/Platform/Breaker.antt =====
-- The circuit breaker of 63_microservices/internal/platform/resilience.go. A method takes the
-- reading of the clock, where it makes one. `time.Since(openedAt) < cooldown` is written
-- `now < openedAt + cooldown`. `failures` is a natural number: 2^63 failures do not happen.
pub mod Laws
use go_basics.Common.{
  ℕ, ◌+◌, Bool, true, false, not, ◌&&◌, ◌||◌, String, Option, none, some, List, [], ◌∷◌, ltb, leb,
  if◌then◌else◌,
}
use go_basics.Microservices.Platform.{
  Code, internal, deadline_exceeded, Failure, circuit_open, code_of, is_canceled, retryable,
}

-- `BreakerState`.
pub data BreakerState : Type 0 where
  closed opened half_open : BreakerState

-- `String`.
pub to_string : BreakerState → String
to_string closed = "CLOSED"
to_string opened = "OPEN"
to_string half_open = "HALF-OPEN"

abbrev pub state_eq : BreakerState → BreakerState → Bool
state_eq closed closed = true
state_eq opened opened = true
state_eq half_open half_open = true
state_eq _ _ = false

-- `Breaker`. `changes` holds the goroutines that `transition` starts to call `onChange`, the last
-- first.
pub record Breaker : Type 0 where
  pub threshold : ℕ
  pub cooldown : ℕ
  pub state : BreakerState
  pub failures : ℕ
  pub opened_at : ℕ
  pub probe_in_flight : Bool
  pub changes : List (BreakerState × BreakerState)

-- `NewBreaker`.
unfoldable pub new_breaker : ℕ → ℕ → Breaker
new_breaker threshold cooldown = record {
  threshold = threshold;
  cooldown = cooldown;
  state = closed;
  failures = 0;
  opened_at = 0;
  probe_in_flight = false;
  changes = [];
}

-- `transition`.
transition : Breaker → BreakerState → Breaker
transition b to = record b {
  state = to;
  changes = if state_eq b.state to then b.changes else (b.state, to) ∷ b.changes;
}

allow_in : BreakerState → ℕ → Breaker → Option Failure × Breaker
unfolding transition
allow_in closed now b = (none, b)
allow_in opened now b =
    if ltb now (b.opened_at + b.cooldown)
    then (some circuit_open, b)
    else (none, record (transition b half_open) { probe_in_flight = true })
allow_in half_open now b =
    if b.probe_in_flight
    then (some circuit_open, b)
    else (none, record b { probe_in_flight = true })

-- `allow`.
unfoldable pub allow : ℕ → Breaker → Option Failure × Breaker
unfolding allow_in
allow now b = allow_in b.state now b

-- `release`.
unfoldable pub release : Breaker → Breaker
release b = record b { probe_in_flight = false }

-- `onSuccess`.
unfoldable pub on_success : Breaker → Breaker
unfolding transition
on_success b =
    let b' = record b { failures = 0; probe_in_flight = false } in
    if state_eq b.state closed then b' else transition b' closed

-- `onFailure`.
unfoldable pub on_failure : ℕ → Breaker → Breaker
unfolding transition
on_failure now b =
    let b' = record b { probe_in_flight = false } in
    let counted = record b' { failures = b.failures + 1 } in
    if state_eq b.state half_open
    then transition (record b' { opened_at = now }) opened
    else if leb b.threshold counted.failures && state_eq b.state closed
    then transition (record counted { opened_at = now }) opened
    else counted

abbrev is_timeout_or_bug : Code → Bool
is_timeout_or_bug deadline_exceeded = true
is_timeout_or_bug internal = true
is_timeout_or_bug c = false

-- Whether `Do` counts an error against the dependency.
unfoldable pub is_sick : Failure → Bool
is_sick e = retryable e || is_timeout_or_bug (code_of e)

-- What `Do` tells the breaker, once `fn` has returned.
unfoldable pub report : ℕ → Option Failure → Breaker → Breaker
unfolding is_sick
report now none b = on_success b
report now (some e) b =
    if is_canceled e then release b else if is_sick e then on_failure now b else on_success b

-- `Do`, for a call that changes a state: the clock at `allow` and at `onFailure`, and `fn`.
module _ {S : Type 0} where
  unfoldable pub guarded :
      ℕ → ℕ → (S → Option Failure × S) → Breaker × S → Option Failure × (Breaker × S)
  guarded asked_at failed_at fn (b, s) = elim (allow asked_at b).0 [
    | some e ↦ (some e, ((allow asked_at b).1, s))
    | none ↦ ((fn s).0, (report failed_at (fn s).0 (allow asked_at b).1, (fn s).1))
  ]
