-- ===== src/RateLimit/Breaker.antt =====
-- system-design/fixed-window-counter/internal/service/breaker.go. A method takes the reading of
-- `b.now()`, where it makes one, and returns the new breaker. `int` counts are natural numbers:
-- `failures` stays below the threshold. Durations are not negative (config.go refuses others), and
-- `now.Sub(openedAt) < cooldown` is written `now < openedAt + cooldown`.
pub mod Invariant
pub mod Traces
use go_basics.Common.{ℕ, ◌+◌, Bool, true, false, String, List, [], ◌∷◌, ltb, leb, if◌then◌else◌}

-- `breakerState`.
pub data BreakerState : Type 0 where
  state_closed state_open state_half_open : BreakerState

-- `String`.
pub to_string : BreakerState → String
to_string state_closed = "closed"
to_string state_open = "open"
to_string state_half_open = "half-open"

abbrev pub state_eq : BreakerState → BreakerState → Bool
state_eq state_closed state_closed = true
state_eq state_open state_open = true
state_eq state_half_open state_half_open = true
state_eq _ _ = false

-- `breaker`. `changes` is what `onChange` was told, the last call first.
pub record Breaker : Type 0 where
  pub threshold : ℕ
  pub cooldown : ℕ
  pub state : BreakerState
  pub failures : ℕ
  pub opened_at : ℕ
  pub probing : Bool
  pub changes : List (BreakerState × BreakerState)

-- `newBreaker`.
unfoldable pub new_breaker : ℕ → ℕ → Breaker
new_breaker threshold cooldown = record {
  threshold = threshold;
  cooldown = cooldown;
  state = state_closed;
  failures = 0;
  opened_at = 0;
  probing = false;
  changes = [];
}

-- `setState`.
set_state : Breaker → BreakerState → Breaker
set_state b to =
    if state_eq b.state to then b else record b { state = to; changes = (b.state, to) ∷ b.changes }

allow_in : BreakerState → ℕ → Breaker → Bool × Breaker
unfolding set_state
allow_in state_open now b =
    if ltb now (b.opened_at + b.cooldown)
    then (false, b)
    else (true, record (set_state b state_half_open) { probing = true })
allow_in state_half_open now b =
    if b.probing then (false, b) else (true, record b { probing = true })
allow_in state_closed now b = (true, b)

-- `Allow`.
unfoldable pub allow : ℕ → Breaker → Bool × Breaker
unfolding allow_in
allow now b = allow_in b.state now b

-- `Success`.
unfoldable pub success : Breaker → Breaker
unfolding set_state
success b = set_state (record b { failures = 0; probing = false }) state_closed

-- `trip`.
trip : ℕ → Breaker → Breaker
unfolding set_state
trip now b = set_state (record b { opened_at = now; failures = 0 }) state_open

-- `Failure`. `now` is the reading that `trip` makes.
unfoldable pub failure : ℕ → Breaker → Breaker
unfolding trip
failure now b =
    let b' = record b { probing = false } in
    let counted = record b' { failures = b.failures + 1 } in
    if state_eq b.state state_half_open
    then trip now b'
    else if leb b.threshold counted.failures
    then trip now counted
    else counted

-- `Release`.
unfoldable pub release : Breaker → Breaker
release b = record b { probing = false }

-- One call of a method by one of the goroutines that share the breaker: the mutex runs them one
-- after another. A failure and a question carry the clock reading.
pub data Event : Type 0 where
  asked : ℕ → Event
  succeeded : Event
  broke : ℕ → Event
  released : Event

unfoldable pub step : Event → Breaker → Breaker
unfolding allow success failure release
step (asked now) b = (allow now b).1
step succeeded b = success b
step (broke now) b = failure now b
step released b = release b

-- The breaker after the events, oldest first.
unfoldable pub run : List Event → Breaker → Breaker
run [] b = b
run (e ∷ es) b = run es (step e b)

-- The answers that `Allow` gives along the events.
unfoldable pub answers : List Event → Breaker → List Bool
unfolding allow
answers [] b = []
answers (asked now ∷ es) b = (allow now b).0 ∷ answers es (step (asked now) b)
answers (e ∷ es) b = answers es (step e b)
