-- ===== src/Microservices/Platform/Breaker/Laws.antt =====
-- The breaker's state machine, over any interleaving of its methods, and `Do`.
use go_basics.Common.{
  ℕ, suc, ◌+◌, ◌≤◌, ◌<◌, ◌≡◌, max, true, false, Option, none, some, List, [], ◌∷◌, arith, All,
}
use go_basics.Microservices.Platform.{Failure, circuit_open, is_canceled}
use go_basics.Microservices.Platform.Breaker.{
  closed, opened, half_open, Breaker, new_breaker, allow, release, on_success, on_failure, is_sick,
  report, guarded,
}

-- One critical section of the breaker: a question, or what `Do` reports after its call, with the
-- clock's reading.
pub data Event : Type 0 where
  asked : ℕ → Event
  returned : ℕ → Option Failure → Event

pub step : Event → Breaker → Breaker
unfolding allow report release on_success on_failure
step (asked now) b = (allow now b).1
step (returned now err) b = report now err b

pub run : List Event → Breaker → Breaker
run [] b = b
run (e ∷ es) b = run es (step e b)

-- What holds between any two critical sections.
pub record IsSound (b : Breaker) : Type 0 where
  pub probe_half_open : b.probe_in_flight ≡ true → b.state ≡ half_open
  pub closed_below : b.state ≡ closed → b.failures < max b.threshold 1

step-IsSound : (e : Event) (b : Breaker) → IsSound b → IsSound (step e b)
unfolding step
step-IsSound (asked now) b h = ground arith
step-IsSound (returned now none) b h = ground arith
step-IsSound (returned now (some e)) b h = ground arith

run-IsSound : (es : List Event) (b : Breaker) → IsSound b → IsSound (run es b)
unfolding run
run-IsSound [] b h = h
run-IsSound (e ∷ es) b h = run-IsSound es (step e b) (step-IsSound e b h)

-- After any interleaving of calls on a new breaker, a probe is marked in flight only in the
-- half-open state, and while closed the count of failures is below the threshold, or 0 where the
-- threshold is 0.
pub new_breaker-IsSound :
    (es : List Event) (threshold cooldown : ℕ) → IsSound (run es (new_breaker threshold cooldown))
unfolding new_breaker
new_breaker-IsSound es threshold cooldown =
    run-IsSound es (new_breaker threshold cooldown) (ground arith)

module _ {S : Type 0} (asked_at failed_at : ℕ) (fn : S → Option Failure × S) (b : Breaker)
    (s : S) where
  -- While the circuit is open and has not cooled down, `Do` fails with ErrCircuitOpen and makes no
  -- call: neither the state that the call would change nor the breaker changes.
  pub guarded_open :
      b.state ≡ opened
      → asked_at < b.opened_at + b.cooldown
      → guarded asked_at failed_at fn (b, s) ≡ (some circuit_open, (b, s))
  unfolding guarded allow
  guarded_open h early = ground arith

  -- After the cooldown `Do` makes the call. Its success closes the circuit and clears the count; a
  -- failure that counts against the dependency opens it again from that failure's instant.
  pub guarded_probe :
      b.state ≡ opened
      → b.opened_at + b.cooldown ≤ asked_at
      → let (err, (b', s')) = guarded asked_at failed_at fn (b, s) in
        (err ≡ (fn s).0)
        × (s' ≡ (fn s).1)
        × ((fn s).0 ≡ none → (b'.state ≡ closed) × (b'.failures ≡ 0))
        × ((e : Failure)
            → (fn s).0 ≡ some e
            → is_canceled e ≡ false
            → is_sick e ≡ true
            → (b'.state ≡ opened) × (b'.opened_at ≡ failed_at))
  unfolding guarded allow report on_success on_failure release
  guarded_probe h late = (ground arith, ground arith, ground arith, λ e. ground arith)

  -- Any failure of a probe that is not counted against the dependency, and is not the context's own
  -- cancellation, closes the circuit as a success does: a call that the server refused, but also
  -- one that the caller's deadline cut short while `Do` of the retry policy was waiting.
  pub guarded_uncounted :
      (e : Failure)
      → b.state ≡ opened
      → b.opened_at + b.cooldown ≤ asked_at
      → (fn s).0 ≡ some e
      → is_canceled e ≡ false
      → is_sick e ≡ false
      → let b' = (guarded asked_at failed_at fn (b, s)).1.0 in
        (b'.state ≡ closed) × (b'.failures ≡ 0)
  unfolding guarded allow report on_success on_failure release
  guarded_uncounted e h late fails other well = ground arith

-- Events that neither succeed nor end a call with an error that is not counted or the caller's own:
-- questions and failures of the dependency.
abbrev pub IsSick : Event → Type 0
IsSick (asked now) = Unit
IsSick (returned now none) = ⊥
IsSick (returned now (some e)) = (is_canceled e ≡ false) × (is_sick e ≡ true)

unfoldable pub failures_in : List Event → ℕ
failures_in [] = 0
failures_in (asked now ∷ es) = failures_in es
failures_in (returned now err ∷ es) = suc (failures_in es)

stays_closed :
    (es : List Event) (b : Breaker)
    → All IsSick es
    → b.state ≡ closed
    → b.failures + failures_in es < b.threshold
    → let b' = run es b in
      (b'.state ≡ closed)
      × (b'.failures ≡ b.failures + failures_in es)
      × (b'.threshold ≡ b.threshold)
unfolding run step failures_in
stays_closed [] b sick h below = ground arith
stays_closed (asked now ∷ es) b sick h below =
    ground (arith, stays_closed es (step (asked now) b) sick.1)
stays_closed (returned now none ∷ es) b sick h below = absurd sick.0
stays_closed (returned now (some e) ∷ es) b sick h below =
    ground (arith, stays_closed es (step (returned now (some e)) b) sick.1)

-- A new breaker stays closed through any questions and fewer failures of the dependency than the
-- threshold, and counts each; the failure that reaches the threshold opens it, at its instant.
pub sick_calls_open :
    (es : List Event) (threshold cooldown t : ℕ) (e : Failure)
    → All IsSick es
    → failures_in es < threshold
    → is_canceled e ≡ false
    → is_sick e ≡ true
    → let b = run es (new_breaker threshold cooldown) in
      (b.state ≡ closed)
      × (b.failures ≡ failures_in es)
      × (failures_in es + 1 ≡ threshold
          → ((report t (some e) b).state ≡ opened) × ((report t (some e) b).opened_at ≡ t))
unfolding new_breaker report on_failure
sick_calls_open es threshold cooldown t e sick below other ill =
    ground (arith, stays_closed es (new_breaker threshold cooldown) sick)
