-- ===== src/RateLimit/Breaker/Traces.antt =====
-- What the breaker answers and where it goes along sequences of calls.
use mathlib.Core.Path.{subst}
use go_basics.Common.{
  ℕ, suc, ◌+◌, ◌≤◌, ◌<◌, ◌≡◌, ◌≢◌, refl, sym, ap, ◌∙◌, true, false, List, [], ◌∷◌, map, arith,
  length, replicate, All,
}
use go_basics.RateLimit.Breaker.{
  state_closed, state_open, state_half_open, Breaker, new_breaker, Event, asked, succeeded, broke,
  released, allow, success, failure, step, run, answers, release,
}

-- While half-open with a probe in flight, questions get `false` and change nothing.
probing_refuses :
    (ts : List ℕ) (b : Breaker)
    → b.state ≡ state_half_open
    → b.probing ≡ true
    → (answers (map asked ts) b ≡ replicate (length ts) false) × (run (map asked ts) b ≡ b)
unfolding answers run step allow
probing_refuses [] b h p = (refl, refl)
probing_refuses (t ∷ ts) b h p = ground (arith, probing_refuses ts b h p)

-- While open, every question asked before the cooldown has passed is refused, and none of them
-- changes the breaker.
pub open_refuses :
    (ts : List ℕ) (b : Breaker)
    → b.state ≡ state_open
    → All (λ t. t < b.opened_at + b.cooldown) ts
    → (answers (map asked ts) b ≡ replicate (length ts) false) × (run (map asked ts) b ≡ b)
unfolding answers run step allow
open_refuses [] b h early = (refl, refl)
open_refuses (t ∷ ts) b h early = ground (arith, open_refuses ts b h early.1)

-- After the cooldown the first question gets `true`; the ones that follow it with no method call
-- in between get `false`, however many and whenever they come, and the breaker stays half-open.
pub one_probe :
    (t : ℕ) (ts : List ℕ) (b : Breaker)
    → b.state ≡ state_open
    → b.opened_at + b.cooldown ≤ t
    → (answers (asked t ∷ map asked ts) b ≡ true ∷ replicate (length ts) false)
      × ((run (asked t ∷ map asked ts) b).state ≡ state_half_open)
unfolding answers run step allow
one_probe t ts b h late = ground (arith, probing_refuses ts (allow t b).1)

unfoldable pub failures_in : List Event → ℕ
failures_in [] = 0
failures_in (broke t ∷ es) = suc (failures_in es)
failures_in (e ∷ es) = failures_in es

stays_closed :
    (es : List Event) (b : Breaker)
    → All (λ e. e ≢ succeeded) es
    → b.state ≡ state_closed
    → b.failures + failures_in es < b.threshold
    → let b' = run es b in
      (b'.state ≡ state_closed)
      × (b'.failures ≡ b.failures + failures_in es)
      × (b'.threshold ≡ b.threshold)
unfolding run step failures_in
stays_closed [] b ok h below = ground arith
stays_closed (e ∷ es) b ok h below = ground (arith, stays_closed es (step e b) ok.1)

-- From a new breaker, along any calls but successes: with fewer failures than the threshold it is
-- closed and has counted each of them; the failure that reaches the threshold opens it, at the
-- instant of that failure and with the count back at 0.
pub opens_at_threshold :
    (es : List Event) (threshold cooldown t : ℕ)
    → All (λ e. e ≢ succeeded) es
    → failures_in es < threshold
    → let b = run es (new_breaker threshold cooldown) in
      (b.state ≡ state_closed)
      × (b.failures ≡ failures_in es)
      × (failures_in es + 1 ≡ threshold
          → ((failure t b).state ≡ state_open)
            × ((failure t b).opened_at ≡ t)
            × ((failure t b).failures ≡ 0))
unfolding new_breaker failure
opens_at_threshold es threshold cooldown t none_ok below =
    ground (arith, stays_closed es (new_breaker threshold cooldown) none_ok)

-- A closed breaker that one more failure opens can have two probes out at once: a call that was
-- let through before the failure and is released while the probe runs clears the probe's mark, and
-- the next question gets `true` as well.
pub two_probes :
    (b : Breaker) (t0 t1 t2 t3 : ℕ)
    → b.state ≡ state_closed
    → b.threshold ≤ b.failures + 1
    → t1 + b.cooldown ≤ t2
    → (answers (asked t0 ∷ broke t1 ∷ asked t2 ∷ released ∷ asked t3 ∷ []) b
        ≡ true ∷ true ∷ true ∷ [])
      × ((run (asked t0 ∷ broke t1 ∷ asked t2 ∷ released ∷ asked t3 ∷ []) b).state
          ≡ state_half_open)
unfolding answers run step allow
two_probes b t0 t1 t2 t3 h near late = ground arith

-- No failure comes after an instant.
abbrev pub AllBefore : ℕ → List Event → Type 0
AllBefore last es = All (λ e. (t : ℕ) → e ≡ broke t → t ≤ last) es

step_opened :
    (last : ℕ) (e : Event) (b : Breaker)
    → ((t : ℕ) → e ≡ broke t → t ≤ last)
    → b.opened_at ≤ last
    → ((step e b).cooldown ≡ b.cooldown) × ((step e b).opened_at ≤ last)
unfolding step allow success failure release
step_opened last (asked now) b before h = (ground arith, ground arith)
step_opened last succeeded b before h = (ground arith, ground arith)
step_opened last (broke t) b before h = (ground arith, ground (arith, before t refl))
step_opened last released b before h = (refl, h)

-- The cooldown stays, and no opening is later than the last failure.
run_opened :
    (last : ℕ) (es : List Event) (b : Breaker)
    → AllBefore last es
    → b.opened_at ≤ last
    → ((run es b).cooldown ≡ b.cooldown) × ((run es b).opened_at ≤ last)
unfolding run
run_opened last [] b before h = (refl, h)
run_opened last (e ∷ es) b before h =
    let (keeps, opened) = step_opened last e b before.0 h in
    let (keeps', opened') = run_opened last es (step e b) before.1 opened in
    (keeps' ∙ keeps, opened')

released_allows :
    (b : Breaker) (now : ℕ) → b.opened_at + b.cooldown ≤ now → (allow now (release b)).0 ≡ true
unfolding allow release
released_allows b now late = ground arith

new_breaker-opened :
    (last threshold cooldown : ℕ)
    → ((new_breaker threshold cooldown).opened_at ≤ last)
      × ((new_breaker threshold cooldown).cooldown ≡ cooldown)
unfolding new_breaker
new_breaker-opened last threshold cooldown = (omega arith, refl)

-- What a failure leaves that opens the breaker.
failure_opens :
    (t : ℕ) (b : Breaker)
    → b.state ≢ state_open
    → (failure t b).state ≡ state_open
    → ((failure t b).opened_at ≡ t) × ((failure t b).cooldown ≡ b.cooldown)
unfolding failure
failure_opens t b closed opens = (ground arith, ground arith)

opened_allows :
    (now : ℕ) (b : Breaker)
    → b.state ≡ state_open
    → b.opened_at + b.cooldown ≤ now
    → (allow now b).0 ≡ true
unfolding allow
opened_allows now b opens late = ground arith

-- Whatever calls came before, the breaker is never stuck: once the call that holds the probe is released, a
-- question asked a cooldown after the last failure, or later, gets `true`. And where a failure opens the
-- breaker, each question before its cooldown has passed gets `false`, if none later comes in between, and the
-- first one after that `true`.
pub never_stuck :
    (es : List Event) (threshold cooldown last : ℕ)
    → AllBefore last es
    → let b = run es (new_breaker threshold cooldown) in
      ((now : ℕ) → last + cooldown ≤ now → (allow now (run (released ∷ []) b)).0 ≡ true)
      × ((t now : ℕ) (early : List ℕ)
          → b.state ≢ state_open
          → (failure t b).state ≡ state_open
          → All (λ u. u < t + cooldown) early
          → t + cooldown ≤ now
          → (answers (broke t ∷ map asked early) b ≡ replicate (length early) false)
            × ((allow now (run (broke t ∷ map asked early) b)).0 ≡ true))
unfolding run step answers release
never_stuck es threshold cooldown last before =
    let b = run es (new_breaker threshold cooldown) in
    let (zero_le, same) = new_breaker-opened last threshold cooldown in
    let (keeps, opened) = run_opened last es (new_breaker threshold cooldown) before zero_le in
    (
      λ now late. released_allows b now (omega (arith, keeps, opened, same)),
      λ t now early closed opens soon late.
          let (at, cool) = failure_opens t b closed opens in
          let until : (failure t b).opened_at + (failure t b).cooldown ≡ t + cooldown =
            omega (arith, at, cool, keeps, same) in
          let (said, stays) =
            open_refuses early (failure t b) opens
              (subst (λ n. All (λ u. u < n) early) (sym until) soon) in
          (
            said,
            ap (λ x. (allow now x).0) stays
                ∙ opened_allows now (failure t b) opens (omega (arith, until, late)),
          ),
    )
