-- ===== src/Microservices/Platform/Retry/Recovery.antt =====
-- When the retry loop succeeds after failures.
use native.Mathlib.Nat.{mod-eq_of_lt}
use go_basics.Common.{
  ℕ, zero, suc, ◌+◌, ◌-◌, ◌*◌, ◌%◌, ◌^◌, ◌≤◌, ◌<◌, ◌≡◌, refl, true, Option, none, some, arith, min,
}
use go_basics.Microservices.Platform.{Failure, retryable}
use go_basics.Microservices.Platform.Retry.{
  RetryPolicy, default_retry, Pause, succeeded, backoff, again, after_failure, continue, round,
  retry_from, retry,
}
use go_basics.Microservices.Platform.Retry.Laws.{InRange}

after_failure_goes :
    (p : RetryPolicy) (pause : Pause) (attempt : ℕ) (e : Failure)
    → InRange p
    → 0 < attempt
    → attempt < p.max_attempts
    → retryable e ≡ true
    → pause.ended ≡ none
    → (d : ℕ) × (after_failure p pause attempt e ≡ again d)
unfolding after_failure backoff
after_failure_goes p pause attempt e fits some_attempt early worth calm = (
  pause.draw (min (p.base * 2 ^ (attempt - 1) % 2 ^ 64) p.max_backoff + 1),
  ground (arith, fits (attempt - 1), mod-eq_of_lt {n = p.base * 2 ^ (attempt - 1)} {m = 2 ^ 64}),
)

module _ {S : Type 0} (p : RetryPolicy) (pauses : ℕ → Pause) (fn : ℕ → S → Option Failure × S) where
  from_blip :
      (k left attempt : ℕ) (last_err : Option Failure) (s : S)
      → attempt + left ≡ p.max_attempts + 1
      → 0 < attempt
      → k < left
      → InRange p
      → ((n : ℕ) → (pauses n).ended ≡ none)
      → ((n : ℕ) (t : S)
          → attempt ≤ n
          → n < attempt + k
          → (e : Failure) × ((fn n t).0 ≡ some e) × (retryable e ≡ true))
      → ((t : S) → (fn (attempt + k) t).0 ≡ none)
      → let r = retry_from p pauses fn left attempt last_err s in
        (r.ended ≡ succeeded) × (r.calls ≡ k + 1)
  unfolding retry_from round continue
  from_blip k zero attempt last_err s total pos_attempt fuel fits calm bad good =
      absurd (omega arith)
  from_blip zero (suc left) attempt last_err s total pos_attempt fuel fits calm bad good =
      let here : attempt + 0 ≡ attempt = omega arith in rw (rw here at (good s)) (refl, refl)
  from_blip (suc k) (suc left) attempt last_err s total pos_attempt fuel fits calm bad good =
      let (e, fails, worth) = bad attempt s (omega arith) (omega arith) in
      let (d, went) =
        after_failure_goes p (pauses attempt) attempt e fits pos_attempt (omega arith) worth
          (calm attempt) in
      let step : attempt + 1 + k ≡ attempt + suc k = omega arith in
      let ih =
        from_blip k left (attempt + 1) (some e) (fn attempt s).1 (omega arith) (omega arith)
          (omega arith) fits calm (λ n t lo hi. bad n t (omega arith) (omega arith))
          (rw step good) in
      rw (fails, round, went, continue) (ih.0, omega (arith, ih.1))

  -- With attempts to spare, a base in range and a context that does not end: if the first `k` calls
  -- fail with errors worth another attempt and the next one succeeds, whatever the state, then `Do`
  -- succeeds, and has made exactly these `k + 1` calls.
  pub retry_recovers :
      (k : ℕ) (s : S)
      → k < p.max_attempts
      → InRange p
      → ((n : ℕ) → (pauses n).ended ≡ none)
      → ((n : ℕ) (t : S)
          → 1 ≤ n
          → n < 1 + k
          → (e : Failure) × ((fn n t).0 ≡ some e) × (retryable e ≡ true))
      → ((t : S) → (fn (1 + k) t).0 ≡ none)
      → ((retry p pauses fn s).ended ≡ succeeded) × ((retry p pauses fn s).calls ≡ k + 1)
  unfolding retry
  retry_recovers k s spare fits calm bad good =
      from_blip k p.max_attempts 1 none s (omega arith) (omega arith) spare fits calm bad good

-- The default policy, where the second of its calls succeeds.
pub retry_second :
    {S : Type 0} (pauses : ℕ → Pause) (fn : ℕ → S → Option Failure × S) (s s1 s2 : S) (e : Failure)
    → fn 1 s ≡ (some e, s1)
    → retryable e ≡ true
    → (pauses 1).ended ≡ none
    → fn 2 s1 ≡ (none, s2)
    → ((retry default_retry pauses fn s).ended ≡ succeeded)
      × ((retry default_retry pauses fn s).state ≡ s2)
unfolding retry retry_from round continue after_failure backoff
retry_second pauses fn s s1 s2 e first worth calm second =
    rw (first, worth, calm) (rw second (refl, refl))
