-- ===== src/RateLimit/Service/Backoff.antt =====
-- The delays between attempts.
use native.Mathlib.Nat.{mod-le}
use go_basics.Common.{
  min, ltb, if◌then◌else◌, some, none, ℕ, zero, suc, ◌+◌, ◌-◌, ◌*◌, ◌%◌, ◌^◌, ◌≤◌, ◌<◌, ◌≡◌, refl,
  String, Option, List, [], ◌∷◌, arith, length, All,
}
use go_basics.RateLimit.Limiter.{second}
use go_basics.RateLimit.Store.{Table, Failure, Outcome, done, failed, increment as store_increment}
use go_basics.RateLimit.Service.{
  Options, Attempt, Next, stop, again, Attempted, finish, after_attempt, backoff, increment_from,
  increment,
}

-- A random source that keeps `rand.Int64N`'s promise: a draw below `n`, for a positive `n`.
abbrev pub DrawsBelow : (ℕ → ℕ) → Type 0
DrawsBelow draw = (n : ℕ) → 0 < n → draw n < n

-- Whatever the base, the attempt and the draw, the delay is at most a second, and at most the base
-- doubled for each attempt after the first, also where the shift leaves the range of `int64`.
pub backoff_bounds :
    (opts : Options) (draw : ℕ → ℕ) (attempt : ℕ)
    → DrawsBelow draw
    → (backoff opts draw attempt ≤ second)
      × (backoff opts draw attempt ≤ opts.base_backoff * 2 ^ (attempt - 1))
unfolding backoff
backoff_bounds opts draw attempt below =
    let shifted = opts.base_backoff * 2 ^ (attempt - 1) in
    let d = if ltb (shifted % 2 ^ 64) (2 ^ 63) then min (shifted % 2 ^ 64) second else 0 in
    ground (arith, below (d + 1), mod-le shifted (2 ^ 64))

-- The sleeps of one round are short.
delays_of : Next → List ℕ
delays_of (stop ds o) = ds
delays_of (again d e) = d ∷ []

after_attempt_delays :
    (opts : Options) (a : Attempt) (attempt : ℕ) (out : Outcome)
    → DrawsBelow a.draw
    → All (λ d. d ≤ second) (delays_of (after_attempt opts a attempt out))
unfolding after_attempt delays_of
after_attempt_delays opts a attempt (done r) below = tt
after_attempt_delays opts a attempt (failed e) below =
    ground (arith, backoff_bounds opts a.draw attempt below)

finish_delays :
    (n : Next) (t : Table) (rest : Failure → Attempted)
    → All (λ d. d ≤ second) (delays_of n)
    → ((e : Failure) → All (λ d. d ≤ second) (rest e).delays)
    → All (λ d. d ≤ second) (finish n t rest).delays
unfolding finish delays_of
finish_delays (stop ds o) t rest h k = h
finish_delays (again d e) t rest h k = (h.0, k e)

after_attempt_count :
    (opts : Options) (a : Attempt) (attempt : ℕ) (out : Outcome)
    → (length (delays_of (after_attempt opts a attempt out)) ≤ 1)
      × (attempt ≡ opts.max_attempts → delays_of (after_attempt opts a attempt out) ≡ [])
unfolding after_attempt delays_of
after_attempt_count opts a attempt (done r) = ground arith
after_attempt_count opts a attempt (failed e) = ground arith

finish_count :
    (n : Next) (t : Table) (rest : Failure → Attempted) (left : ℕ)
    → length (delays_of n) ≤ 1
    → (left ≡ 0 → delays_of n ≡ [])
    → ((e : Failure) → ((rest e).calls ≤ left) × (length (rest e).delays ≤ left - 1))
    → ((finish n t rest).calls ≤ left + 1) × (length (finish n t rest).delays ≤ left)
unfolding finish delays_of
finish_count (stop ds o) t rest left h k r = ground arith
finish_count (again d e) t rest zero h k r = cc (k refl)
finish_count (again d e) t rest (suc left) h k r = ground (arith, r e)

module _ (opts : Options) (attempts : ℕ → Attempt) (scope_type scope_key : String) (window : ℕ)
    (below : (n : ℕ) → DrawsBelow (attempts n).draw) where
  from_delays :
      (left attempt : ℕ) (last_err : Option Failure) (t : Table)
      → All
          (λ d. d ≤ second)
          (increment_from opts attempts scope_type scope_key window left attempt last_err t).delays
  unfolding increment_from
  from_delays zero attempt last_err t = tt
  from_delays (suc left) attempt last_err t =
      let a = attempts attempt in
      let (out, t') = store_increment a.reply scope_type scope_key window t in
      finish_delays (after_attempt opts a attempt out) t'
        (λ e.
          increment_from opts attempts scope_type scope_key window left (attempt + 1) (some e) t')
        (after_attempt_delays opts a attempt out (below attempt))
        (λ e. from_delays left (attempt + 1) (some e) t')

  from_count :
      (left attempt : ℕ) (last_err : Option Failure) (t : Table)
      → attempt + left ≡ opts.max_attempts + 1
      → let r = increment_from opts attempts scope_type scope_key window left attempt last_err t in
        (r.calls ≤ left) × (length r.delays ≤ left - 1)
  unfolding increment_from
  from_count zero attempt last_err t h = omega arith
  from_count (suc left) attempt last_err t h =
      let a = attempts attempt in
      let (out, t') = store_increment a.reply scope_type scope_key window t in
      let short = after_attempt_count opts a attempt out in
      let r =
        finish_count (after_attempt opts a attempt out) t'
          (λ e.
            increment_from opts attempts scope_type scope_key window left (attempt + 1) (some e) t')
          left short.0 (λ z. short.1 (omega arith))
          (λ e. from_count left (attempt + 1) (some e) t' (omega arith)) in
      (omega (arith, r.0), omega (arith, r.1))

  -- With random draws that are below their bound, one call of `increment` makes at most
  -- `MaxAttempts` calls of the counter, sleeps fewer times than that (not at all where it makes
  -- none), and never longer than a second at a time.
  pub increment_bounded :
      (t : Table)
      → let r = increment opts attempts scope_type scope_key window t in
        (r.calls ≤ opts.max_attempts)
        × (length r.delays ≤ opts.max_attempts - 1)
        × All (λ d. d ≤ second) r.delays
  unfolding increment
  increment_bounded t =
      let c = from_count opts.max_attempts 1 none t (omega arith) in
      (c.0, c.1, from_delays opts.max_attempts 1 none t)
