-- ===== src/RateLimit/Service/Attempts.antt =====
-- The retry loop.
use go_basics.Common.{
  ℕ, zero, suc, ◌+◌, ◌≤◌, ◌<◌, ◌≡◌, ◌⊎◌, inl, inr, ap, ◌∙◌, sym, refl, List, String, Option, none,
  some, arith,
}
use go_basics.RateLimit.Store.{
  Table, pg_error, Slot, Counted, Failure, Outcome, done, failed, count_of,
  increment as store_increment,
}
use go_basics.RateLimit.Store.Counts.{slot, increment_mono, increment_done}
use go_basics.RateLimit.Service.{
  Options, Attempt, Next, stop, again, Attempted, finish, after_attempt, increment_from, increment,
}

-- Counts never fall in a round, and what is returned as counted is the row's new count.
finish_mono :
    (n : Next) (t : Table) (rest : Failure → Attempted) (s : Slot) (k : ℕ)
    → k ≤ count_of t s
    → ((e : Failure) → k ≤ count_of (rest e).table s)
    → k ≤ count_of (finish n t rest).table s
unfolding finish
finish_mono (stop ds o) t rest s k h hs = h
finish_mono (again d e) t rest s k h hs = hs e

-- A result comes from this attempt's statement, or from the rest of the loop.
finish_done :
    (n : Next) (t : Table) (rest : Failure → Attempted) {c : Counted}
    → (finish n t rest).outcome ≡ done c
    → ((ds : List ℕ) × (n ≡ stop ds (done c)) × ((finish n t rest).table ≡ t))
      ⊎ ((e : Failure) × ((rest e).outcome ≡ done c) × ((finish n t rest).table ≡ (rest e).table))
unfolding finish
finish_done (stop ds o) t rest h = inl (ds, ap (stop ds) h, refl)
finish_done (again d e) t rest h = inr (e, h, refl)

after_attempt_done :
    (opts : Options) (a : Attempt) (attempt : ℕ) (out : Outcome) {ds : List ℕ} {c : Counted}
    → after_attempt opts a attempt out ≡ stop ds (done c)
    → out ≡ done c
unfolding after_attempt
after_attempt_done opts a attempt (done r) h = cc
after_attempt_done opts a attempt (failed e) h = ground arith

module _ (opts : Options) (attempts : ℕ → Attempt) (scope_type scope_key : String)
    (window : ℕ) where
  -- The loop from a later attempt.
  abbrev from : ℕ → ℕ → Option Failure → Table → Attempted
  from = increment_from opts attempts scope_type scope_key window

  from_mono :
      (left attempt : ℕ) (last_err : Option Failure) (t : Table) (s : Slot)
      → count_of t s ≤ count_of (from left attempt last_err t).table s
  unfolding increment_from
  from_mono zero attempt last_err t s = omega arith
  from_mono (suc left) attempt last_err t s =
      let a = attempts attempt in
      let (out, t') = store_increment a.reply scope_type scope_key window t in
      let up = increment_mono a.reply scope_type scope_key window t s in
      finish_mono (after_attempt opts a attempt out) t' (λ e. from left (attempt + 1) (some e) t') s
        (count_of t s) up (λ e. omega (arith, up, from_mono left (attempt + 1) (some e) t' s))

  from_done :
      (left attempt : ℕ) (e : Failure) (t : Table) {c : Counted}
      → (from left attempt (some e) t).outcome ≡ done c
      → let s = slot scope_type scope_key c.window_start in
        (count_of t s + 1 ≤ c.count) × (count_of (from left attempt (some e) t).table s ≡ c.count)
  unfolding increment_from
  from_done zero attempt e t h = cc
  from_done (suc left) attempt e t {c} h =
      let a = attempts attempt in
      let (out, t') = store_increment a.reply scope_type scope_key window t in
      let s = slot scope_type scope_key c.window_start in
      let rest = λ (e' : Failure). from left (attempt + 1) (some e') t' in
      elim (finish_done (after_attempt opts a attempt out) t' rest h) [
        | inl (ds, ended, at) ↦
            let d =
              increment_done a.reply scope_type scope_key window t
                (after_attempt_done opts a attempt out ended) in
            (omega (arith, d.0), ap (λ u. count_of u s) at ∙ d.1)
        | inr (e', later, at) ↦
            let d = from_done left (attempt + 1) e' t' later in
            let up = increment_mono a.reply scope_type scope_key window t s in
            (omega (arith, d.0, up), ap (λ u. count_of u s) at ∙ d.1)
      ]

  -- The first round does not look at `lastErr`.
  from_first :
      (left attempt : ℕ) (last_err last_err' : Option Failure) (t : Table)
      → 0 < left
      → from left attempt last_err t ≡ from left attempt last_err' t
  unfolding increment_from
  from_first zero attempt last_err last_err' t h = absurd (omega arith)
  from_first (suc left) attempt last_err last_err' t h = refl

  -- No row's count falls.
  pub increment_keeps :
      (t : Table) (s : Slot)
      → count_of t s ≤ count_of (increment opts attempts scope_type scope_key window t).table s
  unfolding increment
  increment_keeps t s = from_mono opts.max_attempts 1 none t s

  -- With at least one attempt to make, what `increment` returns as counted is the count that the
  -- table now holds for that window, and at least one more than it held before.
  pub increment_counts :
      (t : Table) {c : Counted}
      → 0 < opts.max_attempts
      → (increment opts attempts scope_type scope_key window t).outcome ≡ done c
      → let s = slot scope_type scope_key c.window_start in
        (count_of t s + 1 ≤ c.count)
        × (count_of (increment opts attempts scope_type scope_key window t).table s ≡ c.count)
  unfolding increment
  increment_counts t {c} some_attempt h =
      let none_seen = pg_error "" in
      let first = from_first opts.max_attempts 1 none (some none_seen) t some_attempt in
      let d =
        from_done opts.max_attempts 1 none_seen t {c = c} (ap (λ r. r.outcome) (sym first) ∙ h) in
      let s = slot scope_type scope_key c.window_start in
      (d.0, ap (λ (r : Attempted). count_of r.table s) first ∙ d.1)
