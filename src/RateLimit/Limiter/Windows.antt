-- ===== src/RateLimit/Limiter/Windows.antt =====
-- Window starts: the Go formula, and the SQL formula of the store.
use native.Mathlib.Nat.{
  mod-lt, div-div-eq-div-mul, mul-div_cancel, mod-eq-sub-div-mul, div-mul-le_self, div_self,
  mul-mod_left, mul_comm,
}
use go_basics.Common.{ℕ, ◌+◌, ◌-◌, ◌*◌, ◌/◌, ◌%◌, ◌≤◌, ◌<◌, ◌≡◌, ◌≢◌, some, arith}
use go_basics.RateLimit.Limiter.{second, window_start}
use go_basics.RateLimit.Store.{sql_window_start}

mod-lt' : (n m : ℕ) → 0 < m → n % m < m
mod-lt' n m h = mod-lt n h

-- For every instant, and every window that is not refused, the instant lies in the window that
-- `WindowStart` gives: not before its start, and before its start plus the window.
pub contains_now :
    (now window : ℕ) {w : ℕ} → window_start now window ≡ some w → (w ≤ now) × (now < w + window)
unfolding window_start
contains_now now window h = ground (arith, mod-lt' (now / second) (window / second))

-- The start of the window of `k` units `s`, computed in units or at once.
whole_units : (now s k : ℕ) → 0 < s → (now / s - now / s % k) * s ≡ now / (k * s) * (k * s)
whole_units now s k h =
    let e = mod-eq-sub-div-mul (now / s) k in
    let d = div-div-eq-div-mul now s k in
    rw (mul_comm k s, ← d) (ground (arith, e, div-mul-le_self (now / s) k))

-- For a window of whole seconds, one or more, `WindowStart` and the SQL of the store give the same
-- start at every instant.
pub sql_window_start-eq :
    (now k : ℕ) → 0 < k → sql_window_start now (k * second) ≡ window_start now (k * second)
unfolding window_start sql_window_start
sql_window_start-eq now k h =
    rw (mul-div_cancel k {n = second} (omega arith)) (ground (arith, whole_units now second k))

-- For every window of at least one second that is not a number of whole seconds, the two formulas
-- give different starts at some instant: at the one that is a window's length after the epoch.
pub sql_window_start-ne :
    (window : ℕ)
    → second ≤ window
    → window % second ≢ 0
    → sql_window_start window window ≢ window_start window window
unfolding window_start sql_window_start
sql_window_start-ne window h f = ground (
  arith,
  div_self {n = window} (omega arith),
  mul-mod_left (window / second - window / second % (window / second)) second,
)
