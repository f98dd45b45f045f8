-- ===== src/Microservices/Orders/Charges.antt =====
-- What an order costs its user, and what the degraded mode lets through.
use go_basics.Common.{
  ℕ, ◌+◌, ◌^◌, ◌≤◌, ◌<◌, ◌≡◌, inl, inr, refl, ap, ◌∙◌, true, false, String, Option, none, some,
  List, [], ◌∷◌, arith, All, Bool-cases,
}
use go_basics.Common.Int.{
  ℤ, pos, ◌+ℤ◌, ◌*ℤ◌, ◌≤ℤ◌, ◌<ℤ◌, leb_ℤ, int64, int64_exact, Fits64, +ℤ_parts,
}
use go_basics.Common.Dict.{string_comparable, lookup}
use go_basics.Microservices.Platform.{retryable, status, unavailable, circuit_open}
use go_basics.Microservices.Platform.Breaker.{closed, opened, guarded, allow}
use go_basics.Microservices.Platform.Retry.{default_retry, retry, succeeded}
use go_basics.Microservices.Platform.Retry.Recovery.{retry_second}
use go_basics.Microservices.Users
use go_basics.Microservices.Users.{
  User, Moment, chaos, Reply, replied, refused, Credit, spent_of, charge, validate_credit,
}
use go_basics.Microservices.Users.Accounts.{IsSoundAccount, charge_lem}
use go_basics.Microservices.Orders.{
  Line, Order, pending, Request, refuse, total_from, start, proceed, credit, unchecked, Call, World,
  delivered, reply_lost, attempt, error_of, check_credit, create_order, after_start, settle,
  persist, new_order,
}

-- The exact total of the lines, before this much.
pub exact_total : ℤ → List Line → ℤ
exact_total t [] = t
exact_total t (l ∷ ls) = exact_total (t +ℤ (l.quantity *ℤ l.unit_price_cents)) ls

-- Lines with positive quantities and prices that are not negative.
abbrev pub IsPriced : Line → Type 0
IsPriced l = (pos 0 <ℤ l.quantity) × (pos 0 ≤ℤ l.unit_price_cents)

cost_nonneg : (q p : ℤ) → pos 0 <ℤ q → pos 0 ≤ℤ p → pos 0 ≤ℤ q *ℤ p
unfolding ◌*ℤ◌
cost_nonneg (pos q) (pos p) some_units nonneg = ground arith
cost_nonneg q p some_units nonneg = ground arith

fits_between : (z e : ℤ) → pos 0 ≤ℤ z → z ≤ℤ e → Fits64 e → Fits64 z
fits_between z e lo hi fits = ground arith

exact_total-mono : (t : ℤ) (ls : List Line) → All IsPriced ls → t ≤ℤ exact_total t ls
unfolding exact_total
exact_total-mono t [] h = omega arith
exact_total-mono t (l ∷ ls) h =
    let x = l.quantity *ℤ l.unit_price_cents in
    omega (
      arith,
      cost_nonneg l.quantity l.unit_price_cents h.0.0 h.0.1,
      +ℤ_parts t x,
      exact_total-mono (t +ℤ x) ls h.1,
    )

-- For lines with positive quantities and prices that are not negative, whose exact total fits an
-- `int64`, the total that is computed is exact.
pub total_from_exact :
    (t : ℤ) (ls : List Line)
    → pos 0 ≤ℤ t
    → All IsPriced ls
    → Fits64 (exact_total t ls)
    → total_from t ls ≡ some (exact_total t ls)
unfolding exact_total total_from
total_from_exact t [] nonneg h fits = refl
total_from_exact t (l ∷ ls) nonneg h fits =
    let x = l.quantity *ℤ l.unit_price_cents in
    let cost = cost_nonneg l.quantity l.unit_price_cents h.0.0 h.0.1 in
    let sum = +ℤ_parts t x in
    let grows = exact_total-mono (t +ℤ x) ls h.1 in
    let e = exact_total (t +ℤ x) ls in
    let exact_cost = int64_exact x (fits_between x e cost (omega (arith, sum, grows)) fits) in
    let exact_sum =
      int64_exact (t +ℤ x) (fits_between (t +ℤ x) e (omega (arith, sum, cost)) grows fits) in
    rw (exact_cost, exact_sum)
      (ground (arith, total_from_exact (t +ℤ x) ls (omega (arith, sum, cost)) h.1 fits))

-- Nothing bounds a price: two units at 2^62 cents or more, up to the largest `int64`, make a
-- negative total.
pub total_wraps :
    (sku : String) (price : ℕ)
    → 2 ^ 62 ≤ price
    → price < 2 ^ 63
    → (t : ℤ) × (total_from
          (pos 0)
          (record { sku = sku; quantity = pos 2; unit_price_cents = pos price } ∷ [])
        ≡ some t)
      × (t <ℤ pos 0)
unfolding total_from int64 ◌+ℤ◌ ◌*ℤ◌
total_wraps sku price big fits = (int64 (pos 0 +ℤ int64 (pos 2 *ℤ pos price)), refl, ground arith)

-- A user service that runs without chaos, with an active user who has a sound account.
pub record Serves (s : Users.Service) (id : String) (u : User) : Type 0 where
  pub no_outage : s.fail_until ≡ 0
  pub no_latency : s.latency ≡ 0
  pub known : lookup id s.users ≡ some u
  pub is_active : u.active ≡ true
  pub sound : IsSoundAccount u s

-- A call of such a service charges the user.
served :
    (m : Moment) (id : String) (u : User) (amount : ℤ) (s : Users.Service)
    → Serves s id u
    → validate_credit m id amount s ≡ (replied (charge u amount s).0, (charge u amount s).1)
unfolding validate_credit chaos
served m id u amount s h = ground (arith, h.known, h.is_active, h.no_outage, h.no_latency)

charge_fields :
    (u : User) (amount : ℤ) (s : Users.Service)
    → let s' = (charge u amount s).1 in
      (s'.users ≡ s.users) × (s'.fail_until ≡ s.fail_until) × (s'.latency ≡ s.latency)
unfolding charge
charge_fields u amount s = ground arith

-- Within the user's limit the charge is approved, and the service goes on serving.
charge_room :
    (id : String) (u : User) (amount : ℤ) (s : Users.Service)
    → Serves s id u
    → pos 0 ≤ℤ amount
    → spent_of s u.id +ℤ amount ≤ℤ u.credit_limit_cents
    → let (c, s') = charge u amount s in
      (c.approved ≡ true) × (spent_of s' u.id ≡ spent_of s u.id +ℤ amount) × Serves s' id u
charge_room id u amount s h nonneg room =
    let r = charge_lem u amount s h.sound nonneg in
    let f = charge_fields u amount s in
    let ok : (charge u amount s).0.approved ≡ true =
      elim (Bool-cases (charge u amount s).0.approved) [
        | inl ok ↦ ok
        | inr ko ↦ absurd (omega (arith, (r.1 ko).0))
      ] in
    (
      ok,
      (r.0 ok).1,
      record {
        no_outage = f.1 ∙ h.no_outage;
        no_latency = f.2 ∙ h.no_latency;
        known = ap (λ d. lookup id d) f.0 ∙ h.known;
        is_active = h.is_active;
        sound = r.3;
      },
    )

-- The credit check through a closed circuit, where the retried calls succeed.
check_succeeded :
    (call : Call) (id : String) (total : ℤ) (w : World) {s2 : Users.Service} {c : Credit}
    → w.breaker.state ≡ closed
    → let r =
        retry default_retry call.pauses (λ n. attempt (call.wires n) id total) (w.users, none) in
      r.ended ≡ succeeded
      → r.state ≡ (s2, some c)
      → let (ch, w') = check_credit call id total w in (ch ≡ credit c) × (w'.users ≡ s2)
unfolding check_credit guarded allow error_of
check_succeeded call id total w closed_now ended state =
    rw (closed_now, ended, state, guarded) (refl, refl)

check_open :
    (call : Call) (id : String) (total : ℤ) (w : World)
    → w.breaker.state ≡ opened
    → call.asked_at < w.breaker.opened_at + w.breaker.cooldown
    → check_credit call id total w ≡ (unchecked circuit_open, w)
unfolding check_credit guarded allow
check_open call id total w open_now early = ground arith

-- A reply that is lost costs the user twice. The user service runs without chaos and the user has
-- room for twice the total, which is not negative; the circuit is closed. If the first call of the
-- user service gets through and only its reply is lost, with Unavailable, and the second gets
-- through, the credit check is approved, and the user has spent twice the total for one order.
pub charged_twice :
    (call : Call) (id : String) (total : ℤ) (w : World) (u : User) (m m' : Moment)
    → Serves w.users id u
    → w.breaker.state ≡ closed
    → call.wires 1 ≡ reply_lost m (status unavailable)
    → (call.pauses 1).ended ≡ none
    → call.wires 2 ≡ delivered m'
    → pos 0 ≤ℤ total
    → spent_of w.users u.id +ℤ total +ℤ total ≤ℤ u.credit_limit_cents
    → let (ch, w') = check_credit call id total w in
      ((c : Credit) × (ch ≡ credit c) × (c.approved ≡ true))
      × (spent_of w'.users u.id ≡ spent_of w.users u.id +ℤ total +ℤ total)
unfolding attempt
charged_twice call id total w u m m' h closed_now lost calm through nonneg room =
    let s1 = (charge u total w.users).1 in
    let one =
      charge_room id u total w.users h nonneg
        (omega (arith, +ℤ_parts (spent_of w.users u.id +ℤ total) total)) in
    let two = charge_room id u total s1 one.2 nonneg (rw (one.1) room) in
    let (c2, s2) = charge u total s1 in
    let fn = λ (n : ℕ) (s : Users.Service × Option Credit). attempt (call.wires n) id total s in
    let first : fn 1 (w.users, none) ≡ (some (status unavailable), (s1, none)) =
      rw (lost, served m id u total w.users h) refl in
    let second : fn 2 (s1, none) ≡ (none, (s2, some c2)) =
      rw (through, served m' id u total s1 one.2) refl in
    let r =
      retry_second call.pauses fn (w.users, none) (s1, none) (s2, some c2) (status unavailable)
        first (unfold retryable in refl) calm second in
    let done = check_succeeded call id total w closed_now r.0 r.1 in
    ((c2, done.0, two.0), ap (λ v. spent_of v u.id) done.1 ∙ two.1 ∙ ap (λ z. z +ℤ total) one.1)

-- While the circuit is open and has not cooled down, a request with a new key, or none, a user and
-- lines is decided without the user service: it is stored as PENDING if its total is at most 10,000
-- cents, and refused with Unavailable otherwise; neither the users nor the breaker change.
pub degraded :
    (order_id : ℕ → String) (call : Call) (req : Request) (w : World) (total : ℤ)
    → w.breaker.state ≡ opened
    → call.asked_at < w.breaker.opened_at + w.breaker.cooldown
    → start w.orders req ≡ proceed total
    → let (a, w') = create_order order_id call req w in
      (w'.users ≡ w.users)
      × (w'.breaker ≡ w.breaker)
      × (leb_ℤ total (pos 10_000) ≡ true
          → (o : Order) × (a.order ≡ some o) × (o.order_status ≡ pending) × (a.err ≡ none))
      × (leb_ℤ total (pos 10_000) ≡ false → (a ≡ refuse unavailable) × (w'.orders ≡ w.orders))
unfolding create_order settle persist
degraded order_id call req w total open_now early past =
    let e : create_order order_id call req w ≡ after_start order_id call req (proceed total) w =
      ap (λ st. after_start order_id call req st w) past in
    rw (e, check_open call req.user_id total w open_now early)
      (
        refl,
        refl,
        λ small. (
          new_order order_id req total pending call.persisted_at w.orders,
          rw small refl,
          refl,
          rw small refl,
        ),
        λ large. rw large (refl, refl),
      )
