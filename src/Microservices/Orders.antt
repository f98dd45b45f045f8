-- ===== src/Microservices/Orders.antt =====
-- 63_microservices/internal/orderservice/service.go, with the user service that it calls. A mutex
-- makes the reading of the maps and `persist` steps of their own: `start` and `settle` are what
-- `CreateOrder` does before and after the call of the user service. Quantities are `int32`s and
-- cents `int64`s, with the wrap-around of the sums. The texts of errors are left out.
pub mod Store
pub mod Keys
pub mod Replays
pub mod Charges
use go_basics.Common.{
  ℕ, suc, ◌+◌, Bool, true, false, ◌||◌, String, Option, none, some, List, [], ◌∷◌, str_eq, ltb,
  select, map, if◌then◌else◌,
}
use go_basics.Common.Int.{ℤ, pos, ◌+ℤ◌, ◌*ℤ◌, ltb_ℤ, leb_ℤ, int64}
use go_basics.Common.Dict.{Dict, string_comparable, lookup, insert}
use go_basics.Microservices.Platform.{
  Code, canceled, deadline_exceeded, unavailable, invalid_argument, not_found, permission_denied,
  failed_precondition, internal, Failure, status, context, circuit_open, plain, code_of,
}
use go_basics.Microservices.Platform.Retry.{
  Pause, default_retry, Ended, succeeded, failed, nothing_tried, panicked, Retried, retry,
}
use go_basics.Microservices.Platform.Breaker.{Breaker, new_breaker, guarded}
use go_basics.Microservices.Users
use go_basics.Microservices.Users.{Moment, Reply, replied, refused, Credit, validate_credit}

-- `orderv1.OrderLine`.
pub record Line : Type 0 where
  pub sku : String
  pub quantity : ℤ
  pub unit_price_cents : ℤ

-- `orderv1.Order_Status`.
pub data OrderStatus : Type 0 where
  pending confirmed rejected : OrderStatus

-- `orderv1.Order`.
pub record Order : Type 0 where
  pub id : String
  pub user_id : String
  pub lines : List Line
  pub total_cents : ℤ
  pub order_status : OrderStatus
  pub created_at : ℕ

-- `orderv1.CreateOrderRequest`.
pub record Request : Type 0 where
  pub user_id : String
  pub lines : List Line
  pub idempotency_key : String

-- The maps of `Service`, and its sequence number, a natural number: 2^63 orders are not made.
pub record Service : Type 0 where
  pub orders : Dict String Order
  pub idem : Dict String String
  pub seq : ℕ

-- The maps that `New` makes.
abbrev pub new_service : Service
new_service = record { orders = []; idem = []; seq = 0 }

-- A response and an error, either of which may be nil. `order` is nil, too, where the response
-- holds a nil order.
pub record Answer : Type 0 where
  pub order : Option Order
  pub err : Option Failure

abbrev pub refuse : Code → Answer
refuse c = record { order = none; err = some (status c) }

abbrev pub is_empty {ℓ} : {A : Type ℓ} → List A → Bool
is_empty [] = true
is_empty (x ∷ xs) = false

-- The loop over the lines: the total, or `none` where a quantity is not positive.
unfoldable pub total_from : ℤ → List Line → Option ℤ
total_from total [] = some total
total_from total (l ∷ ls) =
    let rest = total_from (int64 (total +ℤ int64 (l.quantity *ℤ l.unit_price_cents))) ls in
    if leb_ℤ l.quantity (pos 0) then none else rest

-- What the part before the call of the user service leads to: an answer, or the call with the
-- total.
pub data Start : Type 0 where
  answered : Answer → Start
  proceed : ℤ → Start

unfoldable pub begin_new : Request → Start
begin_new req = elim (total_from (pos 0) req.lines) [
  | none ↦ answered (refuse invalid_argument)
  | some total ↦ proceed total
]

-- The part of `CreateOrder` before the call: validation, idempotency, total.
unfoldable pub start : Service → Request → Start
unfolding begin_new
start s req =
    if str_eq req.user_id "" || is_empty req.lines
    then answered (refuse invalid_argument)
    else if str_eq req.idempotency_key ""
    then begin_new req
    else elim (lookup req.idempotency_key s.idem) [
      | some existing ↦ answered (record { order = lookup existing s.orders; err = none })
      | none ↦ begin_new req
    ]

-- What the call of the user service gives: `credit`, or an error.
pub data Checked : Type 0 where
  credit : Credit → Checked
  unchecked : Failure → Checked

-- `errors.Is(err, ErrCircuitOpen) || status.Code(err) == Unavailable`.
unfoldable pub is_down : Failure → Bool
is_down circuit_open = true
is_down (status unavailable) = true
is_down e = false

-- The code that an error is passed on with, where the user service is not down.
unfoldable pub passed_on : Code → Code
passed_on not_found = not_found
passed_on failed_precondition = failed_precondition
passed_on invalid_argument = invalid_argument
passed_on permission_denied = permission_denied
passed_on deadline_exceeded = deadline_exceeded
passed_on canceled = canceled
passed_on c = internal

-- `order_id n` is `fmt.Sprintf("o%d", n)`.
module _ (order_id : ℕ → String) where
  pub new_order : Request → ℤ → OrderStatus → ℕ → Service → Order
  new_order req total st now s = record {
    id = order_id (suc s.seq);
    user_id = req.user_id;
    lines = req.lines;
    total_cents = total;
    order_status = st;
    created_at = now;
  }

  -- `persist`, at the instant `now`.
  unfoldable pub persist : Request → ℤ → OrderStatus → ℕ → Service → Answer × Service
  unfolding new_order
  persist req total st now s =
      let o = new_order req total st now s in
      (
        record { order = some o; err = none },
        record {
          orders = insert o.id o s.orders;
          idem =
              if str_eq req.idempotency_key ""
              then s.idem
              else insert req.idempotency_key o.id s.idem;
          seq = suc s.seq;
        },
      )

  -- `persistRejected`.
  unfoldable pub persist_rejected : Request → ℤ → ℕ → Service → Answer × Service
  unfolding persist
  persist_rejected req total now s = (
    record (persist req total rejected now s).0 { err = some (status failed_precondition) },
    (persist req total rejected now s).1,
  )

  -- The part of `CreateOrder` after the call.
  unfoldable pub settle : Request → ℤ → Checked → ℕ → Service → Answer × Service
  unfolding is_down passed_on
  settle req total (credit c) now s =
      if c.approved then persist req total confirmed now s else persist_rejected req total now s
  settle req total (unchecked e) now s =
      if is_down e
      then if leb_ℤ total (pos 10_000)
        then persist req total pending now s
        else (refuse unavailable, s)
      else (refuse (passed_on (code_of e)), s)

-- What the network does with one call of ValidateCredit.
pub data Wire : Type 0 where
  -- it reaches the user service, and the reply comes back
  delivered : Moment → Wire
  -- it reaches the user service, and the caller sees this error instead of the reply
  reply_lost : Moment → Failure → Wire
  -- it does not reach the user service
  not_delivered : Failure → Wire

abbrev got :
    Option Credit → Reply Credit × Users.Service → Option Failure × (Users.Service × Option Credit)
got old (replied c, u) = (none, (u, some c))
got old (refused e, u) = (some e, (u, old))

-- One attempt: the call, and `credit`, which it sets where it succeeds.
unfoldable pub attempt :
    Wire
    → String
    → ℤ
    → Users.Service × Option Credit
    → Option Failure × (Users.Service × Option Credit)
attempt (delivered m) id total (u, c) = got c (validate_credit m id total u)
attempt (reply_lost m e) id total (u, c) = (some e, ((validate_credit m id total u).1, c))
attempt (not_delivered e) id total (u, c) = (some e, (u, c))

-- What `retry.Do` returns. Its panic cannot happen with the default policy.
unfoldable pub error_of : Ended → Option Failure
error_of succeeded = none
error_of (failed e) = some e
error_of nothing_tried = some plain
error_of panicked = some (status internal)

-- What happens outside during `CreateOrder`: the breaker's clock, the network and the pauses of
-- each attempt, and the clock of `persist`.
pub record Call : Type 0 where
  pub asked_at : ℕ
  pub wires : ℕ → Wire
  pub pauses : ℕ → Pause
  pub failed_at : ℕ
  pub persisted_at : ℕ

-- `err` and `credit` after the call.
abbrev checked : Option Failure → Option Credit → Checked
checked (some e) c = unchecked e
checked none (some c) = credit c
-- a nil `credit` is not approved: its getters give zero values
checked none none = credit (record { approved = false; remaining_cents = pos 0 })

-- The two services and the breaker between them.
pub record World : Type 0 where
  pub breaker : Breaker
  pub users : Users.Service
  pub orders : Service

-- The breaker that `New` makes.
unfoldable pub user_breaker : Breaker
user_breaker = new_breaker 3 2_000_000_000

-- The call of the user service: breaker(retry(attempt)).
unfoldable pub check_credit : Call → String → ℤ → World → Checked × World
check_credit call user_id total w =
    let (err, (b, (u, c))) =
      guarded call.asked_at call.failed_at
        (λ (s : Users.Service × Option Credit).
          let r = retry default_retry call.pauses (λ n. attempt (call.wires n) user_id total) s in
          (error_of r.ended, r.state))
        (w.breaker, (w.users, none)) in
    (checked err c, record w { breaker = b; users = u })

module _ (order_id : ℕ → String) where
  after_start : Call → Request → Start → World → Answer × World
  after_start call req (answered a) w = (a, w)
  after_start call req (proceed total) w =
      let (ch, w') = check_credit call req.user_id total w in
      let (a, s) = settle order_id req total ch call.persisted_at w'.orders in
      (a, record w' { orders = s })

  -- `CreateOrder`, with no other request in between.
  unfoldable pub create_order : Call → Request → World → Answer × World
  unfolding after_start
  create_order call req w = after_start call req (start w.orders req) w

-- `GetOrder`.
unfoldable pub get_order : String → Service → Answer
get_order id s = elim (lookup id s.orders) [
  | some o ↦ record { order = some o; err = none }
  | none ↦ refuse not_found
]

-- `ListOrders`, in some order of the map's keys.
unfoldable pub list_orders : String → Service → List Order
list_orders user_id s =
    select (λ o. str_eq user_id "" || str_eq o.user_id user_id) (map (λ p. p.1) s.orders)
