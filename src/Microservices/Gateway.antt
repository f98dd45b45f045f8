-- ===== src/Microservices/Gateway.antt =====
-- 63_microservices/internal/gateway/gateway.go. The clients of the two services are arguments: what
-- each returns for a request. JSON bodies are values; a body that does not bind is an error.
pub mod Translation
use go_basics.Common.{
  ℕ, Bool, true, false, not, ◌&&◌, String, Option, none, some, List, [], ◌∷◌, str_eq, leb, map,
  if◌then◌else◌,
}
use go_basics.Common.Int.{ℤ, pos, ltb_ℤ}
use go_basics.Microservices.Platform.{
  Code, ok, canceled, unknown, invalid_argument, deadline_exceeded, not_found, already_exists,
  permission_denied, resource_exhausted, failed_precondition, aborted, out_of_range, unimplemented,
  unavailable, unauthenticated, Failure, code_of,
}
use go_basics.Microservices.Users.{User, Reply, replied, refused}
use go_basics.Microservices.Orders.{Line, Order, OrderStatus, Request, Answer, is_empty}

-- `httpStatus`.
unfoldable pub http_status : Code → ℕ
http_status ok = 200
http_status invalid_argument = 400
http_status out_of_range = 400
http_status unauthenticated = 401
http_status permission_denied = 403
http_status not_found = 404
http_status already_exists = 409
http_status aborted = 409
http_status failed_precondition = 422
http_status resource_exhausted = 429
http_status canceled = 499
http_status unimplemented = 501
http_status unavailable = 503
http_status deadline_exceeded = 504
http_status c = 500

-- The message of an error's JSON: the upstream's own, or the generic one.
pub data Message : Type 0 where
  own : Failure → Message
  upstream_error : Message

-- What is written: an error, with its status, message, code and request id; or a body.
pub data Response (A : Type 0) : Type 0 where
  error_json : ℕ → Message → Code → String → Response A
  -- status 400, with the error of the binding
  bad_body : Response A
  json : ℕ → A → Response A

-- `fail`.
unfoldable pub fail : {A : Type 0} → String → Failure → Response A
fail request_id e =
    let code = http_status (code_of e) in
    error_json code (if leb 500 code then upstream_error else own e) (code_of e) request_id

-- The id of `requestIDMiddleware`: the client's, or a new one.
unfoldable pub request_id_of : String → String → String
request_id_of header fresh = if str_eq header "" then fresh else header

-- The DTO of a user.
pub record UserBody : Type 0 where
  pub id : String
  pub email : String
  pub name : String
  pub credit_limit_cents : ℤ
  pub active : Bool

-- `getUser`.
unfoldable pub get_user : String → Reply User → Response UserBody
get_user request_id (refused e) = fail request_id e
get_user request_id (replied u) = json 200 (record {
  id = u.id;
  email = u.email;
  name = u.full_name;
  credit_limit_cents = u.credit_limit_cents;
  active = u.active;
})

-- The DTO of an order. The getters of a nil order give zero values, and its status is unspecified.
pub record OrderBody : Type 0 where
  pub id : String
  pub user_id : String
  pub total_cents : ℤ
  pub order_status : Option OrderStatus

order_body : Option Order → OrderBody
order_body none = record { id = ""; user_id = ""; total_cents = pos 0; order_status = none }
order_body (some o) = record {
  id = o.id;
  user_id = o.user_id;
  total_cents = o.total_cents;
  order_status = some o.order_status;
}

-- What follows the call in `createOrder` and `getOrder`.
unfoldable pub order_response : String → ℕ → Answer → Response OrderBody
unfolding order_body fail
order_response request_id success a = elim a.err [
  | some e ↦ fail request_id e
  | none ↦ json success (order_body a.order)
]

-- `createOrderBody`.
pub record CreateOrderBody : Type 0 where
  pub user_id : String
  pub lines : List Line

abbrev pub all_of {ℓ} : {A : Type ℓ} → (A → Bool) → List A → Bool
all_of p [] = true
all_of p (x ∷ xs) = p x && all_of p xs

-- The `binding` tags of a line: a sku, and a positive quantity and price.
unfoldable pub line_binds : Line → Bool
line_binds l =
    not (str_eq l.sku "") && (ltb_ℤ (pos 0) l.quantity && ltb_ℤ (pos 0) l.unit_price_cents)

-- The `binding` tags of the body: a user, and at least one line.
unfoldable pub binds : CreateOrderBody → Bool
unfolding line_binds
binds b = not (str_eq b.user_id "") && (not (is_empty b.lines) && all_of line_binds b.lines)

-- The idempotency key: the client's, or the request's id.
unfoldable pub key_of : String → String → String
key_of header request_id = if str_eq header "" then request_id else header

-- The request to the order service.
unfoldable pub request_of : String → String → CreateOrderBody → Request
unfolding key_of
request_of request_id header b = record {
  user_id = b.user_id;
  lines = b.lines;
  idempotency_key = key_of header request_id;
}

-- `createOrder`: the body, where it is JSON of the right type, the header Idempotency-Key, the order
-- service and its state.
unfoldable pub create_order :
    {S : Type 0}
    → String
    → String
    → Option CreateOrderBody
    → (Request → S → Answer × S)
    → S
    → Response OrderBody × S
unfolding binds request_of order_response
create_order request_id header none orders s = (bad_body, s)
create_order request_id header (some b) orders s =
    if binds b
    then (
      order_response request_id 201 (orders (request_of request_id header b) s).0,
      (orders (request_of request_id header b) s).1,
    )
    else (bad_body, s)

-- `getOrder`, from what the order service answers.
unfoldable pub get_order : String → Answer → Response OrderBody
unfolding order_response
get_order request_id a = order_response request_id 200 a

-- The entry of an order in a dashboard.
pub record OrderEntry : Type 0 where
  pub id : String
  pub total_cents : ℤ
  pub order_status : OrderStatus

-- The body of a dashboard.
pub record DashboardBody : Type 0 where
  pub id : String
  pub name : String
  pub orders : List OrderEntry

-- What ListOrders gives.
pub data Listed : Type 0 where
  listed : List Order → Listed
  unlisted : Failure → Listed

-- The orders that a dashboard shows: none where they cannot be had.
unfoldable pub shown_orders : Listed → List OrderEntry
shown_orders (unlisted e) = []
shown_orders (listed os) =
    map
      (λ (o : Order). record {
        id = o.id;
        total_cents = o.total_cents;
        order_status = o.order_status;
      })
      os

-- `dashboard`, from what the two calls give. The error group's first error can only be the user's.
unfoldable pub dashboard : String → Reply User → Listed → Response DashboardBody
unfolding shown_orders fail
dashboard request_id (refused e) orders = fail request_id e
dashboard request_id (replied u) orders =
    json 200 (record { id = u.id; name = u.full_name; orders = shown_orders orders })
