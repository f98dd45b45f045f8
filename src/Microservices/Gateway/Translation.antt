-- ===== src/Microservices/Gateway/Translation.antt =====
-- The responses of 63_microservices/internal/gateway/gateway.go, against what the services return
-- and what the order service demands of a request.
use go_basics.Common.{
  ℕ, ◌≤◌, ◌<◌, true, ◌&&◌, not, String, none, List, [], ◌∷◌, ◌≡◌, refl, ◌⊎◌, ◌≢◌, arith, str_eq,
  if◌then◌else◌, leb,
}
use go_basics.Common.Int.{ℤ, pos, int64, ◌+ℤ◌, ◌*ℤ◌}
use go_basics.Microservices.Platform.{Code, Failure, code_of, ok, invalid_argument}
use go_basics.Microservices.Orders.{
  Line, Request, Service, start, begin_new, answered, refuse, total_from, is_empty,
}
use go_basics.Microservices.Gateway.{
  http_status, own, upstream_error, Response, error_json, bad_body, json, fail, CreateOrderBody,
  all_of, binds, line_binds, request_of,
}

http_status-range : (c : Code) → c ≢ ok → (400 ≤ http_status c) × (http_status c ≤ 504)
unfolding http_status
http_status-range c h = ground arith

-- A response that reports the error `e`: with its code, the code's status, from 400 to 504 unless
-- the code is OK, and the upstream's own message below 500, the generic one from there.
unfoldable pub IsErrorOf : {A : Type 0} → Failure → String → Response A → Type 0
IsErrorOf e id (json n a) = ⊥
IsErrorOf e id bad_body = ⊥
IsErrorOf e id (error_json n m c rid) =
    (rid ≡ id)
    × (c ≡ code_of e)
    × (n ≡ http_status c)
    × ((c ≢ ok) → (400 ≤ n) × (n ≤ 504))
    × (((500 ≤ n) × (m ≡ upstream_error)) ⊎ ((n < 500) × (m ≡ own e)))

message_cases :
    (n : ℕ) (e : Failure)
    → let m = if leb 500 n then upstream_error else own e in
      ((500 ≤ n) × (m ≡ upstream_error)) ⊎ ((n < 500) × (m ≡ own e))
message_cases n e = ground arith

-- What `fail` writes for an error carries the request's id, the error's code and that code's HTTP status,
-- from 400 to 504 unless the code is OK; the upstream's own message is passed on only below 500, and the
-- generic one from there.
pub fail-IsErrorOf :
    (A : Type 0) (request_id : String) (e : Failure)
    → IsErrorOf e request_id (fail {A = A} request_id e)
unfolding IsErrorOf fail
fail-IsErrorOf A request_id e =
    (refl, refl, refl, http_status-range (code_of e), message_cases (http_status (code_of e)) e)

total_from-binds :
    (total : ℤ) (ls : List Line) → all_of line_binds ls ≡ true → total_from total ls ≢ none
unfolding total_from line_binds
total_from-binds total [] h = ground arith
total_from-binds total (l ∷ ls) h =
    ground (arith, total_from-binds (int64 (total +ℤ int64 (l.quantity *ℤ l.unit_price_cents))) ls)

begin_new-binds :
    (req : Request)
    → all_of line_binds req.lines ≡ true
    → begin_new req ≢ answered (refuse invalid_argument)
unfolding begin_new
begin_new-binds req h = ground (arith, total_from-binds (pos 0) req.lines h)

start-binds :
    (req : Request) (s : Service)
    → (not (str_eq req.user_id "") && (not (is_empty req.lines) && all_of line_binds req.lines))
      ≡ true
    → start s req ≢ answered (refuse invalid_argument)
unfolding start
start-binds req s h = ground (arith, begin_new-binds req)

-- Whatever orders there are: a body that createOrder's binding accepts makes a request that the order
-- service does not refuse as invalid before the credit check.
pub binds-start :
    (request_id header : String) (b : CreateOrderBody) (s : Service)
    → binds b ≡ true
    → start s (request_of request_id header b) ≢ answered (refuse invalid_argument)
unfolding binds request_of
binds-start request_id header b s h = start-binds (request_of request_id header b) s h
