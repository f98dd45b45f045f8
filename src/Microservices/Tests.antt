-- ===== src/Microservices/Tests.antt =====
-- Concrete runs of the services of 63_microservices. Order ids are unary here.
use go_basics.Common.Int.{ℤ, pos, ◌+ℤ◌, ◌-ℤ◌, ◌*ℤ◌, int64, ◌<ℤ◌}
use go_basics.Common.Dict.{string_comparable, lookup, insert}
use go_basics.Microservices.Platform.{
  unavailable, Failure, status, context, ctx_deadline, code_of, retryable,
}
use go_basics.Microservices.Platform.Retry.{
  default_retry, Pause, failed, panicked, retry, retry_from, round, continue,
}
use go_basics.Microservices.Platform.Retry.Laws.{InRange, Reason, retry_bounded}
use go_basics.Microservices.Platform.Breaker.{
  opened, Breaker, new_breaker, guarded, report, allow, on_success,
}
use go_basics.Microservices.Users
use go_basics.Microservices.Users.{User, Moment, Credit, spent_of, charge, chaos, validate_credit}
use go_basics.Microservices.Users.Accounts.{IsSoundAccount}
use go_basics.Microservices.Orders.{
  Line, confirmed, Order, Request, new_service, total_from, begin_new, start, credit, settle,
  persist, Wire, delivered, reply_lost, Call, World, attempt, error_of, check_credit, create_order,
}
use go_basics.Microservices.Orders.Store.{new_service-IsSound}
use go_basics.Microservices.Orders.Replays.{serve_all, replay}
use go_basics.Microservices.Orders.Charges.{total_wraps, Serves, charged_twice}
use go_basics.Microservices.Gateway.{CreateOrderBody}
use text.Mathlib.TextBridge.{of_list, to_list, to_list-of_list}
use Prim.Native.Char.{Char}
use go_basics.Common.{
  ℕ, zero, suc, ◌+◌, ◌-◌, ◌≤◌, ◌<◌, ◌≡◌, ◌≢◌, refl, sym, ap, ◌∙◌, true, String, Option, none, some,
  [], ◌∷◌, arith, All, length, replicate, eq_iff,
}

abbrev unary : ℕ → String
unary n = of_list (replicate n "o")

length-replicate : (n : ℕ) → length (replicate {A = Char} n "o") ≡ n
length-replicate zero = refl
length-replicate (suc n) = ap suc (length-replicate n)

unary_injective : (m n : ℕ) → unary m ≡ unary n → m ≡ n
unary_injective m n h =
    sym (length-replicate m)
    ∙ ap length
        (sym (to_list-of_list (replicate m "o")) ∙ ap to_list h ∙ to_list-of_list (replicate n "o"))
    ∙ length-replicate n

abbrev no_pause : Pause
no_pause = record { draw = λ n. 0; ended = none }

abbrev down : Failure
down = status unavailable

-- A dependency that fails once.
abbrev flaky : ℕ → ℕ → Option Failure × ℕ
flaky zero s = (none, s)
flaky (suc zero) s = (some down, suc s)
flaky (suc (suc n)) s = (none, s)

default-InRange : InRange default_retry
default-InRange zero h = ground arith
default-InRange (suc zero) h = ground arith
default-InRange (suc (suc zero)) h = ground arith
default-InRange (suc (suc (suc k))) h = absurd (ground arith)

retry_bounded_example :
    let r = retry default_retry (λ n. no_pause) flaky 0 in
    (r.calls ≤ default_retry.max_attempts)
    × (length r.waits ≤ default_retry.max_attempts - 1)
    × All (λ d. d ≤ default_retry.max_backoff) r.waits
    × (InRange default_retry → r.ended ≢ panicked)
    × ((e : Failure) → r.ended ≡ failed e → Reason default_retry r.calls e)
retry_bounded_example =
    retry_bounded default_retry (λ n. no_pause) flaky (λ n m positive. positive) 0

fails_once :
    (n s : ℕ) → 1 ≤ n → n < 1 + 1 → (e : Failure) × ((flaky n s).0 ≡ some e) × (retryable e ≡ true)
unfolding retryable code_of
fails_once zero s h k = absurd (omega arith)
fails_once (suc zero) s h k = (down, refl, refl)
fails_once (suc (suc n)) s h k = absurd (omega arith)

abbrev tripped : Breaker
tripped = record (new_breaker 3 10) { state = opened; opened_at = 100 }

-- The caller's deadline ends while a retry waits.
abbrev cut_short : ℕ → Option Failure × ℕ
cut_short s = (some (context ctx_deadline), s)

abbrev steve : User
steve = record {
  id = "u2";
  email = "broke@example.com";
  full_name = "Skint Steve";
  credit_limit_cents = pos 1_000;
  active = true;
}

abbrev users : Users.Service
users = record { users = ("u2", steve) ∷ []; spent = []; fail_until = 0; latency = 0 }

steve-IsSoundAccount : IsSoundAccount steve users
unfolding spent_of lookup
steve-IsSoundAccount = ground arith

abbrev moment : Moment
moment = record { now = 7; ended = none }

abbrev order_line : Line
order_line = record { sku = "sku-1"; quantity = pos 2; unit_price_cents = pos 300 }

abbrev request : Request
request = record { user_id = "u2"; lines = order_line ∷ []; idempotency_key = "k" }

abbrev reached : Call
reached = record {
  asked_at = 1;
  wires = λ n. delivered moment;
  pauses = λ n. no_pause;
  failed_at = 2;
  persisted_at = 3;
}

abbrev world : World
world = record { breaker = new_breaker 3 10; users = users; orders = new_service }

request_keyed : request.idempotency_key ≢ ""
request_keyed = ground (arith, eq_iff "k" "")

request_user : request.user_id ≢ ""
request_user = ground (arith, eq_iff "u2" "")

abbrev made : Order
made = record {
  id = "o";
  user_id = "u2";
  lines = order_line ∷ [];
  total_cents = pos 600;
  order_status = confirmed;
  created_at = 3;
}

made_first : (create_order unary reached request world).0.order ≡ some made
unfolding create_order start begin_new total_from lookup check_credit guarded retry retry_from round
    continue int64 ◌+ℤ◌ ◌-ℤ◌ ◌*ℤ◌ settle persist allow on_success report new_breaker error_of
    attempt validate_credit chaos charge spent_of insert
made_first = refl

replay_example :
    let w' =
      serve_all unary unary_injective
        ((reached, request) ∷ [])
        (create_order unary reached request world).1 in
    create_order unary reached request w' ≡ (record { order = some made; err = none }, w')
replay_example =
    replay unary unary_injective reached request world made ((reached, request) ∷ []) reached
      request (new_service-IsSound unary) request_keyed made_first refl request_user refl

total_wraps_example :
    (t : ℤ) × (total_from (pos 0) (
        record { sku = "gold"; quantity = pos 2; unit_price_cents = pos 4_611_686_018_427_387_904 }
        ∷ [])
      ≡ some t)
    × (t <ℤ pos 0)
total_wraps_example = total_wraps "gold" 4_611_686_018_427_387_904 (omega arith) (omega arith)

-- The reply to the first attempt is lost.
abbrev lossy : ℕ → Wire
lossy zero = delivered moment
lossy (suc zero) = reply_lost moment down
lossy (suc (suc n)) = delivered moment

abbrev lossy_call : Call
lossy_call = record reached { wires = lossy }

steve-Serves : Serves users "u2" steve
unfolding lookup
steve-Serves = record {
  no_outage = refl;
  no_latency = refl;
  known = refl;
  is_active = refl;
  sound = steve-IsSoundAccount;
}

charged_twice_example :
    let (ch, w') = check_credit lossy_call "u2" (pos 400) world in
    ((c : Credit) × (ch ≡ credit c) × (c.approved ≡ true))
    × (spent_of w'.users "u2" ≡ spent_of users "u2" +ℤ pos 400 +ℤ pos 400)
unfolding new_breaker spent_of lookup ◌+ℤ◌
charged_twice_example =
    charged_twice lossy_call "u2" (pos 400) world steve moment moment steve-Serves refl refl refl
      refl (omega arith) (ground arith)

abbrev dark : World
dark = record world { breaker = record tripped { opened_at = 1 } }

abbrev body : CreateOrderBody
body = record { user_id = "u2"; lines = order_line ∷ [] }
