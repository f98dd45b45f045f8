-- ===== src/Microservices/Users.antt =====
-- 63_microservices/internal/userservice/service.go. The mutex makes each method that touches the
-- maps one step. Cents are `int64`s, with their wrap-around.
pub mod Accounts
use go_basics.Common.{
  ℕ, ◌+◌, Bool, true, false, ◌&&◌, String, Option, none, some, [], ◌∷◌, str_eq, ltb, if◌then◌else◌,
}
use go_basics.Common.Int.{ℤ, pos, ◌+ℤ◌, ◌-ℤ◌, ltb_ℤ, int64}
use go_basics.Common.Dict.{Dict, string_comparable, lookup, insert}
use go_basics.Microservices.Platform.{
  Code, canceled, deadline_exceeded, unavailable, invalid_argument, not_found, failed_precondition,
  ContextError, ctx_canceled, ctx_deadline, Failure, status,
}

-- `userv1.User`.
pub record User : Type 0 where
  pub id : String
  pub email : String
  pub full_name : String
  pub credit_limit_cents : ℤ
  pub active : Bool

-- `Service`. `fail_until` is an instant in nanoseconds since the epoch, `latency` a duration.
pub record Service : Type 0 where
  pub users : Dict String User
  pub spent : Dict String ℤ
  pub fail_until : ℕ
  pub latency : ℕ

-- `New`.
unfoldable pub new_service : Service
new_service = record {
  users =
      (
        "u1",
        record {
          id = "u1";
          email = "prince@example.com";
          full_name = "Prince Panchani";
          credit_limit_cents = pos 50_000;
          active = true;
        },
      )
      ∷ (
        "u2",
        record {
          id = "u2";
          email = "broke@example.com";
          full_name = "Skint Steve";
          credit_limit_cents = pos 1_000;
          active = true;
        },
      )
      ∷ (
        "u3",
        record {
          id = "u3";
          email = "banned@example.com";
          full_name = "Banned Betty";
          credit_limit_cents = pos 99_000;
          active = false;
        },
      )
      ∷ [];
  spent = [];
  fail_until = 0;
  latency = 0;
}

-- `FailFor`.
unfoldable pub fail_for : ℕ → ℕ → Service → Service
fail_for now d s = record s { fail_until = now + d }

-- `Recover`.
unfoldable pub recover : Service → Service
recover s = record s { fail_until = 0 }

-- `SetLatency`.
unfoldable pub set_latency : ℕ → Service → Service
set_latency d s = record s { latency = d }

-- What happens outside during a request: the clock, and `ctx.Err()` if the context ends before an
-- artificial delay does.
pub record Moment : Type 0 where
  pub now : ℕ
  pub ended : Option ContextError

-- `status.FromContextError`.
unfoldable pub from_context_error : ContextError → Failure
from_context_error ctx_canceled = status canceled
from_context_error ctx_deadline = status deadline_exceeded

-- `chaos`.
unfoldable pub chaos : Moment → Service → Option Failure
unfolding from_context_error
chaos m s =
    if ltb 0 s.fail_until && ltb m.now s.fail_until
    then some (status unavailable)
    else if ltb 0 s.latency
    then elim m.ended [ some c ↦ some (from_context_error c) | none ↦ none ]
    else none

pub data Reply {ℓ} (A : Type ℓ) : Type ℓ where
  replied : A → Reply A
  refused : Failure → Reply A

find_user : String → Service → Reply User
find_user id s =
    if str_eq id ""
    then refused (status invalid_argument)
    else elim (lookup id s.users) [ some u ↦ replied u | none ↦ refused (status not_found) ]

-- `GetUser`.
unfoldable pub get_user : Moment → String → Service → Reply User
unfolding chaos find_user
get_user m id s = elim (chaos m s) [ some e ↦ refused e | none ↦ find_user id s ]

-- `ValidateCreditResponse`, less the reason's text.
pub record Credit : Type 0 where
  pub approved : Bool
  pub remaining_cents : ℤ

-- `s.spent[id]`: 0 for a key that is missing.
unfoldable pub spent_of : Service → String → ℤ
spent_of s id = elim (lookup id s.spent) [ some n ↦ n | none ↦ pos 0 ]

-- The part of `ValidateCredit` that follows once there is an active user.
unfoldable pub charge : User → ℤ → Service → Credit × Service
charge u amount s =
    let remaining = int64 (u.credit_limit_cents -ℤ spent_of s u.id) in
    if ltb_ℤ remaining amount
    then (record { approved = false; remaining_cents = remaining }, s)
    else (
      record { approved = true; remaining_cents = int64 (remaining -ℤ amount) },
      record s { spent = insert u.id (int64 (spent_of s u.id +ℤ amount)) s.spent },
    )

validate_user : Option User → ℤ → Service → Reply Credit × Service
validate_user none amount s = (refused (status not_found), s)
validate_user (some u) amount s =
    if u.active
    then (replied (charge u amount s).0, (charge u amount s).1)
    else (refused (status failed_precondition), s)

-- `ValidateCredit`.
unfoldable pub validate_credit : Moment → String → ℤ → Service → Reply Credit × Service
unfolding validate_user
validate_credit m id amount s = elim (chaos m s) [
  | some e ↦ (refused e, s)
  | none ↦ validate_user (lookup id s.users) amount s
]
