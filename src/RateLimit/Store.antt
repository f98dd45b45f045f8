-- ===== src/RateLimit/Store.antt =====
-- system-design/fixed-window-counter/internal/store/store.go, with the table that
-- migrations creates. The upsert is one atomic step of the database. Its float8 arithmetic is
-- exact here.
pub mod Counts
use go_basics.Common.{
  ℕ, ◌+◌, ◌*◌, ◌/◌, ◌^◌, ◌-◌, ◌↔◌, ◌≡◌, String, Bool, true, false, ◌&&◌, ◌||◌, Option, none, some,
  arith, str_eq, eq_iff, leb, ◌==◌, ==_iff, if◌then◌else◌,
}
use go_basics.Common.Dict.{Comparable, Dict, lookup, insert}

-- The primary key of `rate_limit_counters`.
pub record Slot : Type 0 where
  pub scope_type : String
  pub scope_key : String
  pub window_start : ℕ

abbrev slot_beq : Slot → Slot → Bool
slot_beq a b =
    str_eq a.scope_type b.scope_type
    && str_eq a.scope_key b.scope_key
    && a.window_start == b.window_start

pub slot_beq_iff : (a b : Slot) → (slot_beq a b ≡ true) ↔ (a ≡ b)
slot_beq_iff a b = ground (
  arith,
  eq_iff a.scope_type b.scope_type,
  eq_iff a.scope_key b.scope_key,
  ==_iff a.window_start b.window_start,
)

instance abbrev pub slot_comparable : Comparable Slot
slot_comparable = record { beq = slot_beq; beq_iff = slot_beq_iff }

-- `rate_limit_counters`: the request count of each row.
abbrev pub Table : Type 0
Table = Dict Slot ℕ

-- `Result`.
pub record Counted : Type 0 where
  pub count : ℕ
  pub window_start : ℕ
  pub now : ℕ

-- An error, by what the callers ask of it: `errors.Is` context.DeadlineExceeded and
-- io.ErrUnexpectedEOF, `errors.As` a *pgconn.PgError with its code, `errors.As` a net.Error, and
-- `pgconn.SafeToRetry`.
pub record Failure : Type 0 where
  pub deadline_exceeded : Bool
  pub unexpected_eof : Bool
  pub pg_code : Option String
  pub net_error : Bool
  pub safe_to_retry : Bool

-- An error that the server reports.
abbrev pub pg_error : String → Failure
pg_error code = record {
  deadline_exceeded = false;
  unexpected_eof = false;
  pg_code = some code;
  net_error = false;
  safe_to_retry = false;
}

pub data Outcome : Type 0 where
  done : Counted → Outcome
  failed : Failure → Outcome

-- `to_timestamp(floor(extract(epoch FROM now()) / $3) * $3)`; a division by 0 is an error.
unfoldable pub sql_window_start : ℕ → ℕ → Option ℕ
sql_window_start now window = if window == 0 then none else some (now / window * window)

-- The largest value of the column `request_count`, an `integer`.
abbrev pub max_count : ℕ
max_count = 2 ^ 31 - 1

-- The count of a row; 0 where there is none.
unfoldable pub count_of : Table → Slot → ℕ
count_of t s = elim (lookup s t) [ none ↦ 0 | some n ↦ n ]

-- The CHECK on `scope_type`.
unfoldable pub known_scope : String → Bool
known_scope s = str_eq s "tenant" || str_eq s "api_key" || str_eq s "user"

unfoldable pub bump : Table → Slot → ℕ → Outcome × Table
bump t s now = if leb max_count (count_of t s) then (failed (pg_error "22003"), t) else (
  done (record { count = count_of t s + 1; window_start = s.window_start; now = now }),
  insert s (count_of t s + 1) t,
)

-- `incrementSQL`, run at the instant `now` of the database clock: the row is made with count 1, or
-- its count goes up by one. A statement that fails changes nothing.
unfoldable pub increment_sql : ℕ → String → String → ℕ → Table → Outcome × Table
increment_sql now scope_type scope_key window t = elim (sql_window_start now window) [
  | none ↦ (failed (pg_error "22012"), t)
  | some w ↦
      if known_scope scope_type
      then bump t (record { scope_type = scope_type; scope_key = scope_key; window_start = w }) now
      else (failed (pg_error "23514"), t)
]

-- What the network and the server do with one statement.
pub data Reply : Type 0 where
  -- it ran at this instant, and its result came back
  answered : ℕ → Reply
  -- it ran at this instant, and the caller saw an error instead of its result
  lost : ℕ → Failure → Reply
  -- it never ran
  unsent : Failure → Reply

-- `Increment`. The `%w` of its error keeps what callers ask of the cause.
unfoldable pub increment : Reply → String → String → ℕ → Table → Outcome × Table
increment (answered now) scope_type scope_key window t =
    increment_sql now scope_type scope_key window t
increment (lost now e) scope_type scope_key window t =
    (failed e, (increment_sql now scope_type scope_key window t).1)
increment (unsent e) scope_type scope_key window t = (failed e, t)
