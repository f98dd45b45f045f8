-- ===== src/HttpStack.antt =====
-- The middleware of 39_middleware/main.go and of 47_capstone/internal/api/middleware.go, which are alike
-- but for the status recorder, the printed counter and the texts. What a handler does to the response is
-- a list of actions, and a panic is how it ends; a write to the connection gives no error.
pub mod Recorder
pub mod Layers
pub mod Stack
pub mod Panics
mod Tests
use Prim.Native.String.{◌++◌, len}
use go_basics.Common.{
  ℕ, ◌≡◌, Bool, ◌&&◌, not, leb, String, Option, none, some, List, [], ◌∷◌, ◌==◌, if◌then◌else◌,
}
use go_basics.Common.Int.{ℤ}
use go_basics.Common.Dict.{Dict, string_comparable, insert}

-- What the middleware reads of a request and of its context.
pub record Request : Type 0 where
  pub request_id : String
  pub authorization : String
  pub method : String
  pub path : String
  pub context_id : Option String

-- `RequestIDFrom`.
abbrev pub request_id_from : Request → String
request_id_from r = elim r.context_id [ none ↦ "" | some id ↦ id ]

pub data Action : Type 0 where
  set_header : String → String → Action
  write_header : ℕ → Action
  write : String → Action

-- `http.ErrAbortHandler`, or any other value.
pub data Cause : Type 0 where
  abort_handler fault : Cause

-- How a handler ends: it returns, it panics on its caller's goroutine, or a goroutine of its own panics, which
-- ends the process, before or after its caller is done.
pub data Ending : Type 0 where
  returned : Ending
  panicked : Cause → Ending
  crashed crashed_later : Ending

-- A deadline that comes before the handler is done: after how many of its actions, how many more come before the
-- response is done, and whether a panic of the handler's goroutine comes before its caller is done.
pub record Late : Type 0 where
  pub before : ℕ
  pub meanwhile : ℕ
  pub panics_first : Bool

-- A line of the log.
pub record Line : Type 0 where
  pub id : String
  pub method : String
  pub path : String
  pub status : ℕ
  pub bytes : ℕ

-- The counter of ids, the log, and the rest of the program.
pub record State (S : Type 0) : Type 0 where
  pub counter : ℤ
  pub log : List Line
  pub app : S

pub record Run (S : Type 0) : Type 0 where
  pub actions : List Action
  pub ending : Ending
  pub state : State S

abbrev pub Handler : Type 0 → Type 0
Handler S = Request → State S → Run S

-- `Middleware`.
abbrev pub Middleware : Type 0 → Type 0
Middleware S = Handler S → Handler S

-- What net/http has of a response: the headers set so far, and the status, if it is sent, the headers sent with it, and
-- the body. Only the first status counts that is not informational, and the first write of a body sends 200.
pub record Wire : Type 0 where
  pub header : Dict String String
  pub status : ℕ
  pub sent : Dict String String
  pub body : String

-- A status from 100 to 199 but for 101, which net/http sends before the status of the response.
abbrev pub is_informational : ℕ → Bool
is_informational code = leb 100 code && leb code 199 && not (code == 101)

abbrev pub send_status : ℕ → Wire → Wire
send_status code w =
    if w.status == 0 && not (is_informational code)
    then record w { status = code; sent = w.header }
    else w

unfoldable pub act : Action → Wire → Wire
act (set_header k v) w = record w { header = insert k v w.header }
act (write_header code) w = send_status code w
act (write text) w = let w' = send_status 200 w in record w' { body = w'.body ++ text }

unfoldable pub send : List Action → Wire → Wire
unfolding act
send [] w = w
send (a ∷ as') w = send as' (act a w)

-- A response of which nothing is sent.
abbrev pub unsent : Wire
unsent = record { header = []; status = 0; sent = []; body = "" }
