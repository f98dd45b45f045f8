-- ===== src/HttpStack/Layers.antt =====
-- The middleware, each as a function of handlers.
use mathlib.Core.List.{reverse}
use go_basics.Common.{
  ℕ, String, Option, none, some, List, [], ◌∷◌, ◌++◌, take, drop, str_eq, ◌==◌, if◌then◌else◌,
}
use go_basics.Common.Int.{ℤ, pos, ◌+ℤ◌, int64}
use go_basics.Common.Text.{trim_prefix}
use go_basics.HttpStack.{
  Request, request_id_from, Action, set_header, write_header, write, abort_handler, fault, returned,
  panicked, crashed, crashed_later, Late, Ending, Line, Run, Handler, Middleware,
}
use go_basics.HttpStack.Recorder.{StatusRecorder, record_last, record_first, recorded}

-- The line of `Logging`, of what the recorder has.
abbrev pub line_of : Request → StatusRecorder → Line
line_of r rec = record {
  id = request_id_from r;
  method = r.method;
  path = r.path;
  status = if rec.status == 0 then 200 else rec.status;
  bytes = rec.bytes;
}

-- `writeJSON` of an error, with its encoding.
abbrev pub write_json : (String → String) → ℕ → String → List Action
write_json encode status msg =
    set_header "Content-Type" "application/json" ∷ write_header status ∷ write (encode msg) ∷ []

-- How a panic of the handler's goroutine ends the process.
abbrev pub crash : Option Late → Ending
crash none = crashed
crash (some late) = if late.panics_first then crashed else crashed_later

module _ {S : Type 0} where
  -- The loop of `Chain`, over the middleware from the last on.
  unfoldable pub wrap_from : List (Middleware S) → Handler S → Handler S
  wrap_from [] h = h
  wrap_from (m ∷ ms) h = wrap_from ms (m h)

  -- `Chain`.
  unfoldable pub chain : Handler S → List (Middleware S) → Handler S
  unfolding wrap_from
  chain h mw = wrap_from (reverse mw) h

  -- What a middleware does before the handler that it calls.
  abbrev pub first : List Action → Run S → Run S
  first as' run = record run { actions = as' ++ run.actions }

  -- `RequestID`, with the print of the counter.
  unfoldable pub request_id : (ℤ → String) → Middleware S
  request_id print next r s =
      let made = int64 (s.counter +ℤ pos 1) in
      let id = if str_eq r.request_id "" then print made else r.request_id in
      let s' = if str_eq r.request_id "" then record s { counter = made } else s in
      first (set_header "X-Request-ID" id ∷ []) (next (record r { context_id = some id }) s')

  -- `Logging`, with a call of its recorder. A panic passes it by.
  unfoldable pub logging : (Action → StatusRecorder → StatusRecorder) → Middleware S
  unfolding recorded
  logging step next r s =
      let run = next r s in
      let line = line_of r (recorded step run.actions (record { status = 0; bytes = 0 })) in
      record run {
        state = elim run.ending [
          | returned ↦ record run.state { log = run.state.log ++ line ∷ [] }
          | panicked c ↦ run.state
          | crashed ↦ run.state
          | crashed_later ↦ record run.state { log = run.state.log ++ line ∷ [] }
        ];
      }

  -- The deferred function of `Recover`.
  unfoldable pub recovered : (String → String) → Run S → Run S
  recovered encode run = elim run.ending [
    | returned ↦ run
    | crashed ↦ run
    | crashed_later ↦ run
    | panicked abort_handler ↦ run
    | panicked fault ↦ record run {
      actions = run.actions ++ write_json encode 500 "internal server error";
      ending = returned;
    }
  ]

  -- `Recover`.
  unfoldable pub recover : (String → String) → Middleware S
  unfolding recovered
  recover encode next r s = recovered encode (next r s)

  -- `Timeout`. Where the deadline comes first it comes after some actions of the handler, of which some more come
  -- before the response is done; its end comes after that, or, where it panics, it may come before. A panic is on a
  -- goroutine of its own, where nothing recovers it.
  unfoldable pub timeout : (String → String) → String → Option Late → Middleware S
  timeout encode msg deadline next r s =
      let run = next r s in
      record run {
        actions = elim deadline [
          | none ↦ run.actions
          | some late ↦
              take late.before run.actions
              ++ (write_json encode 504 msg ++ take late.meanwhile (drop late.before run.actions))
        ];
        ending = elim run.ending [
          | returned ↦ returned
          | panicked c ↦ crash deadline
          | crashed ↦ crash deadline
          | crashed_later ↦ crashed_later
        ];
      }

  -- `APIKeyAuth` of 39_middleware.
  unfoldable pub api_key_auth : (String → String) → String → Middleware S
  api_key_auth encode valid_key next r s =
      if str_eq (trim_prefix "Bearer " r.authorization) valid_key
      then next r s
      else record { actions = write_json encode 401 "unauthorized"; ending = returned; state = s }

  -- The stack of `main` of 39_middleware.
  unfoldable pub lesson_stack :
      (ℤ → String) → (String → String) → Option Late → Handler S → Handler S
  unfolding chain
  lesson_stack print encode deadline h = chain h (
      request_id print
      ∷ logging record_last
      ∷ timeout encode "timeout" deadline
      ∷ recover encode
      ∷ [])

  -- `Handler` of 47_capstone.
  unfoldable pub capstone_stack :
      (ℤ → String) → (String → String) → Option Late → Handler S → Handler S
  unfolding chain
  capstone_stack print encode deadline h = chain h (
      request_id print
      ∷ logging record_first
      ∷ timeout encode "request timed out" deadline
      ∷ recover encode
      ∷ [])
