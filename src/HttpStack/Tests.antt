-- ===== src/HttpStack/Tests.antt =====
-- Handlers under the stacks, and the theorems at concrete inputs.
use go_basics.Common.{◌≡◌, refl, true, none, [], ◌∷◌, ◌++◌, arith}
use go_basics.Common.Int.{pos}
use go_basics.Common.Text.{trim_prefix, strip_prefix}
use go_basics.HttpStack.{
  Late, Request, set_header, write_header, fault, panicked, Line, State, Handler, unsent, act, send,
}
use go_basics.HttpStack.Layers.{lesson_stack, api_key_auth}
use go_basics.HttpStack.Stack.{id_of, state_of, sent_status}
use go_basics.HttpStack.Panics.{lesson_stack-status}

abbrev request : Request
request = record {
  request_id = "abc";
  authorization = "";
  method = "GET";
  path = "/boom";
  context_id = none;
}

abbrev start : State Unit
start = record { counter = pos 0; log = []; app = tt }

-- Sends 202 and panics.
abbrev half_done : Handler Unit
half_done r s = record { actions = write_header 202 ∷ []; ending = panicked fault; state = s }

-- An empty key lets requests with no header in, as 39_middleware checks it.
empty_key : api_key_auth (λ msg. msg) "" half_done request start ≡ half_done request start
unfolding api_key_auth trim_prefix strip_prefix
empty_key = refl

abbrev late : Late
late = record { before = 0; meanwhile = 1; panics_first = true }

sent_202 :
    (send
      (write_header 202 ∷ [])
      (act (set_header "X-Request-ID" (id_of (λ n. "req") request start)) unsent)).status
    ≡ 202
unfolding send act
sent_202 = refl

lesson_stack-status_example :
    (sent_status
        (send (lesson_stack (λ n. "req") (λ m. m) none half_done request start).actions unsent)
      ≡ 202)
    × ((line : Line) × ((lesson_stack (λ n. "req") (λ m. m) none half_done request start).state.log
          ≡ (state_of request start).log ++ line ∷ [])
        × (line.status ≡ 500))
lesson_stack-status_example =
    lesson_stack-status (λ n. "req") (λ m. m) half_done request start unsent 202 refl sent_202
      (omega arith)
