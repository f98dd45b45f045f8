-- ===== src/HttpStack/Stack.antt =====
-- What the stacks of middleware do with any handler.
use mathlib.Core.List.{reverse, reverse-cons}
use go_basics.Common.{
  ℕ, ◌≡◌, ◌⊎◌, inl, inr, refl, ap, ◌∙◌, String, Option, some, List, [], ◌∷◌, ◌++◌, arith, str_eq,
  ◌==◌, if◌then◌else◌,
}
use go_basics.Common.Int.{ℤ, pos, ◌+ℤ◌, int64}
use go_basics.HttpStack.{
  Late, Request, Action, Line, set_header, returned, crashed, crashed_later, State, Handler,
  Middleware, Wire,
}
use go_basics.HttpStack.Recorder.{StatusRecorder, record_last, record_first, recorded}
use go_basics.HttpStack.Layers.{
  wrap_from, chain, request_id, logging, recover, timeout, lesson_stack, capstone_stack, line_of,
}

module _ {S : Type 0} where
  -- The first middleware is the outermost.
  pub layers :
      (print : ℤ → String) (encode : String → String) (deadline : Option Late) (h : Handler S)
      → (capstone_stack print encode deadline h
          ≡ request_id print (
              logging record_first
                (timeout encode "request timed out" deadline (recover encode h))))
        × (lesson_stack print encode deadline h
            ≡ request_id print
                (logging record_last (timeout encode "timeout" deadline (recover encode h))))
  unfolding capstone_stack lesson_stack chain wrap_from
  layers print encode deadline h = (refl, refl)

  wrap_from-append :
      (ms : List (Middleware S)) (m : Middleware S) (h : Handler S)
      → wrap_from (ms ++ m ∷ []) h ≡ m (wrap_from ms h)
  unfolding wrap_from
  wrap_from-append [] m h = refl
  wrap_from-append (n ∷ ms) m h = wrap_from-append ms m (n h)

  -- `Chain` puts its first middleware outside the others, whatever they are.
  pub chain-cons :
      (h : Handler S) (m : Middleware S) (ms : List (Middleware S))
      → chain h (m ∷ ms) ≡ m (chain h ms)
  unfolding chain
  chain-cons h m ms =
      ap (λ l. wrap_from l h) (reverse-cons m ms) ∙ wrap_from-append (reverse ms) m h

  pub logging-run :
      (step : Action → StatusRecorder → StatusRecorder) (next : Handler S) (r : Request)
      (s : State S)
      → let run = logging step next r s in
        (run.actions ≡ (next r s).actions)
        × (run.ending ≡ (next r s).ending)
        × (((next r s).ending ≡ returned) ⊎ ((next r s).ending ≡ crashed_later)
            → run.state ≡ record (next r s).state {
              log =
                  (next r s).state.log
                  ++ line_of r (recorded step (next r s).actions (record { status = 0; bytes = 0 }))
                    ∷ [];
            })
        × ((next r s).ending ≡ crashed → run.state ≡ (next r s).state)
  unfolding logging
  logging-run step next r s =
      (refl, refl, λ e. elim e [ inl x ↦ ground arith | inr x ↦ ground arith ], λ e. ground arith)

-- The status that net/http sends at the latest when the handler is done.
abbrev pub sent_status : Wire → ℕ
sent_status w = if w.status == 0 then 200 else w.status

-- The id of a request, and what the next handler gets.
abbrev pub id_of : {S : Type 0} → (ℤ → String) → Request → State S → String
id_of print r s =
    if str_eq r.request_id "" then print (int64 (s.counter +ℤ pos 1)) else r.request_id

abbrev pub state_of : {S : Type 0} → Request → State S → State S
state_of r s =
    if str_eq r.request_id "" then record s { counter = int64 (s.counter +ℤ pos 1) } else s

-- The log has one more line: of the request, with the status that the client gets.
abbrev pub IsLogged :
    {S : Type 0} → (ℤ → String) → Request → State S → List Line → List Line → Wire → Type 0
IsLogged print r s before after w =
    (bytes : ℕ) × (after
      ≡ before
        ++ record {
          id = id_of print r s;
          method = r.method;
          path = r.path;
          status = sent_status w;
          bytes = bytes;
        }
          ∷ [])

module _ {S : Type 0} where
  pub request_id-run :
      (print : ℤ → String) (next : Handler S) (r : Request) (s : State S)
      → let run = next (record r { context_id = some (id_of print r s) }) (state_of r s) in
        (request_id print next r s).actions
          ≡ set_header "X-Request-ID" (id_of print r s) ∷ run.actions
        × ((request_id print next r s).ending ≡ run.ending)
        × ((request_id print next r s).state ≡ run.state)
  unfolding request_id
  request_id-run print next r s = (refl, refl, refl)
