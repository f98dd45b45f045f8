-- ===== src/HttpStack/Panics.antt =====
-- Panics below the stacks, after a part of the response is written and without Recover inside Timeout.
use go_basics.Common.{
  Option-cases, Bool-cases, ◌⊎◌, inl, inr, ℕ, ◌≡◌, ◌≢◌, sym, ap, ◌∙◌, String, Option, none, some,
  List, [], ◌∷◌, ◌++◌, arith, ◌==◌, if◌then◌else◌,
}
use go_basics.Common.Int.{ℤ}
use go_basics.HttpStack.{
  Request, Action, set_header, fault, returned, panicked, crashed, crashed_later, Late, Line, State,
  Handler, Wire, act, send,
}
use go_basics.HttpStack.Recorder.{
  StatusRecorder, record_last, recorded, recorded-append, send-append, send-status,
}
use go_basics.HttpStack.Layers.{
  logging, recovered, recover, timeout, lesson_stack, line_of, write_json,
}
use go_basics.HttpStack.Stack.{id_of, state_of, sent_status, layers, logging-run, request_id-run}

last_status :
    (encode : String → String) (as' : List Action) (s : StatusRecorder)
    → (recorded record_last (as' ++ write_json encode 500 "internal server error") s).status ≡ 500
unfolding recorded record_last
last_status encode as' s =
    ap (λ k. k.status)
      (recorded-append record_last as' (write_json encode 500 "internal server error") s)

wire_status :
    (as' bs : List Action) (k v : String) (w : Wire) (code : ℕ)
    → (send as' (act (set_header k v) w)).status ≡ code
    → code ≢ 0
    → (send (set_header k v ∷ (as' ++ bs)) w).status ≡ code
unfolding send
wire_status as' bs k v w code sent some' =
    ap (λ u. u.status) (send-append as' bs (act (set_header k v) w))
    ∙ send-status bs (send as' (act (set_header k v) w)) (λ z. some' (sym sent ∙ z))
    ∙ sent

module _ {S : Type 0} where
  fault-run :
      (encode : String → String) (msg : String) (h : Handler S) (r : Request) (s : State S)
      → (h r s).ending ≡ panicked fault
      → let run = timeout encode msg none (recover encode h) r s in
        (run.actions ≡ (h r s).actions ++ write_json encode 500 "internal server error")
        × (run.ending ≡ returned)
        × (run.state ≡ (h r s).state)
  unfolding timeout recover recovered
  fault-run encode msg h r s e = (ground arith, ground arith, ground arith)

  -- In the stack of 39_middleware, where a handler has sent a status and then panics before the deadline, the client
  -- gets that status, but the line that is logged says 500.
  pub lesson_stack-status :
      (print : ℤ → String) (encode : String → String) (h : Handler S) (r : Request) (s : State S)
      (w : Wire) (code : ℕ)
      → let inner = h (record r { context_id = some (id_of print r s) }) (state_of r s) in
        let run = lesson_stack print encode none h r s in
        inner.ending ≡ panicked fault
        → (send inner.actions (act (set_header "X-Request-ID" (id_of print r s)) w)).status ≡ code
        → code ≢ 0
        → (sent_status (send run.actions w) ≡ code)
          × ((line : Line) × (run.state.log ≡ inner.state.log ++ line ∷ []) × (line.status ≡ 500))
  lesson_stack-status print encode h r s w code panics sent some' =
      let r' = record r { context_id = some (id_of print r s) } in
      let s' = state_of r s in
      let next : Handler S = timeout encode "timeout" none (recover encode h) in
      let id = id_of print r s in
      let (wrote, ends, kept) = fault-run encode "timeout" h r' s' panics in
      let (acts, ends', lines, none') = logging-run record_last next r' s' in
      let (acts', ends'', state') = request_id-run print (logging record_last next) r s in
      let whole = ap (λ k. k r s) (layers print encode none h).1 in
      let fresh : StatusRecorder = record { status = 0; bytes = 0 } in
      let rec = recorded record_last (next r' s').actions fresh in
      let last : rec.status ≡ 500 =
        ap (λ k. (recorded record_last k fresh).status) wrote
        ∙ last_status encode (h r' s').actions fresh in
      let status : (send (lesson_stack print encode none h r s).actions w).status ≡ code =
        ap (λ k. (send k.actions w).status) whole
        ∙ ap (λ k. (send k w).status) acts'
        ∙ ap (λ k. (send (set_header "X-Request-ID" id ∷ k) w).status) (acts ∙ wrote)
        ∙ wire_status (h r' s').actions (write_json encode 500 "internal server error")
            "X-Request-ID" id w code sent some' in
      (
        ground arith,
        (
          line_of r' rec,
          ap (λ k. k.state.log) whole
              ∙ ap (λ t. t.log) state'
              ∙ ap (λ t. t.log) (lines (inl ends))
              ∙ ap (λ t. t.log ++ line_of r' rec ∷ []) kept,
          ap (λ n. if n == 0 then 200 else n) last,
        ),
      )

  -- A handler that panics, other than with ErrAbortHandler, is answered where Recover is inside Timeout, and ends
  -- the process where it is outside, now or after the deadline.
  pub recover-timeout :
      (encode : String → String) (msg : String) (deadline : Option Late) (h : Handler S)
      (r : Request) (s : State S)
      → (h r s).ending ≡ panicked fault
      → ((timeout encode msg deadline (recover encode h) r s).ending ≡ returned)
        × (((recover encode (timeout encode msg deadline h) r s).ending ≡ crashed)
            ⊎ ((recover encode (timeout encode msg deadline h) r s).ending ≡ crashed_later))
  unfolding timeout recover recovered
  recover-timeout encode msg deadline h r s e = (
    ground arith,
    elim (Option-cases deadline) [
      | inl early ↦ inl (ground arith)
      | inr (late, comes) ↦ elim (Bool-cases late.panics_first) [
        | inl first ↦ inl (ground arith)
        | inr after ↦ inr (ground arith)
      ]
    ],
  )
