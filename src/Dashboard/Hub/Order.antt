-- ===== src/Dashboard/Hub/Order.antt =====
-- The order in which clients of server-dashboard/backend/internal/hub get what is broadcast.
use mathlib.Core.Path.{subst}
use mathlib.Core.List.{append_assoc, append-nil}
use go_basics.Common.{
  ℕ, ◌≤◌, ◌≡◌, ◌≢◌, refl, sym, ap, ◌∙◌, Bool, true, false, some, List, [], ◌∷◌, ◌++◌, length,
  length-append, ltb, arith, if◌then◌else◌, Bool-cases, inl, inr,
}
use go_basics.Common.Dict.{nat_comparable, lookup}
use go_basics.Dashboard.Hub.{
  Sent, initial, fanned_out, Client, Hub, send_buffer, Step, queues, fans_out, registers,
  unregisters, stops, sends_initial, writes, pings, not_started, pumping, ended, write_message,
  new_client, dropped, offer, close_send,
}

module _ {M : Type 0} where
  -- What of a channel was fanned out.
  unfoldable pub updates : List (Sent M) → List M
  updates [] = []
  updates (initial m ∷ ms) = updates ms
  updates (fanned_out m ∷ ms) = m ∷ updates ms

  updates-append : (a b : List (Sent M)) → updates (a ++ b) ≡ updates a ++ updates b
  unfolding updates
  updates-append [] b = refl
  updates-append (initial m ∷ a) b = updates-append a b
  updates-append (fanned_out m ∷ a) b = ap (λ l. m ∷ l) (updates-append a b)

  -- What a history has given to `Broadcast`.
  unfoldable pub queued : List (Step M) → List M
  queued [] = []
  queued (queues m ∷ ss) = m ∷ queued ss
  queued (fans_out ∷ ss) = queued ss
  queued (registers i ∷ ss) = queued ss
  queued (unregisters i ∷ ss) = queued ss
  queued (stops ∷ ss) = queued ss
  queued (sends_initial i m ∷ ss) = queued ss
  queued (writes fails i ∷ ss) = queued ss
  queued (pings fails i ∷ ss) = queued ss

  -- What a client has been given: what the write pump has written, what it took and lost, and what waits.
  abbrev pub given : Client M → List (Sent M)
  given c = c.written ++ (c.lost ++ c.send)

  -- Of what was fanned out so far, a client has been given a run without gaps, which goes to the end if
  -- the hub's set has it. Its buffer holds no more than its size, and nothing is lost before the write pump
  -- returns, and then no more than one message.
  pub record IsServed (said : List M) (c : Client M) : Type 0 where
    pub before : List M
    pub after : List M
    pub run_of : said ≡ before ++ (updates (given c) ++ after)
    pub to_the_end : c.registered ≡ true → after ≡ []
    pub fits : length c.send ≤ send_buffer
    pub lost_none : c.pump ≢ ended → c.lost ≡ []
    pub lost_one : length c.lost ≤ 1

  -- What was queued was fanned out, or waits.
  pub record IsSound (all : List M) (h : Hub M) : Type 0 where
    pub said : List M
    pub in_order : all ≡ said ++ h.broadcast
    pub served : (i : ℕ) (c : Client M) → lookup i h.clients ≡ some c → IsServed said c

  add_last : (a u b : List M) (m : M) → (a ++ (u ++ b)) ++ m ∷ [] ≡ a ++ (u ++ (b ++ m ∷ []))
  add_last a u b m = simp (append_assoc) refl

  add_middle : (a u : List M) (m : M) → (a ++ (u ++ [])) ++ m ∷ [] ≡ a ++ ((u ++ m ∷ []) ++ [])
  add_middle a u m = simp (append_assoc, append-nil) refl

  given-append :
      (w l q : List (Sent M)) (m : Sent M) → w ++ (l ++ (q ++ m ∷ [])) ≡ (w ++ (l ++ q)) ++ m ∷ []
  given-append w l q m = simp (append_assoc) refl

  written_one :
      (w : List (Sent M)) (m : Sent M) (ms : List (Sent M))
      → (w ++ m ∷ []) ++ ([] ++ ms) ≡ w ++ ([] ++ m ∷ ms)
  written_one w m ms = simp (append_assoc) refl

  drop_nil : (a u : List M) (m : M) → a ++ ((u ++ m ∷ []) ++ []) ≡ a ++ (u ++ m ∷ [])
  drop_nil a u m = simp (append-nil) refl

  given_one :
      (m : M) (c : Client M)
      → updates (given (record c { send = c.send ++ fanned_out m ∷ [] }))
        ≡ updates (given c) ++ m ∷ []
  unfolding updates
  given_one m c =
      ap updates (given-append c.written c.lost c.send (fanned_out m))
      ∙ updates-append (given c) (fanned_out m ∷ [])

  given_initial :
      (m : M) (c : Client M)
      → updates (given (record c { send = c.send ++ initial m ∷ [] })) ≡ updates (given c)
  unfolding updates
  given_initial m c =
      ap updates (given-append c.written c.lost c.send (initial m))
      ∙ updates-append (given c) (initial m ∷ [])
      ∙ append-nil (updates (given c))

  pub offer-IsServed :
      (m : M) (said : List M) (c : Client M)
      → IsServed said c
      → IsServed (said ++ m ∷ []) (offer m c)
  unfolding offer dropped updates
  offer-IsServed m said c served = elim (Bool-cases c.registered) [
    | inr gone ↦ subst (IsServed (said ++ m ∷ [])) {x = c} (ground arith) (record {
      before = served.before;
      after = served.after ++ m ∷ [];
      run_of =
          ap (λ l. l ++ m ∷ []) served.run_of
          ∙ add_last served.before (updates (given c)) served.after m;
      to_the_end = λ here. absurd (ground arith);
      fits = served.fits;
      lost_none = served.lost_none;
      lost_one = served.lost_one;
    })
    | inl here ↦
        let ends : said ++ m ∷ [] ≡ served.before ++ ((updates (given c) ++ m ∷ []) ++ []) =
          ap (λ l. l ++ m ∷ [])
            (served.run_of
              ∙ ap (λ l. served.before ++ (updates (given c) ++ l)) (served.to_the_end here))
          ∙ add_middle served.before (updates (given c)) m in
        elim (Bool-cases (ltb (length c.send) send_buffer)) [
          | inl space ↦
              subst (IsServed (said ++ m ∷ []))
                {x = record c { send = c.send ++ fanned_out m ∷ [] }} (ground arith)
                (record {
                  before = served.before;
                  after = [];
                  run_of = ends ∙ ap (λ l. served.before ++ (l ++ [])) (sym (given_one m c));
                  to_the_end = λ still. refl;
                  fits = ground (arith, length-append c.send (fanned_out m ∷ []));
                  lost_none = served.lost_none;
                  lost_one = served.lost_one;
                })
          | inr full ↦ subst (IsServed (said ++ m ∷ [])) {x = dropped c} (ground arith) (record {
            before = served.before;
            after = m ∷ [];
            run_of = ends ∙ drop_nil served.before (updates (given c)) m;
            to_the_end = λ still. absurd (ground arith);
            fits = served.fits;
            lost_none = served.lost_none;
            lost_one = served.lost_one;
          })
        ]
  ]

  -- A client with the same run, that is registered only where the other is.
  IsServed-path :
      (said : List M) (c d : Client M)
      → IsServed said c
      → updates (given d) ≡ updates (given c)
      → (d.registered ≡ true → c.registered ≡ true)
      → length d.send ≤ send_buffer
      → (d.pump ≢ ended → d.lost ≡ [])
      → length d.lost ≤ 1
      → IsServed said d
  IsServed-path said c d served same still fits lost_none lost_one = record {
    before = served.before;
    after = served.after;
    run_of = served.run_of ∙ ap (λ l. served.before ++ (l ++ served.after)) (sym same);
    to_the_end = λ here. served.to_the_end (still here);
    fits = fits;
    lost_none = lost_none;
    lost_one = lost_one;
  }

  pub close_send-IsServed :
      (said : List M) (c : Client M) → IsServed said c → IsServed said (close_send c)
  unfolding close_send
  close_send-IsServed said c served = elim (Bool-cases c.registered) [
    | inl here ↦ subst (IsServed said) {x = record c { closed = true }} (ground arith) (
        IsServed-path said c (record c { closed = true }) served refl (λ h. h) served.fits
          served.lost_none served.lost_one)
    | inr gone ↦ subst (IsServed said) {x = c} (ground arith) served
  ]

  pub new_client-IsServed : (said : List M) → IsServed said new_client
  unfolding new_client updates
  new_client-IsServed said = record {
    before = said;
    after = [];
    run_of = sym (append-nil said);
    to_the_end = λ here. refl;
    fits = omega arith;
    lost_none = λ on. refl;
    lost_one = omega arith;
  }

  pub unregister-IsServed :
      (said : List M) (c : Client M)
      → IsServed said c
      → IsServed said (if c.registered then dropped c else c)
  unfolding dropped
  unregister-IsServed said c served = elim (Bool-cases c.registered) [
    | inl here ↦ subst (IsServed said) {x = dropped c} (ground arith) (
        IsServed-path said c (dropped c) served refl (λ h. absurd (ground arith)) served.fits
          served.lost_none served.lost_one)
    | inr gone ↦ subst (IsServed said) {x = c} (ground arith) served
  ]

  pub initial-IsServed :
      (said : List M) (c : Client M) (m : M)
      → ltb (length c.send) send_buffer ≡ true
      → c.pump ≡ not_started
      → IsServed said c
      → IsServed said (record c { send = c.send ++ initial m ∷ []; pump = pumping })
  initial-IsServed said c m space fresh served =
      IsServed-path said c (record c { send = c.send ++ initial m ∷ []; pump = pumping }) served
        (given_initial m c) (λ h. h) (ground (arith, length-append c.send (initial m ∷ [])))
        (λ on. served.lost_none (λ over. ground arith)) served.lost_one

  pub ended-IsServed :
      (said : List M) (c : Client M) → IsServed said c → IsServed said (record c { pump = ended })
  ended-IsServed said c served =
      IsServed-path said c (record c { pump = ended }) served refl (λ h. h) served.fits
        (λ on. absurd (on refl)) served.lost_one

  pub write-IsServed :
      (said : List M) (fails : Bool) (c : Client M) (m : Sent M) (ms : List (Sent M))
      → c.send ≡ m ∷ ms
      → c.pump ≡ pumping
      → IsServed said c
      → IsServed said (write_message fails m ms c)
  unfolding write_message
  write-IsServed said true c m ms next on served =
      let none_lost = served.lost_none (λ over. ground arith) in
      let d = record c { send = ms; lost = c.lost ++ m ∷ []; pump = ended } in
      IsServed-path said c d served
        (ap (λ l. updates (c.written ++ l)) (append_assoc c.lost (m ∷ []) ms)
          ∙ ap (λ l. updates (c.written ++ (c.lost ++ l))) (sym next))
        (λ h. h) (ground (arith, served.fits)) (λ over. absurd (over refl))
        (omega (arith, length-append c.lost (m ∷ []), ap length none_lost))
  write-IsServed said false c m ms next on served =
      let none_lost = served.lost_none (λ over. ground arith) in
      let d = record c { send = ms; written = c.written ++ m ∷ [] } in
      IsServed-path said c d served
        (ap (λ l. updates ((c.written ++ m ∷ []) ++ (l ++ ms))) none_lost
          ∙ ap updates (written_one c.written m ms)
          ∙ ap (λ l. updates (c.written ++ (l ++ m ∷ ms))) (sym none_lost)
          ∙ ap (λ l. updates (c.written ++ (c.lost ++ l))) (sym next))
        (λ h. h) (ground (arith, served.fits)) served.lost_none served.lost_one
