-- ===== src/Dashboard/Hub/Histories.antt =====
-- Histories of the goroutines of server-dashboard/backend/internal/hub.
use mathlib.Core.Path.{subst}
use mathlib.Core.List.{append_assoc, append-nil}
use go_basics.Common.{
  ℕ, ◌≡◌, refl, sym, ap, ◌∙◌, Bool, false, some, List, [], ◌∷◌, ◌++◌, arith, if◌then◌else◌,
  Option-cases, Bool-cases, ◌⊎◌, inl, inr,
}
use go_basics.Common.Dict.{
  Dict, nat_comparable, lookup, insert, insert_cases, map_values, lookup-map_values,
}
use go_basics.Dashboard.Hub.{
  initial, Client, Hub, Outcome, done, blocked, panicked, Step, queues, fans_out, registers,
  unregisters, stops, sends_initial, writes, pings, Pump, not_started, pumping, ended, new_hub,
  new_client, dropped, offer, close_send, step, run, send_initial, write_message, write_pump, ping,
  unregister,
}
use go_basics.Dashboard.Hub.Order.{
  queued, IsServed, IsSound, offer-IsServed, close_send-IsServed, new_client-IsServed,
  unregister-IsServed, initial-IsServed, ended-IsServed, write-IsServed,
}

abbrev Clients : Type 0 → Type 0
Clients M = Dict ℕ (Client M)

abbrev AllServed : {M : Type 0} → List M → Clients M → Type 0
AllServed said cs = (i : ℕ) (c : Client _) → lookup i cs ≡ some c → IsServed said c

List-cases : {A : Type 0} (l : List A) → (l ≡ []) ⊎ ((a : A) × (r : List A) × (l ≡ a ∷ r))
List-cases [] = inl refl
List-cases (a ∷ r) = inr (a, r, refl)

Outcome-cases :
    {M : Type 0} (o : Outcome M) → ((h : Hub M) × (o ≡ done h)) ⊎ (o ≡ blocked) ⊎ (o ≡ panicked)
Outcome-cases (done h) = inl (h, refl)
Outcome-cases blocked = inr (inl refl)
Outcome-cases panicked = inr (inr refl)

Pump-cases : (p : Pump) → (p ≡ not_started) ⊎ (p ≡ pumping) ⊎ (p ≡ ended)
Pump-cases not_started = inl refl
Pump-cases pumping = inr (inl refl)
Pump-cases ended = inr (inr refl)

module _ {M : Type 0} where
  insert-served :
      (said : List M) (i : ℕ) (c : Client M) (cs : Clients M)
      → IsServed said c
      → AllServed said cs
      → AllServed said (insert i c cs)
  insert-served said i c cs new old j d found = elim (insert_cases i j c d cs found) [
    | inl (here, same) ↦ subst (IsServed said) same new
    | inr before ↦ old j d before
  ]

  map-served :
      (f : Client M → Client M) (said said' : List M) (cs : Clients M)
      → ((c : Client M) → IsServed said c → IsServed said' (f c))
      → AllServed said cs
      → AllServed said' (map_values f cs)
  map-served f said said' cs keeps old j d found = elim (Option-cases (lookup j cs)) [
    | inl missing ↦ absurd (ground (arith, lookup-map_values f j cs))
    | inr (c, there) ↦
        subst (IsServed said') {x = f c} (ground (arith, lookup-map_values f j cs))
          (keeps c (old j c there))
  ]

  -- A step that leaves the channel as it is.
  keeps_channel :
      (all : List M) (h h' : Hub M) (clients : Clients M) (running : Bool) (sound : IsSound all h)
      → record h { clients = clients; running = running } ≡ h'
      → AllServed sound.said clients
      → IsSound (all ++ []) h'
  keeps_channel all h h' clients running sound same served =
      subst (IsSound (all ++ [])) same
        (record { said = sound.said; in_order = append-nil all ∙ sound.in_order; served = served })

  -- A step that changes one client, or adds one.
  keeps_others :
      (all : List M) (h h' : Hub M) (i : ℕ) (c : Client M) (sound : IsSound all h)
      → record h { clients = insert i c h.clients } ≡ h'
      → IsServed sound.said c
      → IsSound (all ++ []) h'
  keeps_others all h h' i c sound same served =
      keeps_channel all h h' (insert i c h.clients) h.running sound same
        (insert-served sound.said i c h.clients served sound.served)

  step-IsSound :
      (s : Step M) (all : List M) (h h' : Hub M)
      → step s h ≡ done h'
      → IsSound all h
      → IsSound (all ++ queued (s ∷ [])) h'
  unfolding step send_initial write_pump ping unregister queued
  step-IsSound (queues m) all h h' goes sound =
      subst (IsSound (all ++ m ∷ [])) {x = record h { broadcast = h.broadcast ++ m ∷ [] }}
        (ground arith)
        (record {
          said = sound.said;
          in_order =
              ap (λ l. l ++ m ∷ []) sound.in_order ∙ append_assoc sound.said h.broadcast (m ∷ []);
          served = sound.served;
        })
  step-IsSound fans_out all h h' goes sound = elim (List-cases h.broadcast) [
    | inl empty ↦ absurd (ground arith)
    | inr (m, ms, next) ↦
        subst (IsSound (all ++ []))
          {x = record h { clients = map_values (offer m) h.clients; broadcast = ms }} (ground arith)
          (record {
            said = sound.said ++ m ∷ [];
            in_order =
                append-nil all
                ∙ sound.in_order
                ∙ ap (λ l. sound.said ++ l) next
                ∙ sym (append_assoc sound.said (m ∷ []) ms);
            served =
                map-served (offer m) sound.said (sound.said ++ m ∷ []) h.clients
                  (offer-IsServed m sound.said) sound.served;
          })
  ]
  step-IsSound (registers i) all h h' goes sound =
      keeps_others all h h' i new_client sound (ground arith) (new_client-IsServed sound.said)
  step-IsSound (unregisters i) all h h' goes sound = elim (Option-cases (lookup i h.clients)) [
    | inl missing ↦ absurd (ground arith)
    | inr (c, found) ↦
        keeps_others all h h' i (if c.registered then dropped c else c) sound (ground arith)
          (unregister-IsServed sound.said c (sound.served i c found))
  ]
  step-IsSound stops all h h' goes sound =
      keeps_channel all h h' (map_values close_send h.clients) false sound (ground arith) (
        map-served close_send sound.said sound.said h.clients (close_send-IsServed sound.said)
          sound.served)
  step-IsSound (sends_initial i m) all h h' goes sound = elim (Option-cases (lookup i h.clients)) [
    | inl missing ↦ absurd (ground arith)
    | inr (c, found) ↦ elim (Pump-cases c.pump) [
      | inl fresh ↦
          keeps_others all h h' i (record c { send = c.send ++ initial m ∷ []; pump = pumping })
            sound (ground arith)
            (initial-IsServed sound.said c m (ground arith) fresh (sound.served i c found))
      | inr (inl on) ↦ absurd (ground arith)
      | inr (inr over) ↦ absurd (ground arith)
    ]
  ]
  step-IsSound (writes fails i) all h h' goes sound = elim (Option-cases (lookup i h.clients)) [
    | inl missing ↦ absurd (ground arith)
    | inr (c, found) ↦ elim (Pump-cases c.pump) [
      | inl fresh ↦ absurd (ground arith)
      | inr (inl on) ↦ elim (List-cases c.send) [
        | inl empty ↦
            keeps_others all h h' i (record c { pump = ended }) sound (ground arith)
              (ended-IsServed sound.said c (sound.served i c found))
        | inr (m, ms, next) ↦
            keeps_others all h h' i (write_message fails m ms c) sound (ground arith)
              (write-IsServed sound.said fails c m ms next on (sound.served i c found))
      ]
      | inr (inr over) ↦ absurd (ground arith)
    ]
  ]
  step-IsSound (pings fails i) all h h' goes sound = elim (Option-cases (lookup i h.clients)) [
    | inl missing ↦ absurd (ground arith)
    | inr (c, found) ↦ elim (Pump-cases c.pump) [
      | inl fresh ↦ absurd (ground arith)
      | inr (inl on) ↦ elim (Bool-cases fails) [
        | inl broken ↦
            keeps_others all h h' i (record c { pump = ended }) sound (ground arith)
              (ended-IsServed sound.said c (sound.served i c found))
        | inr fine ↦ keeps_channel all h h' h.clients h.running sound (ground arith) sound.served
      ]
      | inr (inr over) ↦ absurd (ground arith)
    ]
  ]

  queued-cons : (s : Step M) (ss : List (Step M)) → queued (s ∷ ss) ≡ queued (s ∷ []) ++ queued ss
  unfolding queued
  queued-cons (queues m) ss = refl
  queued-cons fans_out ss = refl
  queued-cons (registers i) ss = refl
  queued-cons (unregisters i) ss = refl
  queued-cons stops ss = refl
  queued-cons (sends_initial i m) ss = refl
  queued-cons (writes fails i) ss = refl
  queued-cons (pings fails i) ss = refl

  run-IsSound :
      (ss : List (Step M)) (all : List M) (h h' : Hub M)
      → run ss h ≡ done h'
      → IsSound all h
      → IsSound (all ++ queued ss) h'
  unfolding run queued
  run-IsSound [] all h h' goes sound =
      subst (IsSound (all ++ [])) {x = h} (ground arith)
        (subst (λ l. IsSound l h) (sym (append-nil all)) sound)
  run-IsSound (s ∷ ss) all h h' goes sound = elim (Outcome-cases (step s h)) [
    | inl (mid, first) ↦
        subst (λ l. IsSound l h')
          (append_assoc all (queued (s ∷ [])) (queued ss)
            ∙ ap (λ l. all ++ l) (sym (queued-cons s ss)))
          (run-IsSound ss (all ++ queued (s ∷ [])) mid h' (ground arith)
            (step-IsSound s all h mid first sound))
    | inr (inl waits) ↦ absurd (ground arith)
    | inr (inr fails) ↦ absurd (ground arith)
  ]

  new_hub-IsSound : IsSound {M = M} [] new_hub
  unfolding new_hub lookup
  new_hub-IsSound = record {
    said = [];
    in_order = refl;
    served = λ i c found. absurd (ground arith);
  }

-- Along any history of the hub and its goroutines, with any writes to connections that fail: what was given to
-- `Broadcast` was fanned out in that order, or waits; and of what was fanned out, what a client has been written,
-- then what its write pump took and could not write, then what waits in its buffer of at most 16, is a run
-- without gaps and in order, which goes to the last message if the hub still has it. The write pump loses
-- nothing before it returns, and then at most one message.
pub fan_out-IsSound :
    {M : Type 0} (ss : List (Step M)) (h : Hub M) → run ss new_hub ≡ done h → IsSound (queued ss) h
fan_out-IsSound ss h goes = run-IsSound ss [] new_hub h goes new_hub-IsSound
