-- ===== src/Dashboard/Hub.antt =====
-- server-dashboard/backend/internal/hub: hub.go's loop and client.go's connections, as steps of the
-- goroutines that share the channels. Connections are numbered; M is the type of the messages.
pub mod Order
pub mod Histories
pub mod Shutdown
use go_basics.Common.{
  ℕ, ◌≡◌, Bool, true, false, not, ◌&&◌, Option, none, some, List, [], ◌∷◌, ◌++◌, length, ltb,
  if◌then◌else◌,
}
use go_basics.Common.Dict.{Dict, nat_comparable, lookup, insert, map_values}

-- What stands in a client's channel: the snapshot that `ServeWS` sends, or what `Run` fans out.
pub data Sent (M : Type 0) : Type 0 where
  initial : M → Sent M
  fanned_out : M → Sent M

-- The goroutine of `writePump`: `ServeWS` has not started it, it runs, or it has returned.
pub data Pump : Type 0 where
  not_started pumping ended : Pump

-- `Client`: the channel `send`, whether it is closed, whether the hub's set has the client, what the write pump
-- has written, what it took and could not write, and how far it is.
pub record Client (M : Type 0) : Type 0 where
  pub send : List (Sent M)
  pub closed : Bool
  pub registered : Bool
  pub written : List (Sent M)
  pub lost : List (Sent M)
  pub pump : Pump

-- `Hub`: the clients that there have been, what waits in the channel `broadcast`, and whether `Run`
-- still runs.
pub record Hub (M : Type 0) : Type 0 where
  pub clients : Dict ℕ (Client M)
  pub broadcast : List M
  pub running : Bool

-- The sizes of the two buffers.
abbrev pub send_buffer : ℕ
send_buffer = 16

abbrev pub broadcast_buffer : ℕ
broadcast_buffer = 64

-- What a step comes to: it is done, it waits, or it panics.
pub data Outcome (M : Type 0) : Type 0 where
  done : Hub M → Outcome M
  blocked : Outcome M
  panicked : Outcome M

-- A step of a goroutine: `Broadcast`; the cases of `Run`; the registration and the first message of
-- `ServeWS`, of a new client, with the start of its write pump; the end of the read pump; and a case of the write
-- pump, where writing to the connection fails or not, of the channel and of the ticker.
pub data Step (M : Type 0) : Type 0 where
  queues : M → Step M
  fans_out : Step M
  registers : ℕ → Step M
  unregisters : ℕ → Step M
  stops : Step M
  sends_initial : ℕ → M → Step M
  writes : (fails : Bool) → ℕ → Step M
  pings : (fails : Bool) → ℕ → Step M

module _ {M : Type 0} where
  -- `New`.
  unfoldable pub new_hub : Hub M
  new_hub = record { clients = []; broadcast = []; running = true }

  -- A client that `ServeWS` has just made and registered.
  unfoldable pub new_client : Client M
  new_client = record {
    send = [];
    closed = false;
    registered = true;
    written = [];
    lost = [];
    pump = not_started;
  }

  -- The hub takes a client out and closes its channel.
  unfoldable pub dropped : Client M → Client M
  dropped c = record c { closed = true; registered = false }

  -- `Run` gives a message to a client of the set, or drops it where its buffer is full.
  unfoldable pub offer : M → Client M → Client M
  offer m c =
      if not c.registered
      then c
      else if ltb (length c.send) send_buffer
      then record c { send = c.send ++ fanned_out m ∷ [] }
      else dropped c

  -- The end of the context: every client of the set has its channel closed, and stays in the set.
  unfoldable pub close_send : Client M → Client M
  close_send c = if c.registered then record c { closed = true } else c

  -- The first message of `ServeWS`, after which it starts the write pump.
  unfoldable pub send_initial : ℕ → M → Hub M → Outcome M
  send_initial i m h = elim (lookup i h.clients) [
    | none ↦ blocked
    | some c ↦ elim c.pump [
      | not_started ↦
          if c.closed
          then panicked
          else if ltb (length c.send) send_buffer
          then done (record h {
            clients =
                insert i (record c { send = c.send ++ initial m ∷ []; pump = pumping }) h.clients;
          })
          else blocked
      | pumping ↦ blocked
      | ended ↦ blocked
    ]
  ]

  -- What the write pump makes of a message of the channel: it is written, or lost, and the pump returns.
  unfoldable pub write_message : Bool → Sent M → List (Sent M) → Client M → Client M
  write_message fails m ms c =
      if fails
      then record c { send = ms; lost = c.lost ++ m ∷ []; pump = ended }
      else record c { send = ms; written = c.written ++ m ∷ [] }

  -- `writePump`, the case of the channel: where it is closed and empty, the pump returns.
  unfoldable pub write_pump : Bool → ℕ → Hub M → Outcome M
  write_pump fails i h = elim (lookup i h.clients) [
    | none ↦ blocked
    | some c ↦ elim c.pump [
      | not_started ↦ blocked
      | pumping ↦ elim c.send [
        | [] ↦
            if c.closed
            then done (record h { clients = insert i (record c { pump = ended }) h.clients })
            else blocked
        | m ∷ ms ↦ done (record h { clients = insert i (write_message fails m ms c) h.clients })
      ]
      | ended ↦ blocked
    ]
  ]

  -- `writePump`, the case of the ticker.
  unfoldable pub ping : Bool → ℕ → Hub M → Outcome M
  ping fails i h = elim (lookup i h.clients) [
    | none ↦ blocked
    | some c ↦ elim c.pump [
      | not_started ↦ blocked
      | pumping ↦
          if fails
          then done (record h { clients = insert i (record c { pump = ended }) h.clients })
          else done h
      | ended ↦ blocked
    ]
  ]

  -- The end of `readPump`, which `Run` takes.
  unfoldable pub unregister : ℕ → Hub M → Outcome M
  unregister i h =
      if h.running
      then elim (lookup i h.clients) [
        | none ↦ blocked
        | some c ↦
            done (record h { clients = insert i (if c.registered then dropped c else c) h.clients })
      ]
      else blocked

  -- `Broadcast`, `Run` and the steps of a client.
  unfoldable pub step : Step M → Hub M → Outcome M
  step (queues m) h =
      if ltb (length h.broadcast) broadcast_buffer
      then done (record h { broadcast = h.broadcast ++ m ∷ [] })
      else blocked
  step fans_out h =
      if h.running
      then elim h.broadcast [
        | [] ↦ blocked
        | m ∷ ms ↦ done (record h { clients = map_values (offer m) h.clients; broadcast = ms })
      ]
      else blocked
  step (registers i) h =
      if h.running
      then elim (lookup i h.clients) [
        | none ↦ done (record h { clients = insert i new_client h.clients })
        | some c ↦ blocked
      ]
      else blocked
  step (unregisters i) h = unregister i h
  step stops h =
      if h.running
      then done (record h { clients = map_values close_send h.clients; running = false })
      else blocked
  step (sends_initial i m) h = send_initial i m h
  step (writes fails i) h = write_pump fails i h
  step (pings fails i) h = ping fails i h

  -- A history of steps that are done.
  unfoldable pub run : List (Step M) → Hub M → Outcome M
  run [] h = done h
  run (s ∷ ss) h = elim (step s h) [ done h' ↦ run ss h' | blocked ↦ blocked | panicked ↦ panicked ]
