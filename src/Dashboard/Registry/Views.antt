-- ===== src/Dashboard/Registry/Views.antt =====
-- What a dashboard shows of the registry in server-dashboard/backend.
use go_basics.Common.{
  ℕ, ◌≡◌, refl, ◌∙◌, true, false, none, some, List, [], ◌∷◌, ◌++◌, length, ◌≤◌, arith,
}
use go_basics.Common.Dict.{
  string_comparable, nat_comparable, lookup, insert, lookup-insert_self, map_values,
  lookup-map_values,
}
use go_basics.Dashboard.Hub.{
  Sent, initial, fanned_out, Client, Hub, done, Step, queues, fans_out, registers, sends_initial,
  writes, new_client, offer, step, run, send_initial, write_message, write_pump, unregister,
  not_started, pumping,
}
use go_basics.Dashboard.Registry.{
  ServerStats, Message, snapshot_message, update_message, Registry, upsert, get, snapshot,
  ingest_stats,
}

module _ {F : Type 0} where
  unfoldable pub shown : List (ServerStats F) → Registry F
  shown [] = []
  shown (s ∷ ss) = insert s.id s (shown ss)

  -- A snapshot replaces what is shown; an update replaces one server.
  unfoldable pub show : Sent (Message F) → Registry F → Registry F
  show (initial (snapshot_message l)) v = shown l
  show (initial (update_message s)) v = insert s.id s v
  show (fanned_out (snapshot_message l)) v = shown l
  show (fanned_out (update_message s)) v = insert s.id s v

  -- What is shown after messages.
  unfoldable pub show_all : List (Sent (Message F)) → Registry F → Registry F
  show_all [] v = v
  show_all (m ∷ ms) v = show_all ms (show m v)

  -- The two goroutines' steps where the update comes between the registration and the snapshot.
  abbrev pub late_steps : ℕ → ServerStats F → List (ServerStats F) → List (Step (Message F))
  late_steps i s l =
      registers i
      ∷ queues (update_message s)
      ∷ fans_out
      ∷ sends_initial i (snapshot_message l)
      ∷ writes false i
      ∷ writes false i
      ∷ []

  fanned : ℕ → ServerStats F → Hub (Message F) → Hub (Message F)
  fanned i s h = record h {
    clients = map_values (offer (update_message s)) (insert i new_client h.clients);
  }

  fanned_client : ℕ → ServerStats F → Client (Message F)
  fanned_client i s = record {
    send = fanned_out (update_message s) ∷ [];
    closed = false;
    registered = true;
    written = [];
    lost = [];
    pump = not_started;
  }

  lookup-fanned :
      (i : ℕ) (s : ServerStats F) (h : Hub (Message F))
      → lookup i (fanned i s h).clients ≡ some (fanned_client i s)
  unfolding fanned fanned_client offer new_client
  lookup-fanned i s h = ground (
    arith,
    lookup-map_values (offer (update_message s)) i (insert i new_client h.clients),
    lookup-insert_self i new_client h.clients,
  )

  nothing_left : (h : Hub (Message F)) → run [] h ≡ done h
  unfolding run
  nothing_left h = refl

  run-step :
      (t : Step (Message F)) (ts : List (Step (Message F))) (h h' : Hub (Message F))
      → step t h ≡ done h'
      → run (t ∷ ts) h ≡ run ts h'
  unfolding run
  run-step t ts h h' goes = ground arith

  registered : (i : ℕ) (h : Hub (Message F)) → Hub (Message F)
  registered i h = record h { clients = insert i new_client h.clients }

  waiting : (i : ℕ) (s : ServerStats F) (h : Hub (Message F)) → Hub (Message F)
  waiting i s h = record h {
    clients = insert i new_client h.clients;
    broadcast = update_message s ∷ [];
  }

  given : (i : ℕ) (c : Client (Message F)) (h : Hub (Message F)) → Hub (Message F)
  given i c h = record h { clients = insert i c h.clients }

  lookup-given :
      (i : ℕ) (c : Client (Message F)) (h : Hub (Message F))
      → lookup i (given i c h).clients ≡ some c
  unfolding given
  lookup-given i c h = lookup-insert_self i c h.clients

  step-registers :
      (i : ℕ) (h : Hub (Message F))
      → h.running ≡ true
      → lookup i h.clients ≡ none
      → step (registers i) h ≡ done (registered i h)
  unfolding step send_initial write_pump unregister registered
  step-registers i h runs fresh = ground arith

  step-queues :
      (i : ℕ) (s : ServerStats F) (h : Hub (Message F))
      → h.broadcast ≡ []
      → step (queues (update_message s)) (registered i h) ≡ done (waiting i s h)
  unfolding step send_initial write_pump unregister registered waiting
  step-queues i s h empty = ground arith

  step-fans_out :
      (i : ℕ) (s : ServerStats F) (h : Hub (Message F))
      → h.running ≡ true
      → h.broadcast ≡ []
      → step fans_out (waiting i s h) ≡ done (fanned i s h)
  unfolding step send_initial write_pump unregister waiting fanned
  step-fans_out i s h runs empty = ground arith

  step-sends_initial :
      (i : ℕ) (m : Message F) (c : Client (Message F)) (h : Hub (Message F))
      → lookup i h.clients ≡ some c
      → c.closed ≡ false
      → length c.send ≤ 15
      → c.pump ≡ not_started
      → step (sends_initial i m) h
        ≡ done (given i (record c { send = c.send ++ initial m ∷ []; pump = pumping }) h)
  unfolding step send_initial write_pump unregister given
  step-sends_initial i m c h found live space fresh = ground arith

  step-writes :
      (i : ℕ) (m : Sent (Message F)) (ms : List (Sent (Message F))) (c : Client (Message F))
      (h : Hub (Message F))
      → lookup i h.clients ≡ some c
      → c.send ≡ m ∷ ms
      → c.pump ≡ pumping
      → step (writes false i) h
        ≡ done (given i (record c { send = ms; written = c.written ++ m ∷ [] }) h)
  unfolding step send_initial write_message write_pump unregister given
  step-writes i m ms c h found next on = ground arith

  -- The client with both messages in its buffer, with the first written, and with both written.
  buffered : ServerStats F → List (ServerStats F) → Client (Message F)
  buffered s l = record {
    send = fanned_out (update_message s) ∷ initial (snapshot_message l) ∷ [];
    closed = false;
    registered = true;
    written = [];
    lost = [];
    pump = pumping;
  }

  one_written : ServerStats F → List (ServerStats F) → Client (Message F)
  one_written s l = record (buffered s l) {
    send = initial (snapshot_message l) ∷ [];
    written = fanned_out (update_message s) ∷ [];
  }

  both_written : ServerStats F → List (ServerStats F) → Client (Message F)
  both_written s l = record (buffered s l) {
    send = [];
    written = fanned_out (update_message s) ∷ initial (snapshot_message l) ∷ [];
  }

  late_hub : ℕ → ServerStats F → List (ServerStats F) → Hub (Message F) → Hub (Message F)
  late_hub i s l h =
      given i (both_written s l) (given i (one_written s l) (given i (buffered s l) (fanned i s h)))

  run-late_steps :
      (i : ℕ) (s : ServerStats F) (l : List (ServerStats F)) (h : Hub (Message F))
      → h.running ≡ true
      → h.broadcast ≡ []
      → lookup i h.clients ≡ none
      → run (late_steps i s l) h ≡ done (late_hub i s l h)
  unfolding late_hub fanned_client buffered one_written both_written
  run-late_steps i s l h runs empty fresh =
      let m : Message F = snapshot_message l in
      let u : Message F = update_message s in
      let filled : Hub (Message F) = given i (buffered s l) (fanned i s h) in
      let first : Hub (Message F) = given i (one_written s l) filled in
      run-step (registers i)
        (queues u ∷ fans_out ∷ sends_initial i m ∷ writes false i ∷ writes false i ∷ []) h
        (registered i h) (step-registers i h runs fresh)
      ∙ run-step (queues u) (fans_out ∷ sends_initial i m ∷ writes false i ∷ writes false i ∷ [])
          (registered i h) (waiting i s h) (step-queues i s h empty)
      ∙ run-step fans_out (sends_initial i m ∷ writes false i ∷ writes false i ∷ []) (waiting i s h)
          (fanned i s h) (step-fans_out i s h runs empty)
      ∙ run-step (sends_initial i m) (writes false i ∷ writes false i ∷ []) (fanned i s h) filled (
          step-sends_initial i m (fanned_client i s) (fanned i s h) (lookup-fanned i s h) refl
            (omega arith) refl)
      ∙ run-step (writes false i) (writes false i ∷ []) filled first (
          step-writes i (fanned_out u) (initial m ∷ []) (buffered s l) filled
            (lookup-given i (buffered s l) (fanned i s h)) refl refl)
      ∙ run-step (writes false i) [] first (late_hub i s l h) (
          step-writes i (initial m) [] (one_written s l) first
            (lookup-given i (one_written s l) filled) refl refl)
      ∙ nothing_left (late_hub i s l h)

  -- Where the hub runs and nothing waits in it, a report that comes after `serveWS` has taken its
  -- snapshot, and is fanned out after it has registered its new client and before it sends the
  -- snapshot, is lost on that dashboard: the registry has the report, and the dashboard, with all
  -- written to it, shows the snapshot alone.
  pub late_snapshot :
      (sort : List (ServerStats F) → List (ServerStats F)) (i : ℕ) (s : ServerStats F)
      (r : Registry F) (h : Hub (Message F))
      → h.running ≡ true
      → h.broadcast ≡ []
      → lookup i h.clients ≡ none
      → (h' : Hub (Message F)) × (c : Client (Message F)) × (run
            (late_steps i s (snapshot sort r))
            h
          ≡ done h')
        × (lookup i h'.clients ≡ some c)
        × (c.send ≡ [])
        × (show_all c.written [] ≡ shown (snapshot sort r))
        × (get s.id (ingest_stats true s r).0 ≡ some s)
  unfolding late_hub both_written buffered show_all show get ingest_stats upsert
  late_snapshot sort i s r h runs empty fresh = (
    late_hub i s (snapshot sort r) h,
    both_written s (snapshot sort r),
    run-late_steps i s (snapshot sort r) h runs empty fresh,
    lookup-given i (both_written s (snapshot sort r)) _,
    refl,
    refl,
    lookup-insert_self s.id s r,
  )
