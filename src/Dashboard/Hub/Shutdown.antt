-- ===== src/Dashboard/Hub/Shutdown.antt =====
-- The end of the hub's loop in server-dashboard/backend/internal/hub.
use go_basics.Common.{ℕ, ◌≡◌, refl, true, false, some, arith}
use go_basics.Common.Dict.{nat_comparable, lookup, map_values, lookup-map_values}
use go_basics.Dashboard.Hub.{
  Client, Hub, done, blocked, panicked, fans_out, registers, unregisters, stops, sends_initial,
  close_send, step, send_initial, write_pump, unregister, not_started,
}

module _ {M : Type 0} where
  stopped : Hub M → Hub M
  stopped h = record h { clients = map_values close_send h.clients; running = false }

  -- Once the hub's loop, with a client registered, has ended: if that client has not yet been sent its
  -- snapshot, sending it panics; no read pump can ever unregister its client; no client can be
  -- registered; and nothing more is fanned out.
  pub stops-blocks :
      (h : Hub M) (i : ℕ) (c : Client M) (m : M)
      → h.running ≡ true
      → lookup i h.clients ≡ some c
      → c.registered ≡ true
      → c.pump ≡ not_started
      → (h' : Hub M) × (step stops h ≡ done h')
        × (step (sends_initial i m) h' ≡ panicked)
        × ((j : ℕ) → step (unregisters j) h' ≡ blocked)
        × ((j : ℕ) → step (registers j) h' ≡ blocked)
        × (step fans_out h' ≡ blocked)
  unfolding step send_initial write_pump unregister close_send stopped
  stops-blocks h i c m runs found here fresh = (
    stopped h,
    ground arith,
    ground (arith, lookup-map_values close_send i h.clients),
    λ j. refl,
    λ j. refl,
    refl,
  )
