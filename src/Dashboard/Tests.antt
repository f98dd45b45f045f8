-- ===== src/Dashboard/Tests.antt =====
-- Runs of the hub of server-dashboard/backend.
use go_basics.Common.{ℕ, ◌≡◌, refl, true, false, List, [], ◌∷◌}
use go_basics.Common.Dict.{nat_comparable, lookup, insert, map_values}
use go_basics.Dashboard.Hub.{
  initial, fanned_out, Client, Hub, done, Step, queues, fans_out, registers, unregisters,
  sends_initial, writes, new_hub, new_client, offer, dropped, step, run, send_initial,
  write_message, write_pump, not_started, ended, unregister,
}
use go_basics.Dashboard.Hub.Order.{queued, IsSound}
use go_basics.Dashboard.Hub.Histories.{fan_out-IsSound}
use go_basics.Dashboard.Registry.{ServerStats, Message, Registry}

-- The second write fails, and the hub goes on to fill the client's buffer.
abbrev steps : List (Step ℕ)
steps =
    registers 1
    ∷ queues 5
    ∷ sends_initial 1 9
    ∷ fans_out
    ∷ writes false 1
    ∷ writes true 1
    ∷ queues 6
    ∷ fans_out
    ∷ queues 7
    ∷ unregisters 1
    ∷ []

abbrev after_steps : Hub ℕ
after_steps = record {
  clients =
      (
        1,
        record {
          send = fanned_out 6 ∷ [];
          closed = true;
          registered = false;
          written = initial 9 ∷ [];
          lost = fanned_out 5 ∷ [];
          pump = ended;
        },
      )
      ∷ [];
  broadcast = 7 ∷ [];
  running = true;
}

run-steps : run steps new_hub ≡ done after_steps
unfolding run step send_initial write_message write_pump unregister new_hub new_client offer dropped
    lookup insert map_values
run-steps = refl

fan_out-IsSound_example : IsSound (5 ∷ 6 ∷ 7 ∷ []) after_steps
unfolding queued
fan_out-IsSound_example = fan_out-IsSound steps after_steps run-steps

abbrev client : Client ℕ
client = record {
  send = [];
  closed = false;
  registered = true;
  written = [];
  lost = [];
  pump = not_started;
}

abbrev hub : Hub ℕ
hub = record { clients = (1, client) ∷ []; broadcast = []; running = true }

abbrev down_report : ServerStats ℕ
down_report = record {
  id = "srv-01";
  status = "down";
  cpu_percent = 0;
  mem_percent = 0;
  request_rate = 0;
  updated_at = 7;
}

abbrev registry : Registry ℕ
registry = ("srv-01", record down_report { status = "healthy"; updated_at = 5 }) ∷ []

abbrev idle : Hub (Message ℕ)
idle = record { clients = []; broadcast = []; running = true }
