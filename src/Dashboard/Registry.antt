-- ===== src/Dashboard/Registry.antt =====
-- server-dashboard/backend/internal: registry/registry.go, and the handlers of api/api.go that join it
-- to the hub. F is the type of the float64 values.
pub mod Views
use go_basics.Common.{
  ℕ, Bool, true, false, not, String, Option, none, some, List, [], ◌∷◌, map, str_eq, if◌then◌else◌,
}
use go_basics.Common.Dict.{Dict, string_comparable, lookup, insert}
use go_basics.Dashboard.Hub.{Step, queues, sends_initial, registers}

-- `ServerStats`.
pub record ServerStats (F : Type 0) : Type 0 where
  pub id : String
  pub status : String
  pub cpu_percent : F
  pub mem_percent : F
  pub request_rate : F
  pub updated_at : ℕ

-- `healthReport`.
pub record HealthReport (F : Type 0) : Type 0 where
  pub status : String
  pub cpu_percent : F
  pub mem_percent : F
  pub request_rate : F

-- `snapshotMessage` and `updateMessage`.
pub data Message (F : Type 0) : Type 0 where
  snapshot_message : List (ServerStats F) → Message F
  update_message : ServerStats F → Message F

-- `Registry`.
abbrev pub Registry : Type 0 → Type 0
Registry F = Dict String (ServerStats F)

module _ {F : Type 0} where
  -- `Upsert`.
  unfoldable pub upsert : ServerStats F → Registry F → Registry F
  upsert s r = insert s.id s r

  -- `Snapshot`. `sort` is how the library sorts by id.
  unfoldable pub snapshot :
      (List (ServerStats F) → List (ServerStats F)) → Registry F → List (ServerStats F)
  snapshot sort r = sort (map (λ p. p.1) r)

  -- `Get`.
  unfoldable pub get : String → Registry F → Option (ServerStats F)
  get id r = lookup id r

  -- `IngestStats`: the registry, and the steps that it asks of the hub. `marshals` says that the message
  -- can be encoded.
  unfoldable pub ingest_stats :
      Bool → ServerStats F → Registry F → Registry F × List (Step (Message F))
  ingest_stats marshals s r = (upsert s r, if marshals then queues (update_message s) ∷ [] else [])

  -- The report of `ingestHealth`.
  unfoldable pub stats_of : String → HealthReport F → ℕ → ServerStats F
  stats_of id report now = record {
    id = id;
    status = report.status;
    cpu_percent = report.cpu_percent;
    mem_percent = report.mem_percent;
    request_rate = report.request_rate;
    updated_at = now;
  }

  -- `ingestHealth`, of the report that the body decodes to, if it does: the status, too.
  unfoldable pub ingest_health :
      Bool
      → String
      → Option (HealthReport F)
      → ℕ
      → Registry F
      → ℕ × (Registry F × List (Step (Message F)))
  ingest_health marshals id body now r = if str_eq id "" then (400, (r, [])) else elim body [
    | none ↦ (400, (r, []))
    | some report ↦ (202, ingest_stats marshals (stats_of id report now) r)
  ]

  -- `serveWS`, for client `i`: the steps that it takes once it has the registry's snapshot, if that can
  -- be encoded and the connection upgraded.
  unfoldable pub serve_ws :
      Bool
      → Bool
      → ℕ
      → (List (ServerStats F) → List (ServerStats F))
      → Registry F
      → Option (List (Step (Message F)))
  serve_ws marshals upgrades i sort r =
      if not marshals
      then none
      else if upgrades
      then some (registers i ∷ sends_initial i (snapshot_message (snapshot sort r)) ∷ [])
      else some []
