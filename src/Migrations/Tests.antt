-- ===== src/Migrations/Tests.antt =====
-- Runs of migrations on a schema that is a list of texts.
use go_basics.Common.{
  ◌≡◌, ◌≢◌, true, false, String, Option, some, List, [], ◌∷◌, ◌++◌, arith, eq_iff,
}
use go_basics.Common.Database.{committed, reply_lost}
use go_basics.Migrations.{File, apply_fails, ends, migrate}
use go_basics.Migrations.Versions.{Distinct, versions_of}
use go_basics.Migrations.Runs.{IsAt, apply_all, after_runs, fresh_database}
use go_basics.Migrations.Complete.{runs_complete}

abbrev apply : String → List String → Option (List String)
apply body schema = some (schema ++ body ∷ [])

abbrev files : List File
files =
    record { version = "0001"; body = "users" } ∷ record { version = "0002"; body = "orders" } ∷ []

abbrev later : String
later = "0002"

differ : later ≢ "0001"
differ h = ground (arith, eq_iff "0002" "0001")

files-Distinct : Distinct files
files-Distinct = ((differ, tt), (tt, tt))

runs_complete_example :
    let db =
      after_runs apply []
        ((false, λ f. ends reply_lost) ∷ (false, λ f. apply_fails) ∷ [])
        files
        (fresh_database apply []) in
    let last = migrate apply false (λ f. ends committed) files db in
    IsAt apply [] files db
    × (last.0.1 ≡ true
        → (last.1.versions ≡ versions_of files)
          × (apply_all apply [] files [] ≡ some last.1.schema)
          × (migrate apply false (λ f. apply_fails) files last.1 ≡ ((0, true), last.1)))
runs_complete_example =
    runs_complete apply [] ((false, λ f. ends reply_lost) ∷ (false, λ f. apply_fails) ∷ [])
      (λ f. ends committed) (λ f. apply_fails) files files-Distinct
