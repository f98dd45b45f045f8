-- ===== src/Migrations.antt =====
-- The runners of migrations: go-crud/internal/database/postgres.go (`Migrate`) and
-- 47_capstone/internal/store/store.go (`Migrate`, `applyOne`, `appliedVersions`), which have the same
-- loop. What a file does to the schema is a parameter, and so is what goes wrong. Files are in the
-- order of their names.
pub mod Versions
pub mod Runs
pub mod Complete
mod Tests
use go_basics.Common.{
  ℕ, suc, Bool, true, false, String, Option, none, some, List, [], ◌∷◌, ◌++◌, ◌||◌, str_eq,
  if◌then◌else◌,
}
use go_basics.Common.Database.{Commit, committed, rolled_back, reply_lost}

-- A file: the version that its name gives, and its text.
pub record File : Type 0 where
  pub version : String
  pub body : String

-- The schema, and the rows of schema_migrations in the order in which they were written.
pub record Database (S : Type 0) : Type 0 where
  pub versions : List String
  pub schema : S

-- What happens to one file: a step before the commit fails, or the commit ends so.
pub data Trouble : Type 0 where
  read_fails begin_fails apply_fails record_fails : Trouble
  ends : Commit → Trouble

unfoldable pub contains : String → List String → Bool
contains v [] = false
contains v (w ∷ ws) = let rest = contains v ws in str_eq w v || rest

module _ {S : Type 0} (apply : String → S → Option S) where
  -- The end of the transaction of one file.
  unfoldable pub commit : Commit → File → S → Database S → Bool × Database S
  commit committed f s db = (true, record { versions = db.versions ++ f.version ∷ []; schema = s })
  commit rolled_back f s db = (false, db)
  commit reply_lost f s db =
      (false, record { versions = db.versions ++ f.version ∷ []; schema = s })

  -- `applyOne`: whether there is no error, and the database.
  unfoldable pub apply_one : Trouble → File → Database S → Bool × Database S
  apply_one read_fails f db = (false, db)
  apply_one begin_fails f db = (false, db)
  apply_one apply_fails f db = (false, db)
  apply_one record_fails f db = (false, db)
  apply_one (ends c) f db = elim (apply f.body db.schema) [
    | none ↦ (false, db)
    | some s ↦ commit c f s db
  ]

  -- The loop: the number applied, whether there is no error, and the database.
  unfoldable pub migrate_from :
      (File → Trouble) → List File → List String → Database S → (ℕ × Bool) × Database S
  migrate_from trouble [] known db = ((0, true), db)
  migrate_from trouble (f ∷ fs) known db =
      let skipped = migrate_from trouble fs known db in
      let (fine, db') = apply_one (trouble f) f db in
      let (counted, after) = migrate_from trouble fs known db' in
      if contains f.version known
      then skipped
      else if fine
      then ((suc counted.0, counted.1), after)
      else ((0, false), db')

  -- `Migrate`. An argument says that the table of versions cannot be made or read.
  unfoldable pub migrate :
      Bool → (File → Trouble) → List File → Database S → (ℕ × Bool) × Database S
  migrate setup_fails trouble fs db =
      if setup_fails then ((0, false), db) else migrate_from trouble fs db.versions db
