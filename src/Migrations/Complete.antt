-- ===== src/Migrations/Complete.antt =====
-- Runs of the migrations of go-crud and 47_capstone that report no error.
use mathlib.Core.Path.{subst}
use mathlib.Core.List.{append-nil}
use go_basics.Common.{
  suc, ◌≡◌, refl, sym, ap, ◌∙◌, Bool, true, false, String, Option, some, List, [], ◌∷◌, ◌++◌, All,
  length, length-append, arith,
}
use go_basics.Migrations.{File, Database, Trouble, contains, migrate_from, migrate}
use go_basics.Migrations.Versions.{Distinct, versions_of, versions_known}
use go_basics.Migrations.Runs.{
  apply_all, IsAt, migrate_from-skips, migrate-Comes, after_runs, runs-IsAt, fresh_database,
  fresh-IsAt,
}

length-versions_of : (fs : List File) → length (versions_of fs) ≡ length fs
length-versions_of [] = refl
length-versions_of (f ∷ fs) = ap suc (length-versions_of fs)

no_rest : (pre post : List File) → versions_of pre ≡ versions_of (pre ++ post) → post ≡ []
no_rest pre [] h = refl
no_rest pre (f ∷ post) h = absurd (
    omega (
      arith,
      ap length h,
      length-versions_of pre,
      length-versions_of (pre ++ f ∷ post),
      length-append pre (f ∷ post),
    ))

module _ {S : Type 0} (apply : String → S → Option S) (start : S) where
  all_made :
      (files : List File) (db : Database S) (at : IsAt apply start files db)
      → db.versions ≡ versions_of files
      → apply_all apply start files start ≡ some db.schema
  all_made files db at rows =
      let rest : at.post ≡ [] =
        no_rest at.pre at.post (sym at.rows ∙ rows ∙ ap versions_of at.split) in
      ap (λ l. apply_all apply start l start)
        (at.split ∙ ap (λ l. at.pre ++ l) rest ∙ append-nil at.pre)
      ∙ at.made

  again_nothing :
      (trouble : File → Trouble) (files : List File) (db : Database S)
      → db.versions ≡ versions_of files
      → migrate apply false trouble files db ≡ ((0, true), db)
  unfolding migrate migrate_from
  again_nothing trouble files db rows =
      ap (λ l. migrate_from apply trouble l db.versions db) (sym (append-nil files))
      ∙ migrate_from-skips apply start trouble files [] db.versions db (
          subst (λ l. All (λ f. contains f.version l ≡ true) files) (sym rows)
            (versions_known [] files))

  -- From an empty database, for files of different versions: after any runs, interrupted at any file in
  -- any way, the database is as a first part of the files makes it, each applied once and in order, and its
  -- rows say which. If one more run then reports no error, all files have been applied, as an
  -- uninterrupted run would do; and a further run applies none and changes nothing.
  pub runs_complete :
      (rs : List (Bool × (File → Trouble))) (trouble again : File → Trouble) (files : List File)
      → Distinct files
      → let db = after_runs apply start rs files (fresh_database apply start) in
        let last = migrate apply false trouble files db in
        IsAt apply start files db
        × (last.0.1 ≡ true
            → (last.1.versions ≡ versions_of files)
              × (apply_all apply start files start ≡ some last.1.schema)
              × (migrate apply false again files last.1 ≡ ((0, true), last.1)))
  runs_complete rs trouble again files distinct =
      let db : Database S = after_runs apply start rs files (fresh_database apply start) in
      let at : IsAt apply start files db =
        runs-IsAt apply start rs files (fresh_database apply start) distinct
          (fresh-IsAt apply start files) in
      let (last, rows) = migrate-Comes apply start false trouble files db distinct at in
      (
        at,
        λ fine. (
          (rows fine).0,
          all_made files (migrate apply false trouble files db).1 last (rows fine).0,
          again_nothing again files (migrate apply false trouble files db).1 (rows fine).0,
        ),
      )
