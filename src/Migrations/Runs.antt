-- ===== src/Migrations/Runs.antt =====
-- Runs of the migrations of go-crud and 47_capstone, interrupted and not.
use mathlib.Core.Path.{subst}
use mathlib.Core.List.{append_assoc, append-nil}
use go_basics.Common.{
  ℕ, suc, ◌≡◌, refl, sym, ap, ◌∙◌, Bool, true, false, String, Option, none, some, List, [], ◌∷◌,
  ◌++◌, All, length, arith, Option-cases, Bool-cases, ◌⊎◌, inl, inr,
}
use go_basics.Common.Database.{committed, rolled_back, reply_lost}
use go_basics.Migrations.{
  File, Database, Trouble, read_fails, begin_fails, apply_fails, record_fails, ends, contains,
  commit, apply_one, migrate_from, migrate,
}
use go_basics.Migrations.Versions.{
  Distinct, versions_of, not_known, versions_known, versions_of-append,
}

module _ {S : Type 0} (apply : String → S → Option S) (start : S) where
  -- The files applied in order, each once.
  unfoldable pub apply_all : List File → S → Option S
  apply_all [] s = some s
  apply_all (f ∷ fs) s = elim (apply f.body s) [ none ↦ none | some t ↦ apply_all fs t ]

  apply_all-append :
      (a : List File) (f : File) (s t : S)
      → apply_all a s ≡ some t
      → apply_all (a ++ f ∷ []) s ≡ apply f.body t
  unfolding apply_all
  apply_all-append [] f s t h = elim (Option-cases (apply f.body s)) [
    | inl missing ↦ ground arith
    | inr (u, goes) ↦ ground arith
  ]
  apply_all-append (g ∷ a) f s t h = elim (Option-cases (apply g.body s)) [
    | inl missing ↦ absurd (ground arith)
    | inr (u, goes) ↦ ground (arith, apply_all-append a f u t)
  ]

  -- The database is as the files before some point make it, and its rows say so.
  pub record IsAt (files : List File) (db : Database S) : Type 0 where
    pub pre : List File
    pub post : List File
    pub split : files ≡ pre ++ post
    pub rows : db.versions ≡ versions_of pre
    pub made : apply_all pre start ≡ some db.schema

  apply_one-cases :
      (t : Trouble) (f : File) (db : Database S)
      → (apply_one apply t f db ≡ (false, db))
        ⊎ ((fine : Bool) × (s : S) × (apply f.body db.schema ≡ some s)
            × (apply_one apply t f db
                ≡ (fine, record { versions = db.versions ++ f.version ∷ []; schema = s })))
  unfolding apply_one commit
  apply_one-cases read_fails f db = inl refl
  apply_one-cases begin_fails f db = inl refl
  apply_one-cases apply_fails f db = inl refl
  apply_one-cases record_fails f db = inl refl
  apply_one-cases (ends committed) f db = elim (Option-cases (apply f.body db.schema)) [
    | inl missing ↦ inl (ground arith)
    | inr (s, goes) ↦ inr (true, s, goes, ground arith)
  ]
  apply_one-cases (ends rolled_back) f db = elim (Option-cases (apply f.body db.schema)) [
    | inl missing ↦ inl (ground arith)
    | inr (s, goes) ↦ inl (ground arith)
  ]
  apply_one-cases (ends reply_lost) f db = elim (Option-cases (apply f.body db.schema)) [
    | inl missing ↦ inl (ground arith)
    | inr (s, goes) ↦ inr (false, s, goes, ground arith)
  ]

  -- What a run from a point comes to, of a number of files.
  abbrev pub Comes : List File → ℕ → (ℕ × Bool) × Database S → Type 0
  Comes files n r =
      IsAt files r.1 × (r.0.1 ≡ true → (r.1.versions ≡ versions_of files) × (r.0.0 ≡ n))

  next_row :
      (pre : List File) (f : File) (db : Database S)
      → db.versions ≡ versions_of pre
      → db.versions ++ f.version ∷ [] ≡ versions_of (pre ++ f ∷ [])
  next_row pre f db rows =
      ap (λ l. l ++ f.version ∷ []) rows ∙ sym (versions_of-append pre (f ∷ []))

  Comes-stopped :
      (pre post : List File) (n : ℕ) (db : Database S)
      → db.versions ≡ versions_of pre
      → apply_all pre start ≡ some db.schema
      → Comes (pre ++ post) n ((0, false), db)
  Comes-stopped pre post n db rows made = (
    record { pre = pre; post = post; split = refl; rows = rows; made = made },
    λ fine. absurd (ground arith),
  )

  Comes-cons :
      (pre : List File) (f : File) (post : List File) (r : (ℕ × Bool) × Database S)
      → Comes ((pre ++ f ∷ []) ++ post) (length post) r
      → Comes (pre ++ f ∷ post) (suc (length post)) ((suc r.0.0, r.0.1), r.1)
  Comes-cons pre f post r (at, done) = (
    subst (λ l. IsAt l r.1) (append_assoc pre (f ∷ []) post) at,
    λ fine.
        let (rows, counted) = done fine in
        (rows ∙ ap versions_of (append_assoc pre (f ∷ []) post), ap suc counted),
  )

  migrate_from-Comes :
      (trouble : File → Trouble) (pre post : List File) (known : List String) (db : Database S)
      → All (λ f. contains f.version known ≡ false) post
      → db.versions ≡ versions_of pre
      → apply_all pre start ≡ some db.schema
      → Comes (pre ++ post) (length post) (migrate_from apply trouble post known db)
  unfolding migrate_from
  migrate_from-Comes trouble pre [] known db fresh rows made = (
    record { pre = pre; post = []; split = refl; rows = rows; made = made },
    λ fine. (rows ∙ ap versions_of (sym (append-nil pre)), refl),
  )
  migrate_from-Comes trouble pre (f ∷ post) known db fresh rows made =
      let Whole = Comes (pre ++ f ∷ post) (suc (length post)) in
      elim (apply_one-cases (trouble f) f db) [
        | inl same ↦
            subst Whole {x = ((0, false), db)} (ground (arith, fresh.0))
              (Comes-stopped pre (f ∷ post) (suc (length post)) db rows made)
        | inr (fine, s, goes, done) ↦
            let db' : Database S = record {
              versions = db.versions ++ f.version ∷ [];
              schema = s;
            } in
            let rows' = next_row pre f db rows in
            let made' = apply_all-append pre f start db.schema made ∙ goes in
            let r : (ℕ × Bool) × Database S = migrate_from apply trouble post known db' in
            elim (Bool-cases fine) [
              | inl goes_on ↦
                  subst Whole {x = ((suc r.0.0, r.0.1), r.1)} (ground (arith, fresh.0)) (
                    Comes-cons pre f post r (
                      migrate_from-Comes trouble (pre ++ f ∷ []) post known db' fresh.1 rows'
                        made'))
              | inr stops_here ↦ subst Whole {x = ((0, false), db')} (ground (arith, fresh.0)) (
                  subst (λ l. Comes l (suc (length post)) ((0, false), db'))
                    (append_assoc pre (f ∷ []) post)
                    (Comes-stopped (pre ++ f ∷ []) post (suc (length post)) db' rows' made'))
            ]
      ]

  pub migrate_from-skips :
      (trouble : File → Trouble) (pre post : List File) (known : List String) (db : Database S)
      → All (λ f. contains f.version known ≡ true) pre
      → migrate_from apply trouble (pre ++ post) known db ≡ migrate_from apply trouble post known db
  unfolding migrate_from
  migrate_from-skips trouble [] post known db h = refl
  migrate_from-skips trouble (f ∷ pre) post known db h =
      ground (arith, h.0, migrate_from-skips trouble pre post known db h.1)

  pub migrate-Comes :
      (setup_fails : Bool) (trouble : File → Trouble) (files : List File) (db : Database S)
      → Distinct files
      → (at : IsAt files db)
      → Comes files (length at.post) (migrate apply setup_fails trouble files db)
  unfolding migrate
  migrate-Comes true trouble files db distinct at = (at, λ fine. absurd (ground arith))
  migrate-Comes false trouble files db distinct at =
      subst (Comes files (length at.post)) {x = migrate_from apply trouble at.post db.versions db}
        (sym (
          ap (λ l. migrate_from apply trouble l db.versions db) at.split
          ∙ migrate_from-skips trouble at.pre at.post db.versions db (
              subst (λ l. All (λ f. contains f.version l ≡ true) at.pre) (sym at.rows)
                (versions_known [] at.pre))))
        (subst (λ l. Comes l (length at.post) (migrate_from apply trouble at.post db.versions db))
          (sym at.split)
          (migrate_from-Comes trouble at.pre at.post db.versions db
            (subst (λ l. All (λ f. contains f.version l ≡ false) at.post) (sym at.rows)
              (not_known at.pre at.post (subst Distinct at.split distinct)))
            at.rows at.made))

  -- The database after runs, each with what goes wrong in it.
  unfoldable pub after_runs : List (Bool × (File → Trouble)) → List File → Database S → Database S
  after_runs [] files db = db
  after_runs ((setup_fails, trouble) ∷ rs) files db =
      after_runs rs files (migrate apply setup_fails trouble files db).1

  pub runs-IsAt :
      (rs : List (Bool × (File → Trouble))) (files : List File) (db : Database S)
      → Distinct files
      → IsAt files db
      → IsAt files (after_runs rs files db)
  unfolding after_runs
  runs-IsAt [] files db distinct at = at
  runs-IsAt ((setup_fails, trouble) ∷ rs) files db distinct at =
      runs-IsAt rs files (migrate apply setup_fails trouble files db).1 distinct
        (migrate-Comes setup_fails trouble files db distinct at).0

  unfoldable pub fresh_database : Database S
  fresh_database = record { versions = []; schema = start }

  pub fresh-IsAt : (files : List File) → IsAt files fresh_database
  unfolding fresh_database apply_all
  fresh-IsAt files = record { pre = []; post = files; split = refl; rows = refl; made = refl }
