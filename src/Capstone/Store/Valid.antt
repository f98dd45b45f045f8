-- ===== src/Capstone/Store/Valid.antt =====
-- The rows that the operations of 47_capstone/internal/store/store.go leave.
use mathlib.Core.Path.{subst}
use Prim.Native.String.{len}
use go_basics.Common.{
  ℕ, ◌≤◌, ◌≡◌, ◌≢◌, refl, sym, ◌∙◌, Bool, true, false, String, Option, none, some, List, [], ◌∷◌,
  ◌⊎◌, inl, inr, arith, eq_iff, Option-cases,
}
use go_basics.Common.Int.{ℤ, pos, ◌≤ℤ◌}
use go_basics.Common.Dict.{int_comparable, lookup, insert, erase, insert_cases, erase_cases}
use go_basics.Common.Text.{trim_space, trim_space_twice, len-trim_space}
use go_basics.Common.Database.{Commit, committed, rolled_back, reply_lost}
use go_basics.Capstone.Store.{
  Task, Result, ok, err, NewTask, Patch, Tasks, is_valid, new_task, create, merged, as_new, patch,
  close, update, delete,
}

-- A task that the rules of `validateNew` allow, with its texts trimmed.
pub record IsValidTask (t : Task) : Type 0 where
  pub title_trimmed : trim_space t.title ≡ t.title
  pub title_some : t.title ≢ ""
  pub title_short : len t.title ≤ 200
  pub priority_low : pos 1 ≤ℤ t.priority
  pub priority_high : t.priority ≤ℤ pos 5
  pub tag_trimmed : trim_space t.tag ≡ t.tag
  pub tag_short : len t.tag ≤ 40

-- Every row is valid, and has the id that it is found under.
unfoldable pub IsSound : Tasks → Type 0
IsSound ts = (id : ℤ) (t : Task) → lookup id ts ≡ some t → (t.id ≡ id) × IsValidTask t

insert-IsSound :
    (id : ℤ) (t : Task) (ts : Tasks)
    → t.id ≡ id
    → IsValidTask t
    → IsSound ts
    → IsSound (insert id t ts)
unfolding IsSound
insert-IsSound id t ts same valid sound j u found = elim (insert_cases id j t u ts found) [
  | inl (here, new) ↦ subst (λ v. (v.id ≡ j) × IsValidTask v) new (same ∙ here, valid)
  | inr old ↦ sound j u old
]

new_task-IsValidTask :
    (id : ℤ) (now : ℕ) (new : NewTask) → is_valid new ≡ true → IsValidTask (new_task id now new)
unfolding is_valid new_task
new_task-IsValidTask id now new h = record {
  title_trimmed = trim_space_twice new.title;
  title_some = λ empty. ground (arith, eq_iff (trim_space new.title) "");
  title_short = ground arith;
  priority_low = ground arith;
  priority_high = ground arith;
  tag_trimmed = trim_space_twice new.tag;
  tag_short = ground (arith, len-trim_space new.tag);
}

trimmed_text :
    (o : Option String) (s : String)
    → trim_space s ≡ s
    → let r = elim o as (λ x. String) [ none ↦ s | some new ↦ trim_space new ] in trim_space r ≡ r
trimmed_text none s h = h
trimmed_text (some new) s h = trim_space_twice new

validated :
    (t : Task) (now : ℕ)
    → trim_space t.title ≡ t.title
    → trim_space t.tag ≡ t.tag
    → is_valid (as_new t) ≡ true
    → IsValidTask (record t { updated_at = now })
unfolding is_valid as_new
validated t now title tag h = record {
  title_trimmed = title;
  title_some = λ empty. ground (arith, eq_iff (trim_space t.title) "");
  title_short = ground arith;
  priority_low = ground arith;
  priority_high = ground arith;
  tag_trimmed = tag;
  tag_short = ground arith;
}

merged-IsValidTask :
    (p : Patch) (t : Task) (now : ℕ)
    → IsValidTask t
    → is_valid (as_new (merged p t)) ≡ true
    → IsValidTask (record (merged p t) { updated_at = now })
unfolding merged
merged-IsValidTask p t now valid h =
    validated (merged p t) now (trimmed_text p.title t.title valid.title_trimmed)
      (trimmed_text p.tag t.tag valid.tag_trimmed) h

erase-IsSound : (id : ℤ) (ts : Tasks) → IsSound ts → IsSound (erase id ts)
unfolding IsSound
erase-IsSound id ts sound j u found = sound j u (erase_cases id j u ts found)

new_task-id : (id : ℤ) (now : ℕ) (new : NewTask) → (new_task id now new).id ≡ id
unfolding new_task
new_task-id id now new = refl

valid_of : (id : ℤ) (ts : Tasks) (t : Task) → IsSound ts → lookup id ts ≡ some t → IsValidTask t
unfolding IsSound
valid_of id ts t sound found = (sound id t found).1

id_of : (id : ℤ) (ts : Tasks) (t : Task) → IsSound ts → lookup id ts ≡ some t → t.id ≡ id
unfolding IsSound
id_of id ts t sound found = (sound id t found).0

create_cases :
    (c : Commit) (id : ℤ) (now : ℕ) (new : NewTask) (ts : Tasks)
    → ((create c id now new ts).1 ≡ ts)
      ⊎ ((is_valid new ≡ true) × ((create c id now new ts).1 ≡ insert id (new_task id now new) ts))
unfolding create
create_cases committed id now new ts = ground arith
create_cases rolled_back id now new ts = ground arith
create_cases reply_lost id now new ts = ground arith

create-IsSound :
    (c : Commit) (id : ℤ) (now : ℕ) (new : NewTask) (ts : Tasks)
    → IsSound ts
    → IsSound (create c id now new ts).1
create-IsSound c id now new ts sound = elim (create_cases c id now new ts) [
  | inl same ↦ subst IsSound (sym same) sound
  | inr (valid, more) ↦ subst IsSound (sym more) (
      insert-IsSound id (new_task id now new) ts (new_task-id id now new)
        (new_task-IsValidTask id now new valid) sound)
]

patch-IsSound :
    (select_fails update_fails : Bool) (id : ℤ) (now : ℕ) (p : Patch) (ts : Tasks) (t : Task)
    (ts' : Tasks)
    → patch select_fails update_fails id now p ts ≡ ok (t, ts')
    → IsSound ts
    → IsSound ts'
unfolding patch merged
patch-IsSound select_fails update_fails id now p ts t ts' h sound =
    elim (Option-cases (lookup id ts)) [
      | inl missing ↦ absurd (ground arith)
      | inr (old, found) ↦
          subst IsSound {x = insert id (record (merged p old) { updated_at = now }) ts}
            (ground arith)
            (insert-IsSound id (record (merged p old) { updated_at = now }) ts
              (id_of id ts old sound found)
              (merged-IsValidTask p old now (valid_of id ts old sound found) (ground arith)) sound)
    ]

delete_cases :
    (c : Commit) (id : ℤ) (ts : Tasks)
    → ((delete c id ts).1 ≡ ts) ⊎ ((delete c id ts).1 ≡ erase id ts)
unfolding delete
delete_cases committed id ts = ground arith
delete_cases rolled_back id ts = ground arith
delete_cases reply_lost id ts = ground arith

close-IsSound :
    (c : Commit) (r : Result (Task × Tasks)) (ts : Tasks)
    → IsSound ts
    → ((t : Task) (ts' : Tasks) → r ≡ ok (t, ts') → IsSound ts')
    → IsSound (close c r ts).1
unfolding close
close-IsSound c (err e) ts sound keeps = sound
close-IsSound committed (ok (t, ts')) ts sound keeps = keeps t ts' refl
close-IsSound rolled_back (ok (t, ts')) ts sound keeps = sound
close-IsSound reply_lost (ok (t, ts')) ts sound keeps = keeps t ts' refl

delete-IsSound : (c : Commit) (id : ℤ) (ts : Tasks) → IsSound ts → IsSound (delete c id ts).1
unfolding delete
delete-IsSound c id ts sound = elim (delete_cases c id ts) [
  | inl same ↦ subst IsSound (sym same) sound
  | inr gone ↦ subst IsSound (sym gone) (erase-IsSound id ts sound)
]

update-IsSound :
    (begin_fails select_fails update_fails : Bool) (c : Commit) (id : ℤ) (now : ℕ) (p : Patch)
    (ts : Tasks)
    → IsSound ts
    → IsSound (update begin_fails select_fails update_fails c id now p ts).1
unfolding update
update-IsSound true select_fails update_fails c id now p ts sound = sound
update-IsSound false select_fails update_fails c id now p ts sound =
    close-IsSound c (patch select_fails update_fails id now p ts) ts sound
      (λ t ts' h. patch-IsSound select_fails update_fails id now p ts t ts' h sound)

-- A request that changes the table, with what the database does in it.
pub data Request : Type 0 where
  creates : Commit → ℤ → ℕ → NewTask → Request
  updates : Bool → Bool → Bool → Commit → ℤ → ℕ → Patch → Request
  deletes : Commit → ℤ → Request

unfoldable pub serve : Request → Tasks → Tasks
serve (creates c id now new) ts = (create c id now new ts).1
serve (updates b s u c id now p) ts = (update b s u c id now p ts).1
serve (deletes c id) ts = (delete c id ts).1

unfoldable pub serve_all : List Request → Tasks → Tasks
serve_all [] ts = ts
serve_all (r ∷ rs) ts = serve_all rs (serve r ts)

serve-IsSound : (r : Request) (ts : Tasks) → IsSound ts → IsSound (serve r ts)
unfolding serve
serve-IsSound (creates c id now new) ts = create-IsSound c id now new ts
serve-IsSound (updates b s u c id now p) ts = update-IsSound b s u c id now p ts
serve-IsSound (deletes c id) ts = delete-IsSound c id ts

serve_all-IsSound : (rs : List Request) (ts : Tasks) → IsSound ts → IsSound (serve_all rs ts)
unfolding serve_all
serve_all-IsSound [] ts sound = sound
serve_all-IsSound (r ∷ rs) ts sound = serve_all-IsSound rs (serve r ts) (serve-IsSound r ts sound)

none-IsSound : IsSound []
unfolding IsSound lookup
none-IsSound id t found = absurd (ground arith)

-- From an empty table, along any requests and whatever statements and commits fail: each row has the id
-- that it is found under, a trimmed title of 1 to 200 bytes, a priority from 1 to 5 and a trimmed tag of at
-- most 40 bytes.
pub histories-IsSound : (rs : List Request) → IsSound (serve_all rs [])
histories-IsSound rs = serve_all-IsSound rs [] none-IsSound
