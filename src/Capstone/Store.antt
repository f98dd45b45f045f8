-- ===== src/Capstone/Store.antt =====
-- 47_capstone/internal/store/store.go: the repository of tasks. An argument `fails` says that a query
-- ends in an error, and a `Commit` what becomes of what changes the table: a statement of its own is a
-- transaction, which the database may keep though the caller gets an error.
pub mod Valid
pub mod Pages
use go_basics.Common.{
  ℕ, ◌-◌, ◌%◌, Bool, true, false, ◌||◌, ◌&&◌, not, String, Option, none, some, List, [], ◌∷◌, ◌++◌,
  str_eq, ltb, leb, ◌==◌, if◌then◌else◌, map, select, length, take, drop,
}
use Prim.Native.String.{len}
use go_basics.Common.Int.{ℤ, pos, pos_part, ltb_ℤ, leb_ℤ, int_beq}
use go_basics.Common.Dict.{Dict, int_comparable, lookup, insert, erase}
use go_basics.Common.Text.{trim_space}
use go_basics.Common.Database.{Commit, committed, rolled_back, reply_lost}

-- `Task`. Instants are milliseconds since the epoch, as the store keeps them.
pub record Task : Type 0 where
  pub id : ℤ
  pub title : String
  pub done : Bool
  pub priority : ℤ
  pub tag : String
  pub created_at : ℕ
  pub updated_at : ℕ

-- The errors of the store: its sentinels, and any other. ErrConflict is returned by nothing.
pub data Error : Type 0 where
  not_found invalid conflict : Error
  database : Error

pub data Result (A : Type 0) : Type 0 where
  ok : A → Result A
  err : Error → Result A

-- `NewTask`.
pub record NewTask : Type 0 where
  pub title : String
  pub priority : ℤ
  pub tag : String

-- `Patch`: a field that is nil is not supplied.
pub record Patch : Type 0 where
  pub title : Option String
  pub done : Option Bool
  pub priority : Option ℤ
  pub tag : Option String

-- `Filter`.
pub record Filter : Type 0 where
  pub done : Option Bool
  pub tag : String
  pub max_prio : Option ℤ
  pub limit : ℤ
  pub offset : ℤ

-- `ClampLimit`.
unfoldable pub clamp_limit : ℤ → ℕ
clamp_limit n = if leb_ℤ n (pos 0) then 20 else if ltb_ℤ (pos 100) n then 100 else pos_part n

-- `validateNew`: whether it finds no error.
unfoldable pub is_valid : NewTask → Bool
is_valid new =
    let title = trim_space new.title in
    not (str_eq title "")
    && leb (len title) 200
    && leb_ℤ (pos 1) new.priority
    && leb_ℤ new.priority (pos 5)
    && leb (len new.tag) 40

-- The table `tasks`, by id.
abbrev pub Tasks : Type 0
Tasks = Dict ℤ Task

-- The row that `Create` inserts.
unfoldable pub new_task : ℤ → ℕ → NewTask → Task
new_task id now new = record {
  id = id;
  title = trim_space new.title;
  done = false;
  priority = new.priority;
  tag = trim_space new.tag;
  created_at = now;
  updated_at = now;
}

-- `Create`, with the id that the database gives. A statement that ends in an error may have taken effect.
unfoldable pub create : Commit → ℤ → ℕ → NewTask → Tasks → Result Task × Tasks
create c id now new ts =
    let more = insert id (new_task id now new) ts in
    if not (is_valid new) then (err invalid, ts) else elim c [
      | committed ↦ (ok (new_task id now new), more)
      | rolled_back ↦ (err database, ts)
      | reply_lost ↦ (err database, more)
    ]

-- `Get`.
unfoldable pub get : Bool → ℤ → Tasks → Result Task
get fails id ts =
    if fails then err database else elim (lookup id ts) [ none ↦ err not_found | some t ↦ ok t ]

-- The conditions of `List`.
unfoldable pub matches : Filter → Task → Bool
matches f t =
    elim f.done [ none ↦ true | some (true) ↦ t.done | some (false) ↦ not t.done ]
    && (str_eq f.tag "" || str_eq t.tag f.tag)
    && elim f.max_prio [ none ↦ true | some n ↦ leb_ℤ t.priority n ]

-- The rows that match, before they are put into order.
unfoldable pub matching : Filter → Tasks → List Task
matching f ts = select (matches f) (map (λ p. p.1) ts)

-- `List`. `arrange` is how the database puts rows into order, and `between` what others commit
-- between the count and the page.
unfoldable pub list :
    Bool
    → Bool
    → (Tasks → Tasks)
    → (List Task → List Task)
    → Filter
    → Tasks
    → Result (List Task × ℕ)
list count_fails page_fails between arrange f ts =
    if count_fails || page_fails
    then err database
    else ok (
      take (clamp_limit f.limit) (drop (pos_part f.offset) (arrange (matching f (between ts)))),
      length (matching f ts),
    )

-- The merge of `Update`.
unfoldable pub merged : Patch → Task → Task
merged p t = record t {
  title = elim p.title [ none ↦ t.title | some s ↦ trim_space s ];
  done = elim p.done [ none ↦ t.done | some b ↦ b ];
  priority = elim p.priority [ none ↦ t.priority | some n ↦ n ];
  tag = elim p.tag [ none ↦ t.tag | some s ↦ trim_space s ];
}

-- What `validateNew` sees of a task.
unfoldable pub as_new : Task → NewTask
as_new t = record { title = t.title; priority = t.priority; tag = t.tag }

-- The statements of the transaction of `Update`.
unfoldable pub patch : Bool → Bool → ℤ → ℕ → Patch → Tasks → Result (Task × Tasks)
patch select_fails update_fails id now p ts =
    if select_fails then err database else elim (lookup id ts) [
      | none ↦ err not_found
      | some t ↦
          let t' = record (merged p t) { updated_at = now } in
          if not (is_valid (as_new (merged p t)))
          then err invalid
          else if update_fails
          then err database
          else ok (t', insert id t' ts)
    ]

-- The end of a transaction.
unfoldable pub close : Commit → Result (Task × Tasks) → Tasks → Result Task × Tasks
close c (err e) ts = (err e, ts)
close committed (ok (t, ts')) ts = (ok t, ts')
close rolled_back (ok (t, ts')) ts = (err database, ts)
close reply_lost (ok (t, ts')) ts = (err database, ts')

-- `Update`.
unfoldable pub update : Bool → Bool → Bool → Commit → ℤ → ℕ → Patch → Tasks → Result Task × Tasks
unfolding patch close
update begin_fails select_fails update_fails c id now p ts =
    if begin_fails
    then (err database, ts)
    else close c (patch select_fails update_fails id now p ts) ts

-- `Delete`, where a statement that ends in an error may have taken effect.
unfoldable pub delete : Commit → ℤ → Tasks → Result Unit × Tasks
delete committed id ts = elim (lookup id ts) [
  | none ↦ (err not_found, ts)
  | some t ↦ (ok tt, erase id ts)
]
delete rolled_back id ts = (err database, ts)
delete reply_lost id ts = (err database, erase id ts)
