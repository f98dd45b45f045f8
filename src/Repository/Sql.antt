-- ===== src/Repository/Sql.antt =====
-- `SQLTaskRepo` of store.go, over the table `tasks`. An argument `fails` says that the statement gives an
-- error instead of running, as it does where AUTOINCREMENT has used the largest id; a row's id is one more than the
-- largest that the table has used.
use go_basics.Common.{
  ℕ, suc, Bool, true, false, ◌&&◌, ◌||◌, String, none, some, List, select, take, str_eq, leb,
  if◌then◌else◌, not,
}
use go_basics.Common.Int.{ℤ, pos, ltb_ℤ, leb_ℤ, int_beq, pos_part}
use go_basics.Common.Dict.{Dict, int_comparable, lookup, insert, erase}
use go_basics.Common.Sorting.{sorted}
use go_basics.Repository.{
  Task, Result, ok, err, task_not_found, invalid_task, database, TaskFilter, TaskRepository,
}

pub record Table : Type 0 where
  pub rows : Dict ℤ Task
  pub last_id : ℕ

-- Whether the title and the priority are refused.
unfoldable pub is_refused : String → ℤ → Bool
is_refused title priority = str_eq title "" || (ltb_ℤ priority (pos 1) || ltb_ℤ (pos 5) priority)

unfoldable pub create : Bool → ℕ → String → ℤ → Table → Result (ℤ × Task) × Table
unfolding is_refused
create fails now title priority t =
    if is_refused title priority
    then (err invalid_task, t)
    else if fails
    then (err database, t)
    else (let task : Task = record {
      title = title;
      done = false;
      priority = priority;
      created_at = now;
    } in
        let id = pos (suc t.last_id) in
        (ok (id, task), record { rows = insert id task t.rows; last_id = suc t.last_id }))

unfoldable pub get_by_id : Bool → ℤ → Table → Result Task
get_by_id fails id t =
    if fails
    then err database
    else elim (lookup id t.rows) [ none ↦ err task_not_found | some task ↦ ok task ]

abbrev pub bool_eq : Bool → Bool → Bool
bool_eq true b = b
bool_eq false b = not b

-- The conditions of the statement of `List`.
unfoldable pub matches : TaskFilter → ℤ × Task → Bool
matches f row =
    elim f.done [ none ↦ true | some d ↦ bool_eq row.1.done d ]
    && elim f.max_priority [ none ↦ true | some p ↦ leb_ℤ row.1.priority p ]

-- `ORDER BY priority ASC, created_at DESC`: whether a row may stand before another.
unfoldable pub may_precede : ℤ × Task → ℤ × Task → Bool
may_precede a b =
    ltb_ℤ a.1.priority b.1.priority
    || (int_beq a.1.priority b.1.priority && leb b.1.created_at a.1.created_at)

unfoldable pub list : Bool → TaskFilter → Table → Result (List (ℤ × Task))
unfolding matches sorted may_precede
list fails f t =
    if fails
    then err database
    else (let rows = sorted may_precede (select (matches f) t.rows) in
        ok (if ltb_ℤ (pos 0) f.limit then take (pos_part f.limit) rows else rows))

unfoldable pub set_done : Bool → ℤ → Bool → Table → Result Unit × Table
set_done fails id done t = if fails then (err database, t) else elim (lookup id t.rows) [
  | none ↦ (err task_not_found, t)
  | some task ↦ (ok tt, record t { rows = insert id (record task { done = done }) t.rows })
]

unfoldable pub delete : Bool → ℤ → Table → Result Unit × Table
delete fails id t = if fails then (err database, t) else elim (lookup id t.rows) [
  | none ↦ (err task_not_found, t)
  | some task ↦ (ok tt, record t { rows = erase id t.rows })
]

-- The repository while no statement fails.
abbrev pub sql_repository : TaskRepository Table
sql_repository = record {
  create = create false;
  get_by_id = get_by_id false;
  list = list false;
  set_done = set_done false;
  delete = delete false;
}
