-- ===== src/Repository/Memory.antt =====
-- `MemTaskRepo` of store.go.
use go_basics.Common.{
  ℕ, Bool, true, false, String, none, some, List, [], select, str_eq, if◌then◌else◌,
}
use go_basics.Common.Int.{ℤ, pos, ◌+ℤ◌, int64}
use go_basics.Common.Dict.{Dict, int_comparable, lookup, insert, erase}
use go_basics.Repository.{
  Task, Result, ok, err, task_not_found, invalid_task, TaskFilter, TaskRepository,
}
use go_basics.Repository.Sql.{bool_eq}

pub record MemTaskRepo : Type 0 where
  pub tasks : Dict ℤ Task
  pub next_id : ℤ

-- `NewMemTaskRepo`.
abbrev pub new_mem_task_repo : MemTaskRepo
new_mem_task_repo = record { tasks = []; next_id = pos 1 }

unfoldable pub create : ℕ → String → ℤ → MemTaskRepo → Result (ℤ × Task) × MemTaskRepo
create now title priority m =
    if str_eq title ""
    then (err invalid_task, m)
    else (let task : Task = record {
      title = title;
      done = false;
      priority = priority;
      created_at = now;
    } in
        (
          ok (m.next_id, task),
          record { tasks = insert m.next_id task m.tasks; next_id = int64 (m.next_id +ℤ pos 1) },
        ))

unfoldable pub get_by_id : ℤ → MemTaskRepo → Result Task
get_by_id id m = elim (lookup id m.tasks) [ none ↦ err task_not_found | some task ↦ ok task ]

-- The test of the loop of `List`.
unfoldable pub is_listed : TaskFilter → ℤ × Task → Bool
is_listed f row = elim f.done [ none ↦ true | some d ↦ bool_eq row.1.done d ]

unfoldable pub list : TaskFilter → MemTaskRepo → Result (List (ℤ × Task))
unfolding is_listed
list f m = ok (select (is_listed f) m.tasks)

unfoldable pub set_done : ℤ → Bool → MemTaskRepo → Result Unit × MemTaskRepo
set_done id done m = elim (lookup id m.tasks) [
  | none ↦ (err task_not_found, m)
  | some task ↦ (ok tt, record m { tasks = insert id (record task { done = done }) m.tasks })
]

unfoldable pub delete : ℤ → MemTaskRepo → Result Unit × MemTaskRepo
delete id m = elim (lookup id m.tasks) [
  | none ↦ (err task_not_found, m)
  | some task ↦ (ok tt, record m { tasks = erase id m.tasks })
]

abbrev pub mem_repository : TaskRepository MemTaskRepo
mem_repository = record {
  create = create;
  get_by_id = get_by_id;
  list = list;
  set_done = set_done;
  delete = delete;
}
