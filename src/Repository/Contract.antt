-- ===== src/Repository/Contract.antt =====
-- What a repository of store.go promises its callers, and that both repositories keep it.
use go_basics.Common.{
  ℕ, suc, ◌+◌, ◌-◌, ◌^◌, ◌≤◌, ◌<◌, ◌≡◌, ◌≢◌, refl, ap, ◌∙◌, Bool, false, String, none, List, arith,
  eq_iff,
}
use go_basics.Common.Int.{ℤ, pos, ◌+ℤ◌, ◌≤ℤ◌, int64, int_beq_iff, int64_next}
use go_basics.Common.Dict.{int_comparable, lookup, insert, lookup-insert, lookup-insert_self}
use go_basics.Repository.{Task, ok, err, task_not_found, invalid_task, TaskFilter, TaskRepository}
use go_basics.Repository.Sql.{Table, sql_repository, is_refused}
use go_basics.Repository.Sql
use go_basics.Repository.Memory.{MemTaskRepo, mem_repository}
use go_basics.Repository.Memory

-- The contract: what a state has room for, and what the operations do to what is found.
pub record IsRepository {S : Type 0} (r : TaskRepository S) (Room : ℕ → S → Type 0) : Type 0 where
  pub create_refused :
      (now : ℕ) (priority : ℤ) (s : S) → r.create now "" priority s ≡ (err invalid_task, s)
  pub create_stores :
      (n now : ℕ) (title : String) (priority : ℤ) (s : S)
      → title ≢ ""
      → pos 1 ≤ℤ priority
      → priority ≤ℤ pos 5
      → Room (suc n) s
      → (id : ℤ) × (task : Task) × (s' : S) × (r.create now title priority s ≡ (ok (id, task), s'))
        × Room n s'
        × (r.get_by_id id s ≡ err task_not_found)
        × (r.get_by_id id s' ≡ ok task)
        × ((j : ℤ) → j ≢ id → r.get_by_id j s' ≡ r.get_by_id j s)
  pub set_done_stores :
      (id : ℤ) (done : Bool) (task : Task) (s : S)
      → r.get_by_id id s ≡ ok task
      → (s' : S) × (r.set_done id done s ≡ (ok tt, s'))
        × (r.get_by_id id s' ≡ ok (record task { done = done }))
  pub list_answers : (f : TaskFilter) (s : S) → (rows : List (ℤ × Task)) × (r.list f s ≡ ok rows)

abbrev pub MemRoom : ℕ → MemTaskRepo → Type 0
MemRoom n m =
    (k : ℕ) × (m.next_id ≡ pos (suc k))
    × (k + n ≤ 2 ^ 63 - 2)
    × ((i : ℕ) → k < i → lookup (pos i) m.tasks ≡ none)

abbrev pub SqlRoom : ℕ → Table → Type 0
SqlRoom n t = (i : ℕ) → t.last_id < i → lookup (pos i) t.rows ≡ none

mem_create :
    (n now : ℕ) (title : String) (priority : ℤ) (m : MemTaskRepo)
    → title ≢ ""
    → MemRoom (suc n) m
    → (id : ℤ) × (task : Task) × (m' : MemTaskRepo) × (Memory.create now title priority m
        ≡ (ok (id, task), m'))
      × MemRoom n m'
      × (Memory.get_by_id id m ≡ err task_not_found)
      × (Memory.get_by_id id m' ≡ ok task)
      × ((j : ℤ) → j ≢ id → Memory.get_by_id j m' ≡ Memory.get_by_id j m)
unfolding Memory.create Memory.get_by_id
mem_create n now title priority m titled (k, next, room, free) =
    let task : Task = record {
      title = title;
      done = false;
      priority = priority;
      created_at = now;
    } in
    (
      m.next_id,
      task,
      record { tasks = insert m.next_id task m.tasks; next_id = int64 (m.next_id +ℤ pos 1) },
      ground (arith, eq_iff title ""),
      (
        suc k,
        ap (λ z. int64 (z +ℤ pos 1)) next ∙ int64_next (suc k) (omega arith),
        omega arith,
        λ i later. ground (
          arith,
          lookup-insert m.next_id (pos i) task m.tasks,
          int_beq_iff m.next_id (pos i),
          free i (omega arith),
        ),
      ),
      ground (arith, free (suc k) (omega arith), ap (λ z. lookup z m.tasks) next),
      ground (arith, lookup-insert_self m.next_id task m.tasks),
      λ j other. ground (arith, lookup-insert m.next_id j task m.tasks, int_beq_iff m.next_id j),
    )

sql_create :
    (n now : ℕ) (title : String) (priority : ℤ) (t : Table)
    → title ≢ ""
    → pos 1 ≤ℤ priority
    → priority ≤ℤ pos 5
    → SqlRoom (suc n) t
    → (id : ℤ) × (task : Task) × (t' : Table) × (Sql.create false now title priority t
        ≡ (ok (id, task), t'))
      × SqlRoom n t'
      × (Sql.get_by_id false id t ≡ err task_not_found)
      × (Sql.get_by_id false id t' ≡ ok task)
      × ((j : ℤ) → j ≢ id → Sql.get_by_id false j t' ≡ Sql.get_by_id false j t)
unfolding Sql.create Sql.get_by_id is_refused
sql_create n now title priority t titled low high free =
    let task : Task = record {
      title = title;
      done = false;
      priority = priority;
      created_at = now;
    } in
    let id = pos (suc t.last_id) in
    (
      id,
      task,
      record { rows = insert id task t.rows; last_id = suc t.last_id },
      ground (arith, eq_iff title ""),
      λ i later. ground (
        arith,
        lookup-insert id (pos i) task t.rows,
        int_beq_iff id (pos i),
        free i (omega arith),
      ),
      ground (arith, free (suc t.last_id) (omega arith)),
      ground (arith, lookup-insert_self id task t.rows),
      λ j other. ground (arith, lookup-insert id j task t.rows, int_beq_iff id j),
    )

mem_set_done :
    (id : ℤ) (done : Bool) (task : Task) (m : MemTaskRepo)
    → Memory.get_by_id id m ≡ ok task
    → (m' : MemTaskRepo) × (Memory.set_done id done m ≡ (ok tt, m'))
      × (Memory.get_by_id id m' ≡ ok (record task { done = done }))
unfolding Memory.set_done Memory.get_by_id
mem_set_done id done task m found = (
  record m { tasks = insert id (record task { done = done }) m.tasks },
  ground arith,
  ground (arith, lookup-insert_self id (record task { done = done }) m.tasks),
)

sql_set_done :
    (id : ℤ) (done : Bool) (task : Task) (t : Table)
    → Sql.get_by_id false id t ≡ ok task
    → (t' : Table) × (Sql.set_done false id done t ≡ (ok tt, t'))
      × (Sql.get_by_id false id t' ≡ ok (record task { done = done }))
unfolding Sql.set_done Sql.get_by_id
sql_set_done id done task t found = (
  record t { rows = insert id (record task { done = done }) t.rows },
  ground arith,
  ground (arith, lookup-insert_self id (record task { done = done }) t.rows),
)

mem_refused :
    (now : ℕ) (priority : ℤ) (m : MemTaskRepo)
    → Memory.create now "" priority m ≡ (err invalid_task, m)
unfolding Memory.create
mem_refused now priority m = refl

sql_refused :
    (now : ℕ) (priority : ℤ) (t : Table)
    → Sql.create false now "" priority t ≡ (err invalid_task, t)
unfolding Sql.create is_refused
sql_refused now priority t = refl

mem_list :
    (f : TaskFilter) (m : MemTaskRepo) → (rows : List (ℤ × Task)) × (Memory.list f m ≡ ok rows)
unfolding Memory.list
mem_list f m = (_, refl)

sql_list : (f : TaskFilter) (t : Table) → (rows : List (ℤ × Task)) × (Sql.list false f t ≡ ok rows)
unfolding Sql.list
sql_list f t = (_, refl)

pub mem_repository-IsRepository : IsRepository mem_repository MemRoom
mem_repository-IsRepository = record {
  create_refused = mem_refused;
  create_stores =
      λ n now title priority s titled low high room. mem_create n now title priority s titled room;
  set_done_stores = mem_set_done;
  list_answers = mem_list;
}

pub sql_repository-IsRepository : IsRepository sql_repository SqlRoom
sql_repository-IsRepository = record {
  create_refused = sql_refused;
  create_stores = sql_create;
  set_done_stores = sql_set_done;
  list_answers = sql_list;
}
