-- ===== src/Repository/Tests.antt =====
-- Runs of 37_migrations_and_repository, and the theorems at concrete inputs.
use go_basics.Common.{◌≡◌, refl, true, false, some, none, List, [], ◌∷◌, arith}
use go_basics.Common.Int.{ℤ, pos}
use go_basics.Common.Dict.{lookup, int_comparable}
use go_basics.Repository.{Task, ok, TaskFilter}
use go_basics.Repository.Sql.{Table, sql_repository, matches, may_precede}
use go_basics.Repository.Sql
use go_basics.Repository.Memory.{MemTaskRepo, new_mem_task_repo, mem_repository}
use go_basics.Repository.Memory
use go_basics.Repository.Agreement.{Op, replies, IsSame, replies-IsSame}
use go_basics.Repository.Contract.{MemRoom, mem_repository-IsRepository}
use go_basics.Repository.Demo.{demo, demo-marks}

abbrev empty : Table
empty = record { rows = []; last_id = 0 }

abbrev some_ops : List Op
some_ops =
    Op.create 5 "ship it" (pos 3)
    ∷ Op.set_done (pos 1) true
    ∷ Op.get_by_id (pos 1)
    ∷ Op.delete (pos 1)
    ∷ Op.delete (pos 1)
    ∷ []

IsSame-at_first : IsSame empty new_mem_task_repo
IsSame-at_first = record { stored = refl; numbered = refl }

replies-IsSame_example :
    replies sql_repository some_ops empty ≡ replies mem_repository some_ops new_mem_task_repo
replies-IsSame_example =
    replies-IsSame some_ops empty new_mem_task_repo (omega arith) (omega arith) IsSame-at_first

abbrev ship : Task
ship = record { title = "ship it"; done = false; priority = pos 3; created_at = 5 }

abbrev fix : Task
fix = record { title = "fix it"; done = false; priority = pos 1; created_at = 6 }

abbrev pending : TaskFilter
pending = record { done = some false; max_priority = none; limit = pos 1 }

abbrev two_rows : Table
two_rows = record { rows = (pos 1, ship) ∷ (pos 2, fix) ∷ []; last_id = 2 }

most_urgent : Sql.list false pending two_rows ≡ ok ((pos 2, fix) ∷ [])
unfolding Sql.list
most_urgent = refl

abbrev one_task : MemTaskRepo
one_task = record { tasks = (pos 1, ship) ∷ []; next_id = pos 2 }

one_task-get : Memory.get_by_id (pos 1) one_task ≡ ok ship
unfolding Memory.get_by_id lookup
one_task-get = refl

one_task-MemRoom : MemRoom 3 one_task
unfolding lookup
one_task-MemRoom = (1, refl, omega arith, λ i later. ground arith)

demo-marks_example :
    (rows : List (ℤ × Task)) × (s' : MemTaskRepo) × (demo mem_repository 1 2 3 4 one_task
      ≡ (ok rows, s'))
    × (Memory.get_by_id (pos 1) s' ≡ ok (record ship { done = true }))
demo-marks_example =
    demo-marks mem_repository MemRoom mem_repository-IsRepository 1 2 3 4 ship one_task
      one_task-MemRoom one_task-get
