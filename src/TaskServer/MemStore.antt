-- ===== src/TaskServer/MemStore.antt =====
-- `MemStore` of api.go. A method is one step: it takes the failure that a test has left, and else does its
-- work under the lock.
use Prim.Native.String.{len}
use go_basics.Common.{
  ℕ, false, ◌||◌, String, Option, none, some, List, [], str_eq, ltb, if◌then◌else◌,
}
use go_basics.Common.Int.{ℤ, pos, ◌+ℤ◌, int64}
use go_basics.Common.Dict.{Dict, int_comparable, lookup, insert, erase}
use go_basics.TaskServer.{Task, Error, not_found, invalid, Result, ok, err, Store}

-- Its fields; the lock is held in each step.
pub record Tasks : Type 0 where
  pub tasks : Dict ℤ Task
  pub next_id : ℤ
  pub fail_next : Option Error

-- `NewMemStore`.
abbrev pub new_mem_store : Tasks
new_mem_store = record { tasks = []; next_id = pos 1; fail_next = none }

-- `takeFailure`.
unfoldable pub take_failure : Tasks → Option Error × Tasks
take_failure s = (s.fail_next, record s { fail_next = none })

-- What every method does first.
abbrev pub unless_failing : {A : Type 0} → Tasks → (Tasks → Result A × Tasks) → Result A × Tasks
unfolding take_failure
unless_failing s body = elim (take_failure s).0 [
  | some e ↦ (err e, (take_failure s).1)
  | none ↦ body (take_failure s).1
]

-- `Create`.
unfoldable pub create : ℕ → String → Tasks → Result (ℤ × Task) × Tasks
create now title s = unless_failing s (λ s.
    if str_eq title "" || ltb 100 (len title)
    then (err invalid, s)
    else (let t : Task = record { title = title; done = false; created_at = now } in
        (
          ok (s.next_id, t),
          record s { tasks = insert s.next_id t s.tasks; next_id = int64 (s.next_id +ℤ pos 1) },
        )))

-- `Get`.
unfoldable pub get : ℤ → Tasks → Result Task × Tasks
get id s =
    unless_failing s
      (λ s. elim (lookup id s.tasks) [ none ↦ (err not_found, s) | some t ↦ (ok t, s) ])

-- `List`.
unfoldable pub list : Tasks → Result (List (ℤ × Task)) × Tasks
list s = unless_failing s (λ s. (ok s.tasks, s))

-- `Delete`.
unfoldable pub delete : ℤ → Tasks → Result Unit × Tasks
delete id s = unless_failing s (λ s. elim (lookup id s.tasks) [
  | none ↦ (err not_found, s)
  | some t ↦ (ok tt, record s { tasks = erase id s.tasks })
])

abbrev pub mem_store : Store Tasks
mem_store = record { create = create; get = get; list = list; delete = delete }
