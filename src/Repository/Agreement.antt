-- ===== src/Repository/Agreement.antt =====
-- The two repositories of store.go answer alike, as far as they do.
use go_basics.Common.{
  ℕ, suc, ◌+◌, ◌-◌, ◌^◌, ◌≤◌, ◌⊎◌, length, ◌≡◌, ◌≢◌, refl, ap, Bool, false, String, some, List, [],
  ◌∷◌, All, inl, inr, arith, eq_iff,
}
use go_basics.Common.Int.{ℤ, pos, ◌+ℤ◌, ◌≤ℤ◌, ◌<ℤ◌, int64, int64_next}
use go_basics.Common.Dict.{int_comparable, lookup, lookup-insert_self}
use go_basics.Repository.{Task, Result, ok, err, invalid_task, TaskRepository}
use go_basics.Repository.Sql.{Table, sql_repository, is_refused}
use go_basics.Repository.Sql
use go_basics.Repository.Memory.{MemTaskRepo, new_mem_task_repo, mem_repository}
use go_basics.Repository.Memory

-- What is asked of a repository, besides lists.
pub data Op : Type 0 where
  create : ℕ → String → ℤ → Op
  get_by_id : ℤ → Op
  set_done : ℤ → Bool → Op
  delete : ℤ → Op

-- What it answers.
pub data Reply : Type 0 where
  created : Result (ℤ × Task) → Reply
  got : Result Task → Reply
  done : Result Unit → Reply

module _ {S : Type 0} (r : TaskRepository S) where
  abbrev pub step : Op → S → Reply × S
  step (create now title priority) s =
      (created (r.create now title priority s).0, (r.create now title priority s).1)
  step (get_by_id id) s = (got (r.get_by_id id s), s)
  step (set_done id d) s = (done (r.set_done id d s).0, (r.set_done id d s).1)
  step (delete id) s = (done (r.delete id s).0, (r.delete id s).1)

  abbrev pub replies : List Op → S → List Reply
  replies [] s = []
  replies (o ∷ os) s = (step o s).0 ∷ replies os (step o s).1

-- A priority from 1 to 5, where a task is created.
abbrev pub IsInRange : Op → Type 0
IsInRange (create now title priority) = (pos 1 ≤ℤ priority) × (priority ≤ℤ pos 5)
IsInRange other = Unit

-- The table and the map hold the same tasks, and number the next one alike.
pub record IsSame (t : Table) (m : MemTaskRepo) : Type 0 where
  pub stored : t.rows ≡ m.tasks
  pub numbered : m.next_id ≡ pos (suc t.last_id)

abbrev Alike : Reply × Table → Reply × MemTaskRepo → Type 0
Alike a b = (a.0 ≡ b.0) × IsSame a.1 b.1

step-Alike :
    (o : Op) (t : Table) (m : MemTaskRepo)
    → IsInRange o
    → t.last_id + 2 ≤ 2 ^ 63 - 1
    → IsSame t m
    → Alike (step sql_repository o t) (step mem_repository o m)
unfolding Sql.create Sql.get_by_id Sql.set_done Sql.delete Memory.create Memory.get_by_id
    Memory.set_done Memory.delete is_refused
step-Alike (create now title priority) t m h room same = ground (
  arith,
  same.stored,
  same.numbered,
  int64_next (suc t.last_id) (omega (arith, room)),
  ap (λ n. int64 (n +ℤ pos 1)) same.numbered,
)
step-Alike (get_by_id id) t m h room same =
    ground (arith, ap (lookup id) same.stored, same.numbered)
step-Alike (set_done id d) t m h room same =
    ground (arith, ap (lookup id) same.stored, same.numbered)
step-Alike (delete id) t m h room same = ground (arith, ap (lookup id) same.stored, same.numbered)

last_id-step : (o : Op) (t : Table) → (step sql_repository o t).1.last_id ≤ t.last_id + 1
unfolding Sql.create Sql.set_done Sql.delete
last_id-step (create now title priority) t = ground arith
last_id-step (get_by_id id) t = ground arith
last_id-step (set_done id d) t = ground arith
last_id-step (delete id) t = ground arith

-- Between a table and a map with the same tasks that number alike, any history of requests besides lists
-- gets the same answers, where every created task has a priority from 1 to 5, no statement fails and the
-- ids stay in the range of an int64.
pub replies-IsSame :
    (os : List Op) (t : Table) (m : MemTaskRepo)
    → All IsInRange os
    → t.last_id + length os + 1 ≤ 2 ^ 63 - 1
    → IsSame t m
    → replies sql_repository os t ≡ replies mem_repository os m
replies-IsSame [] t m h room same = refl
replies-IsSame (o ∷ os) t m h room same =
    let (answer, after) = step-Alike o t m h.0 (omega arith) same in
    λ i.
      answer i
      ∷ replies-IsSame os (step sql_repository o t).1 (step mem_repository o m).1 h.1
          (omega (arith, last_id-step o t)) after i

-- A task with a title and any other priority is refused by the table and stored by the map.
pub create-priority :
    (now : ℕ) (title : String) (priority : ℤ) (t : Table) (m : MemTaskRepo)
    → title ≢ ""
    → (priority <ℤ pos 1) ⊎ (pos 5 <ℤ priority)
    → ((sql_repository.create now title priority t).0 ≡ err invalid_task)
      × ((task : Task) × ((mem_repository.create now title priority m).0 ≡ ok (m.next_id, task))
          × (lookup m.next_id (mem_repository.create now title priority m).1.tasks ≡ some task)
          × (task.priority ≡ priority))
unfolding Sql.create Memory.create is_refused
create-priority now title priority t m titled (inl low) =
    let task : Task = record {
      title = title;
      done = false;
      priority = priority;
      created_at = now;
    } in
    (
      ground (arith, eq_iff title ""),
      (
        task,
        ground (arith, eq_iff title ""),
        ground (arith, eq_iff title "", lookup-insert_self m.next_id task m.tasks),
        refl,
      ),
    )
create-priority now title priority t m titled (inr high) =
    let task : Task = record {
      title = title;
      done = false;
      priority = priority;
      created_at = now;
    } in
    (
      ground (arith, eq_iff title ""),
      (
        task,
        ground (arith, eq_iff title ""),
        ground (arith, eq_iff title "", lookup-insert_self m.next_id task m.tasks),
        refl,
      ),
    )
