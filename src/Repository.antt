-- ===== src/Repository.antt =====
-- 37_migrations_and_repository/store.go: the repository of tasks, over a database and in memory. Its
-- runner of migrations, migrate.go, is that of the module Migrations.
pub mod Sql
pub mod Memory
pub mod Agreement
pub mod Listing
pub mod Contract
pub mod Demo
mod Tests
use go_basics.Common.{ℕ, Bool, String, Option, List}
use go_basics.Common.Int.{ℤ}

-- `Task`; its id is its key.
pub record Task : Type 0 where
  pub title : String
  pub done : Bool
  pub priority : ℤ
  pub created_at : ℕ

-- `ErrTaskNotFound`, `ErrInvalidTask`, and what a database may answer besides.
pub data Error : Type 0 where
  task_not_found invalid_task database : Error

pub data Result (A : Type 0) : Type 0 where
  ok : A → Result A
  err : Error → Result A

-- `TaskFilter`.
pub record TaskFilter : Type 0 where
  pub done : Option Bool
  pub max_priority : Option ℤ
  pub limit : ℤ

-- `TaskRepository`, on a state. The clock's time is an argument.
pub record TaskRepository (S : Type 0) : Type 0 where
  pub create : ℕ → String → ℤ → S → Result (ℤ × Task) × S
  pub get_by_id : ℤ → S → Result Task
  pub list : TaskFilter → S → Result (List (ℤ × Task))
  pub set_done : ℤ → Bool → S → Result Unit × S
  pub delete : ℤ → S → Result Unit × S
