-- ===== src/TaskServer.antt =====
-- 43_testing_http/api.go: a task API over a store that tests can make fail. The handlers use any `Store`;
-- MemStore is the one in memory. Reading a body or an id is the library's, and its result the request's.
pub mod MemStore
pub mod Histories
pub mod Failures
pub mod RoundTrip
mod Tests
use go_basics.Common.{ℕ, ◌≡◌, Bool, String, Option, none, some, List}
use go_basics.Common.Int.{ℤ}

-- `Task`; its id is its key.
pub record Task : Type 0 where
  pub title : String
  pub done : Bool
  pub created_at : ℕ

-- An error, as far as `errors.Is` tells it apart: `ErrNotFound`, `ErrInvalid`, or neither.
pub data Error : Type 0 where
  not_found invalid other : Error

pub data Result (A : Type 0) : Type 0 where
  ok : A → Result A
  err : Error → Result A

-- `Store`, on a state; the clock's time is an argument.
pub record Store (S : Type 0) : Type 0 where
  pub create : ℕ → String → S → Result (ℤ × Task) × S
  pub get : ℤ → S → Result Task × S
  pub list : S → Result (List (ℤ × Task)) × S
  pub delete : ℤ → S → Result Unit × S

-- What a response holds: the text of an error, or a fixed text.
pub data Body : Type 0 where
  empty : Body
  status_ok : Body
  error_text : Error → Body
  error_message : String → Body
  task : ℤ → Task → Body
  tasks : List (ℤ × Task) → Body

-- A response: its status, its body, and the id that its Location names, if it has one.
pub record Response : Type 0 where
  pub status : ℕ
  pub body : Body
  pub location : Option ℤ

-- `writeJSON`.
abbrev pub write_json : ℕ → Body → Response
write_json status body = record { status = status; body = body; location = none }

-- `writeError`.
unfoldable pub write_error : Error → Response
write_error not_found = write_json 404 (error_text not_found)
write_error invalid = write_json 400 (error_text invalid)
write_error other = write_json 500 (error_message "internal server error")

-- A request that `routes` gives a handler, with what `Decode` gives of the body and `ParseInt` of the id.
pub data Request : Type 0 where
  health : Request
  list : Request
  create : ℕ → Option String → Request
  get : Option ℤ → Request
  delete : Option ℤ → Request

module _ {S : Type 0} (store : Store S) where
  -- `handleHealth`.
  unfoldable pub handle_health : S → Response × S
  handle_health s = (write_json 200 status_ok, s)

  -- `handleList`.
  unfoldable pub handle_list : S → Response × S
  unfolding write_error
  handle_list s = elim (store.list s).0 [
    | err e ↦ (write_error e, (store.list s).1)
    | ok ts ↦ (write_json 200 (tasks ts), (store.list s).1)
  ]

  -- `handleCreate`.
  unfoldable pub handle_create : ℕ → Option String → S → Response × S
  unfolding write_error
  handle_create now none s = (write_json 400 (error_message "invalid JSON"), s)
  handle_create now (some title) s = elim (store.create now title s).0 [
    | err e ↦ (write_error e, (store.create now title s).1)
    | ok made ↦ (
      record { status = 201; body = task made.0 made.1; location = some made.0 },
      (store.create now title s).1,
    )
  ]

  -- `handleGet`, after `pathID`.
  unfoldable pub handle_get : Option ℤ → S → Response × S
  unfolding write_error
  handle_get none s = (write_json 400 (error_message "id must be an integer"), s)
  handle_get (some id) s = elim (store.get id s).0 [
    | err e ↦ (write_error e, (store.get id s).1)
    | ok t ↦ (write_json 200 (task id t), (store.get id s).1)
  ]

  -- `handleDelete`, after `pathID`.
  unfoldable pub handle_delete : Option ℤ → S → Response × S
  unfolding write_error
  handle_delete none s = (write_json 400 (error_message "id must be an integer"), s)
  handle_delete (some id) s = elim (store.delete id s).0 [
    | err e ↦ (write_error e, (store.delete id s).1)
    | ok u ↦ (write_json 204 empty, (store.delete id s).1)
  ]

  -- `routes`.
  unfoldable pub serve : Request → S → Response × S
  unfolding handle_health handle_list handle_create handle_get handle_delete
  serve health s = handle_health s
  serve list s = handle_list s
  serve (create now title) s = handle_create now title s
  serve (get id) s = handle_get id s
  serve (delete id) s = handle_delete id s
