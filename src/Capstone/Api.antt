-- ===== src/Capstone/Api.antt =====
-- 47_capstone/internal/api: the handlers of handlers.go, the helpers and routes of server.go and
-- the key check of middleware.go. Decoding a body and reading numbers are libraries' work: a body is
-- what it decodes to, if it does, and `strconv` is a parameter.
pub mod Session
pub mod Keys
pub mod Refused
use Prim.Native.String.{◌++◌}
use go_basics.Common.{
  ℕ, ◌≡◌, Bool, true, false, ◌&&◌, ◌||◌, not, String, Option, none, some, List, [], ◌∷◌, str_eq,
  if◌then◌else◌,
}
use go_basics.Common.Int.{ℤ, pos, pos_part, ltb_ℤ}
use go_basics.Common.Dict.{Dict, string_comparable, lookup}
use go_basics.Common.Text.{trim_space, trim_prefix}
use go_basics.Common.Database.{Commit}
use go_basics.Capstone.Store.{
  Task, Error, not_found, invalid, conflict, database, Result, ok, err, NewTask, Patch, Filter,
  Tasks, clamp_limit, create, get, list, update, delete,
}

-- What the handlers use of `strconv`.
pub record Strconv : Type 0 where
  pub parse_int : String → Option ℤ
  pub atoi : String → Option ℤ
  pub parse_bool : String → Option Bool
  pub format_int : ℤ → String

-- What a handler reads of a request besides its body: a header, the id in the path, the query.
pub record Request : Type 0 where
  pub authorization : String
  pub path_value : String
  pub query : Dict String String

-- What a body carries.
pub data Body : Type 0 where
  task_body : Task → Body
  list_body : List Task → ℕ → ℕ → ℕ → Body
  error_body : String → Body
  status_body : String → Body
  no_body : Body

-- What a handler writes: a status, a `Location` and a body; or nothing.
pub data Reply : Type 0 where
  reply : ℕ → Option String → Body → Reply
  silent : Reply

-- `createTaskRequest`.
pub record CreateTaskRequest : Type 0 where
  pub title : String
  pub priority : Option ℤ
  pub tag : String

-- `writeError`.
unfoldable pub write_error : ℕ → String → Reply
write_error status msg = reply status none (error_body msg)

-- `writeStoreError`, with the text of the sentinel for the text that wraps it. `ended` says that the request's context has ended and is the error's cause.
unfoldable pub write_store_error : Bool → Error → Reply
write_store_error ended not_found = write_error 404 "task not found"
write_store_error ended invalid = write_error 422 "invalid task"
write_store_error ended conflict = write_error 409 "task was modified concurrently"
write_store_error ended database = if ended then silent else write_error 500 "internal server error"

-- `pathID`, where it reads an id.
unfoldable pub path_id : Strconv → Request → Option ℤ
path_id conv r = elim (conv.parse_int r.path_value) [
  | none ↦ none
  | some id ↦ if ltb_ℤ id (pos 1) then none else some id
]

-- `r.URL.Query().Get`.
unfoldable pub query_get : String → Request → String
query_get key r = elim (lookup key r.query) [ none ↦ "" | some v ↦ v ]

-- An optional value of the query: not there, or read, or not readable.
pub data Read (A : Type 0) : Type 0 where
  value : Option A → Read A
  unreadable : Read A

-- `queryBool`.
unfoldable pub query_bool : Strconv → String → Request → Read Bool
query_bool conv key r =
    let raw = query_get key r in
    if str_eq raw ""
    then value none
    else elim (conv.parse_bool raw) [ none ↦ unreadable | some b ↦ value (some b) ]

-- `queryInt`.
unfoldable pub query_int : Strconv → String → Request → Read ℤ
query_int conv key r =
    let raw = query_get key r in
    if str_eq raw ""
    then value none
    else elim (conv.atoi (trim_space raw)) [ none ↦ unreadable | some n ↦ value (some n) ]

-- `handleReadyz`: whether the store's `List` of one row fails.
unfoldable pub handle_readyz :
    Bool → Bool → (Tasks → Tasks) → (List Task → List Task) → Tasks → Reply
handle_readyz count_fails page_fails between arrange ts =
    elim (list count_fails page_fails between arrange
      (record { done = none; tag = ""; max_prio = none; limit = pos 1; offset = pos 0 }) ts) [
        | err e ↦ write_error 503 "not ready"
        | ok rows ↦ reply 200 none (status_body "ready")
      ]

-- The new task of a body: priority 3 where it gives none.
unfoldable pub requested : CreateTaskRequest → NewTask
requested req = record {
  title = req.title;
  priority = elim req.priority [ none ↦ pos 3 | some n ↦ n ];
  tag = req.tag;
}

-- `handleCreate`, with the id that the database gives.
unfoldable pub handle_create :
    Strconv → Bool → Commit → ℤ → ℕ → Option CreateTaskRequest → Tasks → Reply × Tasks
handle_create conv ended c id now body ts = elim body [
  | none ↦ (write_error 400 "invalid request body", ts)
  | some req ↦
      let (made, ts') = create c id now (requested req) ts in
      elim made [
        | err e ↦ (write_store_error ended e, ts')
        | ok t ↦ (reply 201 (some ("/tasks/" ++ conv.format_int t.id)) (task_body t), ts')
      ]
]

-- `handleGet`.
unfoldable pub handle_get : Strconv → Bool → Bool → Request → Tasks → Reply
handle_get conv ended fails r ts = elim (path_id conv r) [
  | none ↦ write_error 400 "id must be a positive integer"
  | some id ↦ elim (get fails id ts) [
    | err e ↦ write_store_error ended e
    | ok t ↦ reply 200 none (task_body t)
  ]
]

-- The filter of `handleList` from the values it has read.
unfoldable pub filter_of : Request → Option Bool → Option ℤ → Option ℤ → Option ℤ → Filter
filter_of r done max_prio limit offset = record {
  done = done;
  tag = query_get "tag" r;
  max_prio = max_prio;
  limit = elim limit [ none ↦ pos 0 | some n ↦ n ];
  offset = elim offset [ none ↦ pos 0 | some n ↦ n ];
}

-- The end of `handleList`, from the filter on.
unfoldable pub list_page :
    Bool → Bool → Bool → (Tasks → Tasks) → (List Task → List Task) → Filter → Tasks → Reply
list_page ended count_fails page_fails between arrange f ts =
    elim (list count_fails page_fails between arrange f ts) [
      | err e ↦ write_store_error ended e
      | ok rows ↦ reply 200 none (list_body rows.0 rows.1 (clamp_limit f.limit) (pos_part f.offset))
    ]

-- `handleList`.
unfoldable pub handle_list :
    Strconv
    → Bool
    → Bool
    → Bool
    → (Tasks → Tasks)
    → (List Task → List Task)
    → Request
    → Tasks
    → Reply
handle_list conv ended count_fails page_fails between arrange r ts =
    elim (query_bool conv "done" r) [
      | unreadable ↦ write_error 400 "done must be true or false"
      | value done ↦ elim (query_int conv "max_priority" r) [
        | unreadable ↦ write_error 400 "max_priority must be an integer"
        | value max_prio ↦ elim (query_int conv "limit" r) [
          | unreadable ↦ write_error 400 "limit must be an integer"
          | value limit ↦ elim (query_int conv "offset" r) [
            | unreadable ↦ write_error 400 "offset must be an integer"
            | value offset ↦
                list_page ended count_fails page_fails between arrange
                  (filter_of r done max_prio limit offset) ts
          ]
        ]
      ]
    ]

-- Whether a patch supplies no field.
unfoldable pub supplies_none : Patch → Bool
supplies_none p =
    elim p.title [ none ↦ true | some x ↦ false ]
    && elim p.done [ none ↦ true | some x ↦ false ]
    && elim p.priority [ none ↦ true | some x ↦ false ]
    && elim p.tag [ none ↦ true | some x ↦ false ]

-- `handleUpdate`.
unfoldable pub handle_update :
    Strconv
    → Bool
    → Bool
    → Bool
    → Bool
    → Commit
    → ℕ
    → Request
    → Option Patch
    → Tasks
    → Reply × Tasks
handle_update conv ended begin_fails select_fails update_fails c now r body ts =
    elim (path_id conv r) [
      | none ↦ (write_error 400 "id must be a positive integer", ts)
      | some id ↦ elim body [
        | none ↦ (write_error 400 "invalid request body", ts)
        | some p ↦
            let (made, ts') = update begin_fails select_fails update_fails c id now p ts in
            if supplies_none p then (write_error 400 "no fields to update", ts) else elim made [
              | err e ↦ (write_store_error ended e, ts')
              | ok t ↦ (reply 200 none (task_body t), ts')
            ]
      ]
    ]

-- `handleDelete`.
unfoldable pub handle_delete : Strconv → Bool → Commit → Request → Tasks → Reply × Tasks
handle_delete conv ended c r ts = elim (path_id conv r) [
  | none ↦ (write_error 400 "id must be a positive integer", ts)
  | some id ↦
      let (made, ts') = delete c id ts in
      elim made [ err e ↦ (write_store_error ended e, ts') | ok x ↦ (reply 204 none no_body, ts') ]
]

-- `APIKeyAuth`.
unfoldable pub api_key_auth {ℓ} :
    {S : Type ℓ} → String → (Request → S → Reply × S) → Request → S → Reply × S
api_key_auth valid_key next r s =
    let key = trim_prefix "Bearer " r.authorization in
    if str_eq key "" || not (str_eq key valid_key)
    then (write_error 401 "unauthorized", s)
    else next r s
