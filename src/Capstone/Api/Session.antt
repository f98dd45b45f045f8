-- ===== src/Capstone/Api/Session.antt =====
-- What one request to 47_capstone leaves for another.
use Prim.Native.String.{◌++◌}
use go_basics.Common.{
  ℕ, ◌≡◌, ◌≢◌, refl, ap, ◌∙◌, Bool, true, false, String, none, some, List, [], ◌∷◌, All, inl, inr,
  arith, Option-cases,
}
use go_basics.Common.Int.{ℤ, pos, ◌≤ℤ◌, int_beq_iff}
use go_basics.Common.Dict.{
  int_comparable, lookup, insert, erase, lookup-insert, lookup-erase, lookup-insert_self,
}
use go_basics.Common.Text.{trim_prefix, trim_prefix-append}
use go_basics.Common.Database.{Commit, committed, rolled_back, reply_lost}
use go_basics.Capstone.Store.{
  Task, Result, ok, err, Patch, Tasks, is_valid, new_task, create, get, merged, patch, close,
  update, delete,
}
use go_basics.Capstone.Store.Valid.{Request as Change, creates, updates, deletes, serve, serve_all}
use go_basics.Capstone.Api.{
  Strconv, Request, reply, task_body, CreateTaskRequest, requested, path_id, handle_create,
  handle_get,
}

-- The id that a change is about.
unfoldable pub id_of : Change → ℤ
id_of (creates c id now new) = id
id_of (updates b s u c id now p) = id
id_of (deletes c id) = id

insert_other : (i j : ℤ) (t : Task) (ts : Tasks) → i ≢ j → lookup j (insert i t ts) ≡ lookup j ts
insert_other i j t ts h = ground (arith, lookup-insert i j t ts, int_beq_iff i j)

erase_other : (i j : ℤ) (ts : Tasks) → i ≢ j → lookup j (erase i ts) ≡ lookup j ts
erase_other i j ts h = ground (arith, lookup-erase i j ts, int_beq_iff i j)

patch_other :
    (s u : Bool) (i j : ℤ) (now : ℕ) (p : Patch) (ts ts' : Tasks) (t : Task)
    → i ≢ j
    → patch s u i now p ts ≡ ok (t, ts')
    → lookup j ts' ≡ lookup j ts
unfolding patch
patch_other s u i j now p ts ts' t differ h = elim (Option-cases (lookup i ts)) [
  | inl missing ↦ absurd (ground arith)
  | inr (old, found) ↦
      ground (arith, insert_other i j (record (merged p old) { updated_at = now }) ts differ)
]

close_other :
    (c : Commit) (r : Result (Task × Tasks)) (j : ℤ) (ts : Tasks)
    → ((t : Task) (ts' : Tasks) → r ≡ ok (t, ts') → lookup j ts' ≡ lookup j ts)
    → lookup j (close c r ts).1 ≡ lookup j ts
unfolding close
close_other c (err e) j ts keeps = refl
close_other committed (ok (t, ts')) j ts keeps = keeps t ts' refl
close_other rolled_back (ok (t, ts')) j ts keeps = refl
close_other reply_lost (ok (t, ts')) j ts keeps = keeps t ts' refl

serve_other : (c : Change) (j : ℤ) (ts : Tasks) → id_of c ≢ j → lookup j (serve c ts) ≡ lookup j ts
unfolding serve id_of create update delete
serve_other (creates (committed) i now new) j ts differ =
    ground (arith, insert_other i j (new_task i now new) ts)
serve_other (creates (rolled_back) i now new) j ts differ = ground arith
serve_other (creates (reply_lost) i now new) j ts differ =
    ground (arith, insert_other i j (new_task i now new) ts)
serve_other (updates (true) s u c i now p) j ts differ = refl
serve_other (updates (false) s u c i now p) j ts differ =
    close_other c (patch s u i now p ts) j ts
      (λ t ts' h. patch_other s u i j now p ts ts' t differ h)
serve_other (deletes (committed) i) j ts differ = ground (arith, erase_other i j ts differ)
serve_other (deletes (rolled_back) i) j ts differ = refl
serve_other (deletes (reply_lost) i) j ts differ = erase_other i j ts differ

pub serve_all_other :
    (cs : List Change) (j : ℤ) (ts : Tasks)
    → All (λ c. id_of c ≢ j) cs
    → lookup j (serve_all cs ts) ≡ lookup j ts
unfolding serve_all
serve_all_other [] j ts others = refl
serve_all_other (c ∷ cs) j ts others =
    serve_all_other cs j (serve c ts) others.1 ∙ serve_other c j ts others.0

-- `FormatInt` prints what `ParseInt` reads.
abbrev pub IsStrconv : Strconv → Type 0
IsStrconv conv = (n : ℤ) → conv.parse_int (conv.format_int n) ≡ some n

-- The request for what a `Location` names.
abbrev pub at_location : String → Request
at_location l = record { authorization = ""; path_value = trim_prefix "/tasks/" l; query = [] }

handle_get_found :
    (conv : Strconv) (r : Request) (id : ℤ) (t : Task) (ts : Tasks)
    → conv.parse_int r.path_value ≡ some id
    → pos 1 ≤ℤ id
    → lookup id ts ≡ some t
    → handle_get conv false false r ts ≡ reply 200 none (task_body t)
unfolding handle_get path_id get
handle_get_found conv r id t ts reads positive found = ground arith

handle_create_valid :
    (conv : Strconv) (id : ℤ) (now : ℕ) (ts : Tasks) (body : CreateTaskRequest) (ended : Bool)
    → is_valid (requested body) ≡ true
    → handle_create conv ended committed id now (some body) ts ≡ (
      reply 201
          (some ("/tasks/" ++ conv.format_int id))
          (task_body (new_task id now (requested body))),
      insert id (new_task id now (requested body)) ts,
    )
unfolding handle_create create new_task
handle_create_valid conv id now ts body ended valid = ground arith

module _ (conv : Strconv) (prints : IsStrconv conv) (id : ℤ) (positive : pos 1 ≤ℤ id) (now : ℕ)
    (ts : Tasks) where
  location_path :
      (conv.parse_int (at_location ("/tasks/" ++ conv.format_int id)).path_value) ≡ some id
  location_path = ap conv.parse_int (trim_prefix-append "/tasks/" (conv.format_int id)) ∙ prints id

  -- With a strconv that reads what it prints, and an id of 1 or more from the database: a valid new
  -- task is answered 201 with its task and a location, if the database does not fail; and after any
  -- requests about other ids, whatever fails in them, GET of that location answers the same task, if
  -- its query does not fail.
  pub create-get :
      (body : CreateTaskRequest) (cs : List Change) (ended : Bool)
      → is_valid (requested body) ≡ true
      → All (λ c. id_of c ≢ id) cs
      → let made = handle_create conv ended committed id now (some body) ts in
        let location = "/tasks/" ++ conv.format_int id in
        (made.0 ≡ reply 201 (some location) (task_body (new_task id now (requested body))))
        × (handle_get conv false false (at_location location) (serve_all cs made.1)
            ≡ reply 200 none (task_body (new_task id now (requested body))))
  create-get body cs ended valid others =
      let made = handle_create_valid conv id now ts body ended valid in
      (
        ap (λ m. m.0) made,
        handle_get_found conv (at_location ("/tasks/" ++ conv.format_int id)) id
            (new_task id now (requested body))
            (serve_all cs (handle_create conv ended committed id now (some body) ts).1)
            location_path positive
            (serve_all_other cs id (handle_create conv ended committed id now (some body) ts).1
                others
              ∙ ap (λ m. lookup id m.1) made
              ∙ lookup-insert_self id (new_task id now (requested body)) ts),
      )
