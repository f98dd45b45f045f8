-- ===== src/TaskServer/RoundTrip.antt =====
-- A task that the API of api.go creates is read back.
use go_basics.Common.{
  ℕ, suc, ◌+◌, ◌-◌, ◌^◌, ◌≤◌, ◌≡◌, ap, ◌∙◌, false, String, none, some, List, All, arith, eq_iff,
  length,
}
use go_basics.Common.Int.{ℤ, pos, ◌+ℤ◌, int64, int64_next}
use go_basics.Common.Dict.{int_comparable, lookup, insert, lookup-insert_self}
use go_basics.TaskServer.{Task, Request, Body, write_json, serve, handle_create, handle_get}
use go_basics.TaskServer.MemStore.{Tasks, create, get, take_failure, mem_store}
use go_basics.TaskServer.Histories.{Event, run, IsTitle, Spares, IsKept, run-IsKept}

abbrev pub made : ℕ → String → Task
made now title = record { title = title; done = false; created_at = now }

serve-create :
    (k now : ℕ) (title : String) (s : Tasks)
    → IsTitle title
    → s.fail_next ≡ none
    → s.next_id ≡ pos (suc k)
    → serve mem_store (Request.create now (some title)) s ≡ (
      record {
        status = 201;
        body = Body.task (pos (suc k)) (made now title);
        location = some (pos (suc k));
      },
      record {
        tasks = insert (pos (suc k)) (made now title) s.tasks;
        next_id = int64 (pos (suc k) +ℤ pos 1);
        fail_next = none;
      },
    )
unfolding serve create take_failure handle_create
serve-create k now title s (titled, short) fine next = ground (arith, eq_iff title "")

serve-get :
    (id : ℤ) (t : Task) (s : Tasks)
    → s.fail_next ≡ none
    → lookup id s.tasks ≡ some t
    → (serve mem_store (Request.get (some id)) s).0 ≡ write_json 200 (Body.task id t)
unfolding serve get take_failure handle_get
serve-get id t s fine found = ground arith

-- With no failure pending, a POST of an acceptable title is answered 201 with the task under the next id and
-- that id as its location. After any further requests other than to delete that id, and any injected
-- failures, as long as the ids stay in the range of an int64, a GET of that id with no failure pending is
-- answered 200 with the same task.
pub handle_create-handle_get :
    (k now : ℕ) (title : String) (s : Tasks) (es : List Event)
    → IsTitle title
    → s.fail_next ≡ none
    → s.next_id ≡ pos (suc k)
    → suc k + length es ≤ 2 ^ 63 - 2
    → All (Spares (pos (suc k))) es
    → ((serve mem_store (Request.create now (some title)) s).0 ≡ record {
      status = 201;
      body = Body.task (pos (suc k)) (made now title);
      location = some (pos (suc k));
    })
      × ((run es (serve mem_store (Request.create now (some title)) s).1).fail_next ≡ none
          → (serve mem_store
              (Request.get (some (pos (suc k))))
              (run es (serve mem_store (Request.create now (some title)) s).1)).0
            ≡ write_json 200 (Body.task (pos (suc k)) (made now title)))
handle_create-handle_get k now title s es acceptable fine next room spared =
    let posted = serve-create k now title s acceptable fine next in
    let kept : IsKept (length es) (pos (suc k)) (made now title) (record {
      tasks = insert (pos (suc k)) (made now title) s.tasks;
      next_id = int64 (pos (suc k) +ℤ pos 1);
      fail_next = none;
    }) =
      record {
        next = suc k;
        numbered = int64_next (suc k) (omega arith);
        room = omega arith;
        older = omega arith;
        stored = lookup-insert_self (pos (suc k)) (made now title) s.tasks;
      } in
    (
      ap (λ r. r.0) posted,
      λ ready.
          serve-get (pos (suc k)) (made now title)
            (run es (serve mem_store (Request.create now (some title)) s).1) ready
            (ap (λ r. lookup (pos (suc k)) (run es r.1).tasks) posted
              ∙ run-IsKept es (pos (suc k)) (made now title) _ spared kept),
    )
