-- ===== src/TaskServer/Tests.antt =====
-- Runs of 43_testing_http/api.go, and the theorems at concrete inputs.
use go_basics.Common.{◌≡◌, refl, some, none, List, [], ◌∷◌, All, arith, eq_iff}
use go_basics.Common.Int.{pos}
use go_basics.Common.Dict.{lookup, int_comparable}
use go_basics.TaskServer.{other, Request, Body, write_json, write_error, serve}
use go_basics.TaskServer.MemStore.{Tasks, new_mem_store, mem_store, get, take_failure}
use go_basics.TaskServer.Failures.{IsFailure, serve_all, serve-fail_next}
use go_basics.TaskServer.Histories.{Event, run, IsSound, IsTitle, Spares}
use go_basics.TaskServer.RoundTrip.{made, handle_create-handle_get}

abbrev failing : Tasks
failing = record new_mem_store { fail_next = some other }

leaks_nothing :
    (serve mem_store (Request.get (some (pos 1))) failing).0
    ≡ write_json 500 (Body.error_message "internal server error")
unfolding serve get take_failure write_error
leaks_nothing = refl

serve-fail_next_example :
    let (answers, s') = serve_all (Request.health ∷ []) failing in
    (answers ≡ (serve_all (Request.health ∷ []) new_mem_store).0)
    × IsFailure other (serve mem_store Request.list s').0
    × ((serve mem_store Request.list s').1 ≡ new_mem_store)
serve-fail_next_example =
    serve-fail_next (Request.health ∷ []) Request.list other failing refl (refl, tt) refl

abbrev events : List Event
events =
    Event.request (Request.create 6 (some ""))
    ∷ Event.inject other
    ∷ Event.request Request.list
    ∷ Event.request (Request.delete (some (pos 2)))
    ∷ []

empty-IsSound : IsSound new_mem_store
unfolding lookup
empty-IsSound id t found = cc

learn_go : IsTitle "learn Go"
learn_go = ((λ h. ground (arith, eq_iff "learn Go" "")), omega arith)

events-Spares : All (Spares (pos 1)) events
events-Spares = ((λ h. cc), ((λ h. cc), ((λ h. cc), ((λ h. ground arith), tt))))

handle_create-handle_get_example :
    ((serve mem_store (Request.create 5 (some "learn Go")) new_mem_store).0 ≡ record {
      status = 201;
      body = Body.task (pos 1) (made 5 "learn Go");
      location = some (pos 1);
    })
    × ((run events (serve mem_store (Request.create 5 (some "learn Go")) new_mem_store).1).fail_next
          ≡ none
        → (serve mem_store
            (Request.get (some (pos 1)))
            (run events (serve mem_store (Request.create 5 (some "learn Go")) new_mem_store).1)).0
          ≡ write_json 200 (Body.task (pos 1) (made 5 "learn Go")))
handle_create-handle_get_example =
    handle_create-handle_get 0 5 "learn Go" new_mem_store events learn_go refl refl (omega arith)
      events-Spares
