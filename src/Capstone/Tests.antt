-- ===== src/Capstone/Tests.antt =====
-- Runs of the store and the API of 47_capstone.
use mathlib.Core.List.{Perm}
use mathlib.Core.List.Perm
use Prim.Native.String.{◌++◌, [] as empty, ◌∷◌ as char_cons}
use go_basics.Common.{
  ℕ, zero, suc, ◌*◌, ◌≤◌, ◌≡◌, ◌≢◌, refl, ap, true, false, String, Option, none, some, List, [],
  ◌∷◌, length, arith, ◌↔◌, select, map, str_eq, if◌then◌else◌,
}
use go_basics.Common.Text.{trim_space, trim_left, trim_right, is_space}
use go_basics.Common.Int.{ℤ, pos, negsuc}
use go_basics.Common.Dict.{int_comparable}
use go_basics.Common.Database.{reply_lost, committed}
use go_basics.Common.Dict.{Dict, string_comparable, lookup as lookup_in}
use go_basics.Common.Int.{◌≤ℤ◌}
use go_basics.Capstone.Config.{
  Config, Parsers, Flags, configured, load, env_read, env_str, validate, one_of, is_level,
}
use go_basics.Common.{inl, inr}
use go_basics.Capstone.Config.Accepted.{load-default_key}
use go_basics.Capstone.Store.{
  Task, Filter, Patch, Tasks, list, matching, matches, clamp_limit, is_valid, new_task,
}
use go_basics.Capstone.Store.Pages.{page, pages, rows, reported, IsMatch, pages-all}
use go_basics.Capstone.Store.Valid.{IsSound, creates, deletes, serve_all, histories-IsSound}
use go_basics.Capstone.Api.{
  Strconv, Request, reply, task_body, write_error, api_key_auth, CreateTaskRequest, requested,
  handle_create, handle_get, handle_update, handle_delete,
}
use go_basics.Capstone.Api.Session.{id_of, at_location, create-get}
use go_basics.Capstone.Api.Refused.{refused-unchanged, IsTold}

abbrev task : ℤ → String → Task
task id title = record {
  id = id;
  title = title;
  done = false;
  priority = pos 3;
  tag = "";
  created_at = 1;
  updated_at = 1;
}

abbrev tasks : Tasks
tasks = (pos 1, task (pos 1) "a") ∷ (pos 2, task (pos 2) "b") ∷ (pos 3, task (pos 3) "c") ∷ []

abbrev every_two : Filter
every_two = record { done = none; tag = ""; max_prio = none; limit = pos 2; offset = pos 0 }

unchanged_order : (ts : List Task) → Perm ts ts
unchanged_order ts = Perm.refl ts

-- A filter that says nothing asks for every task.
all_wanted : (t : Task) → (true ≡ true) ↔ IsMatch every_two t
all_wanted t = (
  λ h. record {
    done_as = λ b e. ground arith;
    tagged = λ other. absurd (other refl);
    no_lower = λ n e. ground arith;
  },
  λ h. refl,
)

fits : reported (page (λ l. l) every_two tasks 0) ≤ 2 * clamp_limit every_two.limit
unfolding page list matching matches clamp_limit
fits = omega arith

pages-all_example :
    let asked = select (λ t. true) (map (λ p. p.1) tasks) in
    (pages (λ l. l) every_two tasks 2 ≡ asked)
    × Perm (pages (λ l. l) every_two tasks 2) asked
    × ((i : ℕ) → reported (page (λ l. l) every_two tasks i) ≡ length asked)
    × (length (pages (λ l. l) every_two tasks 2) ≡ reported (page (λ l. l) every_two tasks 0))
    × ((i : ℕ) → length (rows (page (λ l. l) every_two tasks i)) ≤ 100)
pages-all_example = pages-all (λ l. l) every_two tasks 2 (λ t. true) all_wanted unchanged_order fits

histories-IsSound_example : IsSound (
    serve_all
      (creates committed (pos 1) 5 (record { title = " x "; priority = pos 2; tag = "" })
        ∷ deletes committed (pos 2)
        ∷ [])
      [])
histories-IsSound_example = histories-IsSound (
    creates committed (pos 1) 5 (record { title = " x "; priority = pos 2; tag = "" })
    ∷ deletes committed (pos 2)
    ∷ [])

-- A number in tally marks, and a sign before it.
tally : ℕ → String
tally zero = empty
tally (suc n) = char_cons "1" (tally n)

count : String → ℕ
count empty = 0
count (char_cons c s) = suc (count s)

count-tally : (n : ℕ) → count (tally n) ≡ n
unfolding count tally
count-tally zero = refl
count-tally (suc n) = ap suc (count-tally n)

print : ℤ → String
print (pos n) = char_cons "+" (tally n)
print (negsuc n) = char_cons "-" (tally n)

read : String → Option ℤ
read empty = none
read (char_cons c s) =
    some (if str_eq (char_cons c empty) "-" then negsuc (count s) else pos (count s))

read-print : (z : ℤ) → read (print z) ≡ some z
unfolding read print
read-print (pos n) = ap (λ k. some (pos k)) (count-tally n)
read-print (negsuc n) = ap (λ k. some (negsuc k)) (count-tally n)

abbrev conv : Strconv
conv = record { parse_int = read; atoi = read; parse_bool = λ s. none; format_int = print }

abbrev body : CreateTaskRequest
body = record { title = " water the plants "; priority = none; tag = "home" }

body_valid : is_valid (requested body) ≡ true
unfolding is_valid requested trim_space trim_left trim_right is_space
body_valid = refl

other_id : id_of (deletes committed (pos 2)) ≢ pos 9
unfolding id_of
other_id h = ground arith

create-get_example :
    let made = handle_create conv false committed (pos 9) 4 (some body) tasks in
    let location = "/tasks/" ++ conv.format_int (pos 9) in
    (made.0 ≡ reply 201 (some location) (task_body (new_task (pos 9) 4 (requested body))))
    × (handle_get conv false false
          (at_location location)
          (serve_all (deletes committed (pos 2) ∷ []) made.1)
        ≡ reply 200 none (task_body (new_task (pos 9) 4 (requested body))))
create-get_example =
    create-get conv read-print (pos 9) (omega arith) 4 tasks body (deletes committed (pos 2) ∷ [])
      false body_valid (other_id, tt)

abbrev with_key : Request
with_key = record { authorization = "Bearer k"; path_value = ""; query = [] }

abbrev too_urgent : Patch
too_urgent = record { title = none; done = none; priority = some (pos 9); tag = none }

refused-unchanged_example :
    IsTold reply_lost (handle_create conv false reply_lost (pos 9) 4 (some body) tasks) tasks
    × IsTold reply_lost
        (handle_update conv false false false false reply_lost 4
          (at_location "+1")
          (some too_urgent)
          tasks)
        tasks
    × IsTold reply_lost (handle_delete conv false reply_lost (at_location "+1") tasks) tasks
refused-unchanged_example =
    refused-unchanged conv false tasks false false false reply_lost (pos 9) 4 (some body)
      (at_location "+1") (some too_urgent)

abbrev close_it : Patch
close_it = record { title = some " b "; done = some true; priority = none; tag = none }

-- An environment for production.
abbrev production : Dict String String
production = ("APP_ENV", "prod") ∷ ("APP_API_KEY", "k") ∷ []

abbrev no_flags : Flags
no_flags = record { env = none; addr = none; log_level = none; db = none }

abbrev number_parsers : Parsers
number_parsers = record { atoi = read; parse_duration = read }

abbrev accepted_config : Config
accepted_config = configured production no_flags (pos 10) (pos 5000000000) (pos 15000000000)

loads : load number_parsers production (some no_flags) ≡ some accepted_config
unfolding load configured env_read env_str validate one_of is_level lookup_in
loads = refl

abbrev with_default_key : Request
with_default_key = record { authorization = "Bearer dev-key"; path_value = ""; query = [] }

load-default_key_example :
    (accepted_config.api_key ≢ "")
    × (pos 1 ≤ℤ accepted_config.max_open_conns)
    × (api_key_auth accepted_config.api_key (λ r n. (write_error 404 "x", suc n)) with_default_key 6
        ≡ (write_error 401 "unauthorized", 6))
unfolding configured env_str lookup_in
load-default_key_example =
    load-default_key number_parsers production (some no_flags) accepted_config
      (λ r n. (write_error 404 "x", suc n)) with_default_key 6 loads refl (inr (inl refl))
