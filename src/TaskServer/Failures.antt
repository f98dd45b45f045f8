-- ===== src/TaskServer/Failures.antt =====
-- What a failure that a test injects does to the API of api.go.
use mathlib.Core.Path.{subst}
use go_basics.Common.{
  ◌≡◌, refl, sym, ap, ◌∙◌, Bool, true, false, none, some, List, [], ◌∷◌, All, arith,
}
use go_basics.Common.Dict.{int_comparable}
use go_basics.TaskServer.{
  Error, not_found, invalid, other, Request, Response, error_text, error_message, write_error,
  serve,
}
use go_basics.TaskServer.MemStore.{Tasks, create, get, list, delete, take_failure, mem_store}

-- Whether a request comes to a method of the store.
abbrev pub reaches_store : Request → Bool
reaches_store Request.health = false
reaches_store Request.list = true
reaches_store (Request.create now none) = false
reaches_store (Request.create now (some title)) = true
reaches_store (Request.get none) = false
reaches_store (Request.get (some id)) = true
reaches_store (Request.delete none) = false
reaches_store (Request.delete (some id)) = true

-- The answer to a failure, by its kind.
abbrev pub IsFailure : Error → Response → Type 0
IsFailure not_found a = (a.status ≡ 404) × (a.body ≡ error_text not_found) × (a.location ≡ none)
IsFailure invalid a = (a.status ≡ 400) × (a.body ≡ error_text invalid) × (a.location ≡ none)
IsFailure other a =
    (a.status ≡ 500) × (a.body ≡ error_message "internal server error") × (a.location ≡ none)

write_error-IsFailure : (e : Error) → IsFailure e (write_error e)
unfolding write_error
write_error-IsFailure not_found = (refl, refl, refl)
write_error-IsFailure invalid = (refl, refl, refl)
write_error-IsFailure other = (refl, refl, refl)

-- Requests, one after another.
abbrev pub serve_all : List Request → Tasks → List Response × Tasks
serve_all [] s = ([], s)
serve_all (r ∷ rs) s =
    let (a, s') = serve mem_store r s in let (as', s'') = serve_all rs s' in (a ∷ as', s'')

failing-serve :
    (r : Request) (e : Error) (s : Tasks)
    → s.fail_next ≡ some e
    → reaches_store r ≡ true
    → serve mem_store r s ≡ (write_error e, record s { fail_next = none })
unfolding serve create get list delete take_failure
failing-serve Request.health e s h r = cc
failing-serve Request.list e s h r = ground arith
failing-serve (Request.create now none) e s h r = cc
failing-serve (Request.create now (some title)) e s h r = ground arith
failing-serve (Request.get none) e s h r = cc
failing-serve (Request.get (some id)) e s h r = ground arith
failing-serve (Request.delete none) e s h r = cc
failing-serve (Request.delete (some id)) e s h r = ground arith

passing-serve :
    (r : Request) (s s' : Tasks)
    → reaches_store r ≡ false
    → serve mem_store r s ≡ ((serve mem_store r s').0, s)
unfolding serve create get list delete take_failure
passing-serve Request.health s s' r = refl
passing-serve Request.list s s' r = cc
passing-serve (Request.create now none) s s' r = refl
passing-serve (Request.create now (some title)) s s' r = cc
passing-serve (Request.get none) s s' r = refl
passing-serve (Request.get (some id)) s s' r = cc
passing-serve (Request.delete none) s s' r = refl
passing-serve (Request.delete (some id)) s s' r = cc

passing-serve_all :
    (rs : List Request) (s s' : Tasks)
    → All (λ r. reaches_store r ≡ false) rs
    → serve_all rs s ≡ ((serve_all rs s').0, s)
passing-serve_all [] s s' h = refl
passing-serve_all (r ∷ rs) s s' h = ground (
  arith,
  passing-serve r s s' h.0,
  passing-serve r s' s' h.0,
  passing-serve_all rs s s' h.1,
  passing-serve_all rs s' s' h.1,
)

-- An injected failure waits for the first request that comes to the store. The requests before it, which do not
-- come to the store, are answered as without the failure and change nothing. That request is answered 404, 400 or
-- 500 by the kind of the failure, with the failure's text or, for 500, with a text that says nothing of it; and all
-- that it changes is that the failure is gone: no task is made or deleted.
pub serve-fail_next :
    (before : List Request) (r : Request) (e : Error) (s : Tasks)
    → s.fail_next ≡ some e
    → All (λ q. reaches_store q ≡ false) before
    → reaches_store r ≡ true
    → let (answers, s') = serve_all before s in
      (answers ≡ (serve_all before (record s { fail_next = none })).0)
      × IsFailure e (serve mem_store r s').0
      × ((serve mem_store r s').1 ≡ record s { fail_next = none })
serve-fail_next before r e s h pass comes =
    let same = passing-serve_all before s (record s { fail_next = none }) pass in
    let stays : (serve_all before s).1 ≡ s = ap (λ p. p.1) same in
    let failed = ap (serve mem_store r) stays ∙ failing-serve r e s h comes in
    (
      ap (λ p. p.0) same,
      subst (IsFailure e) (sym (ap (λ p. p.0) failed)) (write_error-IsFailure e),
      ap (λ p. p.1) failed,
    )
