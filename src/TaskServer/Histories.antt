-- ===== src/TaskServer/Histories.antt =====
-- Histories of requests to the API of api.go over a MemStore, between which tests inject failures.
use Prim.Native.String.{len}
use go_basics.Common.{
  ℕ, suc, ◌+◌, ◌-◌, ◌^◌, ◌≤◌, ◌≡◌, ◌≢◌, refl, sym, ap, subst, ◌∙◌, false, String, none, some, List,
  [], ◌∷◌, All, inl, inr, arith, str_eq, eq_iff, Option-cases, Bool-cases, length, ltb,
}
use go_basics.Common.Int.{ℤ, pos, ◌+ℤ◌, ◌≤ℤ◌, int64, int64_next, int_beq_iff}
use go_basics.Common.Dict.{
  int_comparable, lookup, insert, erase, lookup-insert, lookup-erase, insert_cases, erase_cases,
}
use go_basics.TaskServer.{Task, Error, Request, serve}
use go_basics.TaskServer.MemStore.{Tasks, create, get, list, delete, take_failure, mem_store}

-- A request, or a failure that a test sets.
pub data Event : Type 0 where
  request : Request → Event
  inject : Error → Event

abbrev pub after : Event → Tasks → Tasks
after (request r) s = (serve mem_store r s).1
after (inject e) s = record s { fail_next = some e }

abbrev pub run : List Event → Tasks → Tasks
run [] s = s
run (e ∷ es) s = run es (after e s)

-- What `Create` takes.
abbrev pub IsTitle : String → Type 0
IsTitle title = (title ≢ "") × (len title ≤ 100)

abbrev pub IsSound : Tasks → Type 0
IsSound s = (id : ℤ) (t : Task) → lookup id s.tasks ≡ some t → IsTitle t.title

-- Nothing changes the tasks but a creation of an acceptable title, under the next id, and a deletion.
pub data Effect (e : Event) (s : Tasks) : Tasks → Type 0 where
  same : {s' : Tasks} → s'.tasks ≡ s.tasks → s'.next_id ≡ s.next_id → Effect e s s'
  stored :
      {s' : Tasks} (t : Task)
      → IsTitle t.title
      → s'.tasks ≡ insert s.next_id t s.tasks
      → s'.next_id ≡ int64 (s.next_id +ℤ pos 1)
      → Effect e s s'
  deleted :
      {s' : Tasks} (id : ℤ)
      → e ≡ request (Request.delete (some id))
      → s'.tasks ≡ erase id s.tasks
      → s'.next_id ≡ s.next_id
      → Effect e s s'

create-Effect :
    (e : Event) (now : ℕ) (title : String) (s : Tasks) → Effect e s (create now title s).1
unfolding create take_failure
create-Effect e now title s = elim (Option-cases s.fail_next) [
  | inr (x, failing) ↦ Effect.same (ground arith) (ground arith)
  | inl fine ↦ elim (Bool-cases (str_eq title "")) [
    | inl blank ↦ Effect.same (ground arith) (ground arith)
    | inr titled ↦ elim (Bool-cases (ltb 100 (len title))) [
      | inl long ↦ Effect.same (ground arith) (ground arith)
      | inr short ↦
          let t : Task = record { title = title; done = false; created_at = now } in
          Effect.stored t (λ none'. ground (arith, eq_iff title ""), ground arith) (ground arith)
            (ground arith)
    ]
  ]
]

delete-Effect : (id : ℤ) (s : Tasks) → Effect (request (Request.delete (some id))) s (delete id s).1
unfolding delete take_failure
delete-Effect id s = elim (Option-cases s.fail_next) [
  | inr (x, failing) ↦ Effect.same (ground arith) (ground arith)
  | inl fine ↦ elim (Option-cases (lookup id s.tasks)) [
    | inl missing ↦ Effect.same (ground arith) (ground arith)
    | inr (t, found) ↦ Effect.deleted id refl (ground arith) (ground arith)
  ]
]

get-unchanged :
    (id : ℤ) (s : Tasks) → ((get id s).1.tasks ≡ s.tasks) × ((get id s).1.next_id ≡ s.next_id)
unfolding get take_failure
get-unchanged id s = (ground arith, ground arith)

list-unchanged : (s : Tasks) → ((list s).1.tasks ≡ s.tasks) × ((list s).1.next_id ≡ s.next_id)
unfolding list take_failure
list-unchanged s = (ground arith, ground arith)

-- A handler's state is the store's.
delete-state :
    (id : ℤ) (s : Tasks) → (delete id s).1 ≡ (serve mem_store (Request.delete (some id)) s).1
unfolding serve
delete-state id s = ground arith

create-state :
    (now : ℕ) (title : String) (s : Tasks)
    → (create now title s).1 ≡ (serve mem_store (Request.create now (some title)) s).1
unfolding serve
create-state now title s = ground arith

read-state :
    (s : Tasks)
    → ((list s).1 ≡ (serve mem_store Request.list s).1)
      × ((id : ℤ) → (get id s).1 ≡ (serve mem_store (Request.get (some id)) s).1)
unfolding serve
read-state s = (ground arith, λ id. ground arith)

after-Effect : (e : Event) (s : Tasks) → Effect e s (after e s)
unfolding serve
after-Effect (inject x) s = Effect.same refl refl
after-Effect (request Request.health) s = Effect.same refl refl
after-Effect (request Request.list) s =
    subst (Effect (request Request.list) s) (read-state s).0
      (Effect.same (list-unchanged s).0 (list-unchanged s).1)
after-Effect (request (Request.create now none)) s = Effect.same refl refl
after-Effect (request (Request.create now (some title))) s =
    subst (Effect (request (Request.create now (some title))) s) (create-state now title s)
      (create-Effect (request (Request.create now (some title))) now title s)
after-Effect (request (Request.get none)) s = Effect.same refl refl
after-Effect (request (Request.get (some id))) s =
    subst (Effect (request (Request.get (some id))) s) ((read-state s).1 id)
      (Effect.same (get-unchanged id s).0 (get-unchanged id s).1)
after-Effect (request (Request.delete none)) s = Effect.same refl refl
after-Effect (request (Request.delete (some id))) s =
    subst (Effect (request (Request.delete (some id))) s) (delete-state id s) (delete-Effect id s)

Effect-IsSound : {e : Event} (s s' : Tasks) → Effect e s s' → IsSound s → IsSound s'
Effect-IsSound s s' (Effect.same kept next) h id t found =
    h id t (ap (lookup id) (sym kept) ∙ found)
Effect-IsSound s s' (Effect.stored t fine kept next) h id u found =
    elim (insert_cases s.next_id id t u s.tasks (ap (lookup id) (sym kept) ∙ found)) [
      | inl (here, same') ↦ subst (λ w. IsTitle w.title) same' fine
      | inr there ↦ h id u there
    ]
Effect-IsSound s s' (Effect.deleted gone asked kept next) h id t found =
    h id t (erase_cases gone id t s.tasks (ap (lookup id) (sym kept) ∙ found))

-- No history of requests and injected failures leaves a task with an empty title or one longer than 100
-- bytes, if there was none before.
pub run-IsSound : (es : List Event) (s : Tasks) → IsSound s → IsSound (run es s)
run-IsSound [] s h = h
run-IsSound (e ∷ es) s h =
    run-IsSound es (after e s) (Effect-IsSound s (after e s) (after-Effect e s) h)

-- A task is stored, and the next ids are larger and in range for some more requests.
pub record IsKept (n : ℕ) (id : ℤ) (t : Task) (s : Tasks) : Type 0 where
  pub next : ℕ
  pub numbered : s.next_id ≡ pos (suc next)
  pub room : next + n ≤ 2 ^ 63 - 2
  pub older : id ≤ℤ pos next
  pub stored : lookup id s.tasks ≡ some t

-- Whether an event is no request to delete that id.
abbrev pub Spares : ℤ → Event → Type 0
Spares id e = e ≢ request (Request.delete (some id))

Effect-IsKept :
    {e : Event} (n : ℕ) (id : ℤ) (t : Task) (s s' : Tasks)
    → Effect e s s'
    → Spares id e
    → IsKept (suc n) id t s
    → IsKept n id t s'
Effect-IsKept n id t s s' (Effect.same kept next) spared h = record {
  next = h.next;
  numbered = next ∙ h.numbered;
  room = omega (arith, h.room);
  older = h.older;
  stored = ap (lookup id) kept ∙ h.stored;
}
Effect-IsKept n id t s s' (Effect.stored u fine kept next) spared h = record {
  next = suc h.next;
  numbered =
      next
      ∙ ap (λ z. int64 (z +ℤ pos 1)) h.numbered
      ∙ int64_next (suc h.next) (omega (arith, h.room));
  room = omega (arith, h.room);
  older = omega (arith, h.older);
  stored =
      ap (lookup id) kept
      ∙ ground (
        arith,
        lookup-insert s.next_id id u s.tasks,
        int_beq_iff s.next_id id,
        h.numbered,
        h.older,
        h.stored,
      );
}
Effect-IsKept n id t s s' (Effect.deleted gone asked kept next) spared h = record {
  next = h.next;
  numbered = next ∙ h.numbered;
  room = omega (arith, h.room);
  older = h.older;
  stored =
      ap (lookup id) kept
      ∙ ground (
        arith,
        lookup-erase gone id s.tasks,
        int_beq_iff gone id,
        λ (same' : gone ≡ id). spared (asked ∙ ap (λ z. request (Request.delete (some z))) same'),
        h.stored,
      );
}

pub run-IsKept :
    (es : List Event) (id : ℤ) (t : Task) (s : Tasks)
    → All (Spares id) es
    → IsKept (length es) id t s
    → lookup id (run es s).tasks ≡ some t
run-IsKept [] id t s spared h = h.stored
run-IsKept (e ∷ es) id t s spared h =
    run-IsKept es id t (after e s) spared.1
      (Effect-IsKept (length es) id t s (after e s) (after-Effect e s) spared.0 h)
