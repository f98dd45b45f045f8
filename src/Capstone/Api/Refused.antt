-- ===== src/Capstone/Api/Refused.antt =====
-- Requests to 47_capstone that are refused, and requests that are repeated.
use mathlib.Core.Path.{subst}
use go_basics.Common.{
  ℕ, ◌≡◌, refl, sym, ap, ◌∙◌, Bool, true, false, Option, none, some, ◌⊎◌, inl, inr, arith, ltb,
  Option-cases, Bool-cases,
}
use go_basics.Common.Int.{ℤ}
use go_basics.Common.Dict.{int_comparable, lookup, insert, insert_twice, lookup-insert_self}
use go_basics.Common.Text.{trim_space}
use go_basics.Common.Database.{Commit, committed, rolled_back, reply_lost}
use go_basics.Capstone.Store.{
  Task, Error, database, Result, ok, err, Patch, Tasks, is_valid, create, merged, as_new, patch,
  close, update, delete,
}
use go_basics.Capstone.Api.{
  Strconv, Request, Reply, reply, silent, error_body, write_error, write_store_error,
  CreateTaskRequest, requested, supplies_none, path_id, handle_create, handle_update, handle_delete,
}

-- A reply of success.
unfoldable pub is_success : Reply → Bool
is_success (reply status location body) = ltb status 300
is_success silent = false

Result-cases : {A : Type 0} (r : Result A) → ((a : A) × (r ≡ ok a)) ⊎ ((e : Error) × (r ≡ err e))
Result-cases (ok a) = inl (a, refl)
Result-cases (err e) = inr (e, refl)

-- The answers that do not tell whether something was changed: none, as the client is gone, and 500.
abbrev pub IsUnsure : Reply → Type 0
IsUnsure a = (a ≡ silent) ⊎ (a ≡ reply 500 none (error_body "internal server error"))

-- An answer of no success means that nothing was changed, unless what changes the table was kept and ended in an
-- error, and then the answer is one that does not tell.
abbrev pub IsTold : Commit → Reply × Tasks → Tasks → Type 0
IsTold c answer ts =
    is_success answer.0 ≡ false → (answer.1 ≡ ts) ⊎ ((c ≡ reply_lost) × IsUnsure answer.0)

update_err :
    (b s u : Bool) (c : Commit) (id : ℤ) (now : ℕ) (p : Patch) (ts : Tasks) (e : Error)
    → (update b s u c id now p ts).0 ≡ err e
    → ((update b s u c id now p ts).1 ≡ ts) ⊎ ((c ≡ reply_lost) × (e ≡ database))
unfolding update patch close
update_err b s u committed id now p ts e h = ground arith
update_err b s u rolled_back id now p ts e h = ground arith
update_err b s u reply_lost id now p ts e h = ground arith

module _ (conv : Strconv) (ended : Bool) (ts : Tasks) where
  database-IsUnsure : IsUnsure (write_store_error ended database)
  unfolding write_store_error write_error
  database-IsUnsure = elim (Bool-cases ended) [
    | inl gone ↦ inl (ground arith)
    | inr here ↦ inr (ground arith)
  ]

  unsure : (a : Reply) → a ≡ write_store_error ended database → IsUnsure a
  unsure a same = subst IsUnsure (sym same) database-IsUnsure

  handle_create-IsTold :
      (c : Commit) (id : ℤ) (now : ℕ) (made : Option CreateTaskRequest)
      → IsTold c (handle_create conv ended c id now made ts) ts
  unfolding is_success handle_create create
  handle_create-IsTold committed id now none refused = inl refl
  handle_create-IsTold committed id now (some req) refused = inl (ground arith)
  handle_create-IsTold rolled_back id now none refused = inl refl
  handle_create-IsTold rolled_back id now (some req) refused = inl (ground arith)
  handle_create-IsTold reply_lost id now none refused = inl refl
  handle_create-IsTold reply_lost id now (some req) refused =
      elim (Bool-cases (is_valid (requested req))) [
        | inl valid ↦ inr (
          refl,
          unsure (handle_create conv ended reply_lost id now (some req) ts).0 (ground arith),
        )
        | inr not_valid ↦ inl (ground arith)
      ]

  handle_delete-IsTold : (c : Commit) (r : Request) → IsTold c (handle_delete conv ended c r ts) ts
  unfolding is_success handle_delete delete
  handle_delete-IsTold committed r refused = inl (ground arith)
  handle_delete-IsTold rolled_back r refused = inl (ground arith)
  handle_delete-IsTold reply_lost r refused = elim (Option-cases (path_id conv r)) [
    | inl missing ↦ inl (ground arith)
    | inr (id, reads) ↦
        inr (refl, unsure (handle_delete conv ended reply_lost r ts).0 (ground arith))
  ]

  handle_update-IsTold :
      (b s u : Bool) (c : Commit) (now : ℕ) (r : Request) (p : Option Patch)
      → IsTold c (handle_update conv ended b s u c now r p ts) ts
  unfolding is_success handle_update
  handle_update-IsTold b s u c now r p refused = elim (Option-cases (path_id conv r)) [
    | inl missing ↦ inl (ground arith)
    | inr (i, reads) ↦ elim (Option-cases p) [
      | inl missing ↦ inl (ground arith)
      | inr (q, decoded) ↦ elim (Bool-cases (supplies_none q)) [
        | inl empty ↦ inl (ground arith)
        | inr given ↦ elim (Result-cases (update b s u c i now q ts).0) [
          | inl (t, done) ↦ absurd (ground arith)
          | inr (e, failed) ↦ elim (update_err b s u c i now q ts e failed) [
            | inl same ↦ inl (ground arith)
            | inr (lost, other) ↦
                inr (lost, unsure (handle_update conv ended b s u c now r p ts).0 (ground arith))
          ]
        ]
      ]
    ]
  ]

  -- Where a POST, PATCH or DELETE is not answered with success, it has left the table as it was; or the database
  -- has kept its statement or its transaction and ended it in an error, and then the answer is 500, or none if
  -- the request's context has ended.
  pub refused-unchanged :
      (b s u : Bool) (c : Commit) (id : ℤ) (now : ℕ) (made : Option CreateTaskRequest) (r : Request)
      (p : Option Patch)
      → IsTold c (handle_create conv ended c id now made ts) ts
        × IsTold c (handle_update conv ended b s u c now r p ts) ts
        × IsTold c (handle_delete conv ended c r ts) ts
  refused-unchanged b s u c id now made r p = (
    handle_create-IsTold c id now made,
    handle_update-IsTold b s u c now r p,
    handle_delete-IsTold c r,
  )

field_twice {ℓ} :
    {A : Type ℓ} (o : Option A) (f : A → A) (a : A)
    → let b = elim o as (λ x. A) [ none ↦ a | some n ↦ f n ] in
      elim o as (λ x. A) [ none ↦ b | some n ↦ f n ] ≡ b
field_twice none f a = refl
field_twice (some n) f a = refl

merged_twice :
    (p : Patch) (t : Task) (now : ℕ)
    → merged p (record (merged p t) { updated_at = now }) ≡ record (merged p t) { updated_at = now }
unfolding merged
merged_twice p t now = λ i. record t {
  title = field_twice p.title trim_space t.title i;
  done = field_twice p.done (λ b. b) t.done i;
  priority = field_twice p.priority (λ n. n) t.priority i;
  tag = field_twice p.tag trim_space t.tag i;
  updated_at = now;
}

abbrev run : ℤ → ℕ → Patch → Tasks → Result Task × Tasks
run id now p ts = update false false false committed id now p ts

run_valid :
    (id : ℤ) (now : ℕ) (p : Patch) (ts : Tasks) (t : Task)
    → lookup id ts ≡ some t
    → is_valid (as_new (merged p t)) ≡ true
    → run id now p ts ≡ (
      ok (record (merged p t) { updated_at = now }),
      insert id (record (merged p t) { updated_at = now }) ts,
    )
unfolding update patch close
run_valid id now p ts t found valid = ground arith

run_unchanged :
    (id : ℤ) (now : ℕ) (p : Patch) (ts : Tasks)
    → ((t : Task) → lookup id ts ≡ some t → is_valid (as_new (merged p t)) ≡ false)
    → (run id now p ts).1 ≡ ts
unfolding update patch close
run_unchanged id now p ts refused = elim (Option-cases (lookup id ts)) [
  | inl missing ↦ ground arith
  | inr (t, found) ↦ ground (arith, refused t found)
]

run_twice :
    (id : ℤ) (now later : ℕ) (p : Patch) (ts : Tasks) (t : Task)
    → lookup id ts ≡ some t
    → is_valid (as_new (merged p t)) ≡ true
    → run id later p (insert id (record (merged p t) { updated_at = now }) ts) ≡ (
      ok (record (merged p t) { updated_at = later }),
      insert id (record (merged p t) { updated_at = later }) ts,
    )
unfolding as_new
run_twice id now later p ts t found valid =
    run_valid id later p (insert id (record (merged p t) { updated_at = now }) ts)
      (record (merged p t) { updated_at = now })
      (lookup-insert_self id (record (merged p t) { updated_at = now }) ts)
      (ap (λ m. is_valid (as_new m)) (merged_twice p t now) ∙ valid)
    ∙ ap
        (λ m. (
          ok (record m { updated_at = later }),
          insert id (record m { updated_at = later })
              (insert id (record (merged p t) { updated_at = now }) ts),
        ))
        (merged_twice p t now)
    ∙ ap (λ l. (ok (record (merged p t) { updated_at = later }), l))
        (insert_twice id (record (merged p t) { updated_at = later })
          (record (merged p t) { updated_at = now }) ts)

-- A PATCH that is repeated does nothing more than if it had been sent the second time alone, where the
-- database does not fail: the answer and the table are the same.
pub update_twice :
    (id : ℤ) (now later : ℕ) (p : Patch) (ts : Tasks)
    → update false false false committed id later p
        (update false false false committed id now p ts).1
      ≡ update false false false committed id later p ts
update_twice id now later p ts = elim (Option-cases (lookup id ts)) [
  | inl missing ↦ ap (run id later p) (run_unchanged id now p ts (λ t found. absurd (ground arith)))
  | inr (t, found) ↦ elim (Bool-cases (is_valid (as_new (merged p t)))) [
    | inl valid ↦
        ap (λ m. run id later p m.1) (run_valid id now p ts t found valid)
        ∙ run_twice id now later p ts t found valid
        ∙ sym (run_valid id later p ts t found valid)
    | inr refused ↦ ap (run id later p) (run_unchanged id now p ts (λ u other. ground arith))
  ]
]
