-- ===== src/Repository/Demo.antt =====
-- A caller of the interface: `demo` of main.go in 37_migrations_and_repository.
use go_basics.Common.{
  ℕ, suc, ◌≡◌, ◌≢◌, refl, sym, ap, ◌∙◌, true, false, String, none, some, List, arith, eq_iff,
}
use go_basics.Common.Int.{ℤ, pos, ◌≤ℤ◌}
use go_basics.Repository.{Task, Result, ok, err, task_not_found, TaskRepository}
use go_basics.Repository.Contract.{IsRepository}

-- What follows a call, if it gives no error.
infixl 5 ◌>>=◌
abbrev pub ◌>>=◌ : {S A B : Type 0} → Result A × S → (A → S → Result B × S) → Result B × S
(ok a, s) >>= f = f a s
(err e, s) >>= f = (err e, s)

module _ {S : Type 0} (r : TaskRepository S) where
  -- `demo`, at the times at which it creates; the rows that it prints. Its read of the task 9999, which changes nothing
  -- and decides only whether a line is printed, is left out.
  unfoldable pub demo : ℕ → ℕ → ℕ → ℕ → S → Result (List (ℤ × Task)) × S
  demo at₁ at₂ at₃ at₄ s = r.create at₁ "write the migration runner" (pos 1) s >>= λ t₁ s₁.
      r.create at₂ "review the repository interface" (pos 2) s₁ >>= λ t₂ s₂.
      r.create at₃ "ship it" (pos 3) s₂ >>= λ t₃ s₃.
      let s₄ = (r.create at₄ "" (pos 1) s₃).1 in
      (r.get_by_id (pos 1) s₄, s₄) >>= λ t₄ s₅. r.set_done (pos 1) true s₅ >>= λ u s₆.
      (r.list (record { done = some false; max_priority = none; limit = pos 10 }) s₆, s₆)

  -- A task that is stored before a creation is found after it, as it was.
  create-keeps :
      (Room : ℕ → S → Type 0)
      → IsRepository r Room
      → (n now : ℕ) (title : String) (priority j : ℤ) (task : Task) (s : S) → title ≢ ""
      → pos 1 ≤ℤ priority
      → priority ≤ℤ pos 5
      → Room (suc n) s
      → r.get_by_id j s ≡ ok task
      → (made : ℤ × Task) × (s' : S) × (r.create now title priority s ≡ (ok made, s'))
        × Room n s'
        × (r.get_by_id j s' ≡ ok task)
  create-keeps Room h n now title priority j task s titled low high room found =
      let missing : err task_not_found ≢ ok task = λ e. cc in
      let (id, made, s', answer, room', fresh, there, frame) =
        h.create_stores n now title priority s titled low high room in
      (
        (id, made),
        s',
        answer,
        room',
        frame j (λ same. missing (sym fresh ∙ ap (λ z. r.get_by_id z s) (sym same) ∙ found))
            ∙ found,
      )

  -- Of any repository that keeps the contract, has room for three tasks and has the task with id 1, the
  -- demo ends with a list and no error, and leaves that task done and otherwise as it was.
  pub demo-marks :
      (Room : ℕ → S → Type 0)
      → IsRepository r Room
      → (at₁ at₂ at₃ at₄ : ℕ) (task : Task) (s : S) → Room 3 s
      → r.get_by_id (pos 1) s ≡ ok task
      → (rows : List (ℤ × Task)) × (s' : S) × (demo at₁ at₂ at₃ at₄ s ≡ (ok rows, s'))
        × (r.get_by_id (pos 1) s' ≡ ok (record task { done = true }))
  unfolding demo
  demo-marks Room h at₁ at₂ at₃ at₄ task s room found =
      let (m₁, s₁, e₁, room₁, f₁) =
        create-keeps Room h 2 at₁ "write the migration runner" (pos 1) (pos 1) task s
          (λ e. ground (arith, eq_iff "write the migration runner" "")) (omega arith) (omega arith)
          room found in
      let (m₂, s₂, e₂, room₂, f₂) =
        create-keeps Room h 1 at₂ "review the repository interface" (pos 2) (pos 1) task s₁
          (λ e. ground (arith, eq_iff "review the repository interface" "")) (omega arith)
          (omega arith) room₁ f₁ in
      let (m₃, s₃, e₃, room₃, f₃) =
        create-keeps Room h 0 at₃ "ship it" (pos 3) (pos 1) task s₂
          (λ e. ground (arith, eq_iff "ship it" "")) (omega arith) (omega arith) room₂ f₂ in
      let (s₄, e₄, f₄) = h.set_done_stores (pos 1) true task s₃ f₃ in
      let (rows, e₅) =
        h.list_answers (record { done = some false; max_priority = none; limit = pos 10 }) s₄ in
      let refused = h.create_refused at₄ (pos 1) s₃ in
      (rows, s₄, rw (e₁, e₂, e₃, refused, f₃, e₄, e₅) refl, f₄)
