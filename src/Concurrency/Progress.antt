-- ===== src/Concurrency/Progress.antt =====
-- The worker pool comes to its end.
use go_basics.Common.{
  ℕ, zero, suc, ◌+◌, ◌*◌, ◌≤◌, ◌<◌, ◌≡◌, refl, ap, List, [], ◌∷◌, ◌++◌, ◌⊎◌, inl, inr, arith,
  length, length-append,
}
use go_basics.Common.Int.{ℤ}
use go_basics.Concurrency.Pool.{Pool, start_pool, work_result, Step, Reached}

-- What is left to do.
abbrev pub work_left : Pool → ℕ
work_left p = 3 * length p.jobs + 2 * length p.held + p.idle

-- How many steps of workers a run has.
unfoldable pub steps : {a b : Pool} → Reached a b → ℕ
steps Reached.start = 0
steps (Reached.next before (Step.takes j rest n left there)) = suc (steps before)
steps (Reached.next before (Step.sends xs j ys r at_it result)) = suc (steps before)
steps (Reached.next before (Step.gives_up xs j ys at_it ended)) = suc (steps before)
steps (Reached.next before (Step.returns n there why)) = suc (steps before)
steps (Reached.next before Step.ends) = steps before

steps-work_left : {a b : Pool} (r : Reached a b) → steps r + work_left b ≤ work_left a
unfolding steps
steps-work_left Reached.start = omega arith
steps-work_left (Reached.next before (Step.takes j rest n left there)) =
    omega (arith, steps-work_left before, ap length left, there)
steps-work_left (Reached.next before (Step.sends xs j ys r at_it result)) =
    omega (
      arith,
      steps-work_left before,
      ap length at_it,
      length-append xs (j ∷ ys),
      length-append xs ys,
    )
steps-work_left (Reached.next before (Step.gives_up xs j ys at_it ended)) =
    omega (
      arith,
      steps-work_left before,
      ap length at_it,
      length-append xs (j ∷ ys),
      length-append xs ys,
    )
steps-work_left (Reached.next before (Step.returns n there why)) =
    omega (arith, steps-work_left before, there)
steps-work_left (Reached.next before Step.ends) = steps-work_left before

-- Whether all workers have returned.
abbrev pub IsDone : Pool → Type 0
IsDone p = (p.idle ≡ 0) × (p.held ≡ [])

can_step :
    (jobs held : List ℤ) (n : ℕ) (p : Pool)
    → p.jobs ≡ jobs
    → p.held ≡ held
    → p.idle ≡ n
    → IsDone p ⊎ ((q : Pool) × Step p q × (work_left q < work_left p))
can_step jobs [] zero p left at_it there = inl (there, at_it)
can_step jobs (j ∷ after) n p left at_it there = inr (
  record p { held = after; results = p.results ++ work_result j ∷ []; idle = suc p.idle },
  Step.sends [] j after (work_result j) at_it (inl refl),
  omega (arith, ap length at_it),
)
can_step [] [] (suc n) p left at_it there =
    inr (record p { idle = n }, Step.returns n there (inl left), omega (arith, there))
can_step (j ∷ rest) [] (suc n) p left at_it there = inr (
  record p { jobs = rest; held = j ∷ p.held; idle = n },
  Step.takes j rest n left there,
  omega (arith, there, ap length left),
)

-- However the workers are scheduled and whenever the context ends, they take at most 3 steps for each job and
-- 10 more; and until all of them have returned one of them can take a step.
pub run_ends :
    (jobs : List ℤ) (p : Pool) (r : Reached (start_pool jobs) p)
    → (steps r ≤ 3 * length jobs + 10)
      × (IsDone p ⊎ ((q : Pool) × Step p q × (work_left q < work_left p)))
unfolding start_pool
run_ends jobs p r =
    (omega (arith, steps-work_left r), can_step p.jobs p.held p.idle p refl refl refl)
