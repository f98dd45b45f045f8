-- ===== src/Concurrency/Tests.antt =====
-- Short runs of the queue and of the pool, and the theorems at them.
use go_basics.Common.{
  ℕ, zero, suc, ◌+◌, ◌*◌, ◌≤◌, ◌<◌, ◌≡◌, ◌↔◌, ◌⊎◌, inl, refl, false, none, List, [], ◌∷◌, All,
  length, arith,
}
use go_basics.Common.Int.{ℤ, pos}
use go_basics.Concurrency.Queue.{Queue, new_queue, IsSound, Reached-new_queue}
use go_basics.Concurrency.Queue
use go_basics.Concurrency.Pool.{Pool, start_pool, work_result, Step, Reached, outcome}
use go_basics.Concurrency.Accounts.{count, ids, outcome_complete}
use go_basics.Concurrency.Progress.{steps, IsDone, work_left, run_ends}

-- A queue of one place: a push, and a second push that goes to sleep.
abbrev crowded : Queue
crowded = record {
  items = pos 7 ∷ [];
  capacity = pos 1;
  pushers_asleep = 1;
  poppers_asleep = 0;
  pushed = pos 7 ∷ [];
  popped = [];
}

crowded-Reached : Queue.Reached (new_queue (pos 1)) crowded
unfolding new_queue
crowded-Reached =
    Queue.Reached.next
      (Queue.Reached.next Queue.Reached.start (Queue.Step.push_done (pos 7) (λ h. ground arith)))
      (Queue.Step.push_sleeps refl)

Reached-new_queue_example : IsSound 1 crowded × (0 < 1 → 0 < 1 → crowded.poppers_asleep ≡ 0)
Reached-new_queue_example = Reached-new_queue 1 crowded crowded-Reached

-- One job, done by one of ten workers while the others find nothing.
seventeen_fails : (work_result (pos 17)).value ≡ pos 0
unfolding work_result
seventeen_fails = refl

abbrev one_job : List ℤ
one_job = pos 3 ∷ []

abbrev taken : Pool
taken = record {
  jobs = [];
  held = pos 3 ∷ [];
  results = [];
  dropped = [];
  idle = 9;
  cancelled = false;
}

abbrev finished : ℕ → Pool
finished n = record {
  jobs = [];
  held = [];
  results = work_result (pos 3) ∷ [];
  dropped = [];
  idle = n;
  cancelled = false;
}

taken-Reached : Reached (start_pool one_job) taken
unfolding start_pool
taken-Reached = Reached.next Reached.start (Step.takes (pos 3) [] 9 refl refl)

all_return :
    (n : ℕ) → Reached (start_pool one_job) (finished n) → Reached (start_pool one_job) (finished 0)
all_return zero r = r
all_return (suc n) r = all_return n (Reached.next r (Step.returns n refl (inl refl)))

all_done : Reached (start_pool one_job) (finished 0)
all_done =
    all_return 10
      (Reached.next taken-Reached (Step.sends [] (pos 3) [] (work_result (pos 3)) refl (inl refl)))

outcome_complete_example :
    ((j : ℤ) → count j (ids (outcome (finished 0)).0) ≤ count j one_job)
    × (length (outcome (finished 0)).0 ≤ length one_job)
    × (false ≡ false
        → ((j : ℤ) → count j (ids (outcome (finished 0)).0) ≡ count j one_job)
          × All (λ r. r ≡ work_result r.job_id) (outcome (finished 0)).0
          × (((outcome (finished 0)).1 ≡ none) ↔ All (λ r. r.err ≡ none) (outcome (finished 0)).0))
outcome_complete_example = outcome_complete one_job (finished 0) all_done refl refl

run_ends_example :
    (steps taken-Reached ≤ 3 * length one_job + 10)
    × (IsDone taken ⊎ ((q : Pool) × Step taken q × (work_left q < work_left taken)))
run_ends_example = run_ends one_job taken taken-Reached
