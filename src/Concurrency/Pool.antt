-- ===== src/Concurrency/Pool.antt =====
-- The worker pool of 31_demo_examples/demo3_worker_pool/main.go: ten workers that share a channel of jobs and one
-- of results. What a worker does between two uses of the channels or of the context is one step.
use go_basics.Common.{
  ℕ, suc, ◌%◌, ◌≡◌, Bool, true, false, ◌&&◌, Option, none, some, List, [], ◌∷◌, ◌++◌, ◌⊎◌, ◌==◌,
  if◌then◌else◌,
}
use go_basics.Common.Int.{ℤ, pos, ◌*ℤ◌, int64, pos_part, neg_part}

-- How a job fails: by itself, or because the context has ended.
pub data Failure : Type 0 where
  simulated : ℤ → Failure
  context_ended : Failure

-- `Result`.
pub record Result : Type 0 where
  pub job_id : ℤ
  pub value : ℤ
  pub err : Option Failure

-- Whether `% 17` gives 0.
abbrev pub is_multiple : ℤ → Bool
is_multiple z = pos_part z % 17 == 0 && neg_part z % 17 == 0

-- `simulateWork` of a job, where the work ends before the context does.
unfoldable pub work_result : ℤ → Result
work_result id =
    if is_multiple id
    then record { job_id = id; value = pos 0; err = some (simulated id) }
    else record { job_id = id; value = int64 (id *ℤ pos 2); err = none }

-- `simulateWork` of a job, where the context ends first.
abbrev pub ended_result : ℤ → Result
ended_result id = record { job_id = id; value = pos 0; err = some context_ended }

-- The channels' contents, the jobs that workers are at, those whose result is not sent since the context ended, the
-- workers that are at none, and whether the context has ended. A job is its id.
pub record Pool : Type 0 where
  pub jobs : List ℤ
  pub held : List ℤ
  pub results : List Result
  pub dropped : List ℤ
  pub idle : ℕ
  pub cancelled : Bool

-- `RunJobs` when its workers start.
unfoldable pub start_pool : List ℤ → Pool
start_pool jobs = record {
  jobs = jobs;
  held = [];
  results = [];
  dropped = [];
  idle = 10;
  cancelled = false;
}

-- A step of `worker`, or the end of the context. The channel of results has room for one of each job.
pub data Step (p : Pool) : Pool → Type 0 where
  takes :
      (j : ℤ) (rest : List ℤ) (n : ℕ)
      → p.jobs ≡ j ∷ rest
      → p.idle ≡ suc n
      → Step p (record p { jobs = rest; held = j ∷ p.held; idle = n })
  sends :
      (before : List ℤ) (j : ℤ) (after : List ℤ) (r : Result)
      → p.held ≡ before ++ j ∷ after
      → (r ≡ work_result j) ⊎ ((p.cancelled ≡ true) × (r ≡ ended_result j))
      → Step p
          (record p { held = before ++ after; results = p.results ++ r ∷ []; idle = suc p.idle })
  gives_up :
      (before : List ℤ) (j : ℤ) (after : List ℤ)
      → p.held ≡ before ++ j ∷ after
      → p.cancelled ≡ true
      → Step p (record p { held = before ++ after; dropped = j ∷ p.dropped })
  returns :
      (n : ℕ)
      → p.idle ≡ suc n
      → (p.jobs ≡ []) ⊎ (p.cancelled ≡ true)
      → Step p (record p { idle = n })
  ends : Step p (record p { cancelled = true })

pub data Reached (p : Pool) : Pool → Type 0 where
  start : Reached p p
  next : {a b : Pool} → Reached p a → Step a b → Reached p b

-- The first error among the results.
unfoldable pub first_error : List Result → Option Failure
first_error [] = none
first_error (r ∷ rs) = elim r.err [ none ↦ first_error rs | some e ↦ some e ]

-- What `RunJobs` returns when all workers have.
unfoldable pub outcome : Pool → List Result × Option Failure
unfolding first_error
outcome p = (p.results, if p.cancelled then some context_ended else first_error p.results)
