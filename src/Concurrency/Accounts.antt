-- ===== src/Concurrency/Accounts.antt =====
-- Where the jobs of the worker pool are, at each step and at the end.
use go_basics.Common.{
  ℕ, ◌+◌, ◌≤◌, ◌<◌, ◌≡◌, ◌↔◌, refl, sym, ap, subst, ◌∙◌, Bool, true, false, none, some, List, [],
  ◌∷◌, ◌++◌, All, ◌⊎◌, inl, inr, arith, length, length-append, if◌then◌else◌, Option-cases,
}
use go_basics.Common.Int.{ℤ, int_beq}
use go_basics.Concurrency.Pool.{
  context_ended, Result, work_result, ended_result, Pool, start_pool, Step, Reached, first_error,
  outcome,
}

-- How often a job stands in a list.
unfoldable pub count : ℤ → List ℤ → ℕ
count j [] = 0
count j (x ∷ xs) = (if int_beq j x then 1 else 0) + count j xs

count-append : (j : ℤ) (xs ys : List ℤ) → count j (xs ++ ys) ≡ count j xs + count j ys
unfolding count
count-append j [] ys = omega arith
count-append j (x ∷ xs) ys = omega (arith, count-append j xs ys)

count-middle :
    (k j : ℤ) (xs ys : List ℤ)
    → count k (xs ++ j ∷ ys) ≡ (if int_beq k j then 1 else 0) + count k (xs ++ ys)
unfolding count
count-middle k j xs ys = omega (arith, count-append k xs (j ∷ ys), count-append k xs ys)

-- The jobs of the results.
unfoldable pub ids : List Result → List ℤ
ids [] = []
ids (r ∷ rs) = r.job_id ∷ ids rs

ids-append :
    (j : ℤ) (rs : List Result) (r : Result)
    → count j (ids (rs ++ r ∷ [])) ≡ count j (ids rs) + (if int_beq j r.job_id then 1 else 0)
unfolding ids count
ids-append j [] r = omega arith
ids-append j (s ∷ rs) r = omega (arith, ids-append j rs r)

work_result-id : (j : ℤ) → (work_result j).job_id ≡ j
unfolding work_result
work_result-id j = ground arith

-- A result is its job's, or tells that the context has ended, where it has.
abbrev pub IsHonest : Bool → Result → Type 0
IsHonest cancelled r =
    (r ≡ work_result r.job_id) ⊎ ((cancelled ≡ true) × (r ≡ ended_result r.job_id))

All-append :
    (P : Result → Type 0) (rs : List Result) (r : Result) → All P rs → P r → All P (rs ++ r ∷ [])
All-append P [] r h p = (p, tt)
All-append P (s ∷ rs) r h p = (h.0, All-append P rs r h.1 p)

All-map :
    (P Q : Result → Type 0) (rs : List Result) → ((r : Result) → P r → Q r) → All P rs → All Q rs
All-map P Q [] f h = tt
All-map P Q (r ∷ rs) f h = (f r h.0, All-map P Q rs f h.1)

-- Each job is in one place, and while the context has not ended someone is there for the jobs that are left.
pub record IsSound (jobs : List ℤ) (p : Pool) : Type 0 where
  pub accounted :
      (j : ℤ)
      → count j (ids p.results) + count j p.dropped + count j p.held + count j p.jobs ≡ count j jobs
  pub sized : length p.results + length p.dropped + length p.held + length p.jobs ≡ length jobs
  pub honest : All (IsHonest p.cancelled) p.results
  pub kept : p.cancelled ≡ false → p.dropped ≡ []
  pub staffed : p.cancelled ≡ false → 0 < length p.jobs → 0 < p.idle + length p.held

result-id :
    (cancelled : Bool) (j : ℤ) (r : Result)
    → (r ≡ work_result j) ⊎ ((cancelled ≡ true) × (r ≡ ended_result j))
    → (r.job_id ≡ j) × IsHonest cancelled r
result-id cancelled j r (inl same) =
    let id = ap (λ s. s.job_id) same ∙ work_result-id j in
    (id, inl (same ∙ ap work_result (sym id)))
result-id cancelled j r (inr (ended, same)) =
    let id = ap (λ s. s.job_id) same in (id, inr (ended, same ∙ ap ended_result (sym id)))

Step-IsSound : {jobs : List ℤ} {a b : Pool} → Step a b → IsSound jobs a → IsSound jobs b
unfolding count
Step-IsSound {a = a} (Step.takes j rest n left there) h = record {
  accounted = λ k. omega (arith, h.accounted k, ap (count k) left);
  sized = omega (arith, h.sized, ap length left);
  honest = h.honest;
  kept = h.kept;
  staffed = λ on more. omega arith;
}
Step-IsSound {a = a} (Step.sends before j after r at_it result) h =
    let (id, honest) = result-id a.cancelled j r result in
    record {
      accounted = λ k. omega (
        arith,
        h.accounted k,
        ap (count k) at_it,
        count-middle k j before after,
        ids-append k a.results r,
        ap {B = ℕ} (λ (i : ℤ). if int_beq k i then 1 else 0) id,
      );
      sized = omega (
        arith,
        h.sized,
        ap length at_it,
        length-append before (j ∷ after),
        length-append before after,
        length-append a.results (r ∷ []),
      );
      honest = All-append (IsHonest a.cancelled) a.results r h.honest honest;
      kept = h.kept;
      staffed = λ on more. omega arith;
    }
Step-IsSound {a = a} (Step.gives_up before j after at_it ended) h = record {
  accounted = λ k. omega (arith, h.accounted k, ap (count k) at_it, count-middle k j before after);
  sized = omega (
    arith,
    h.sized,
    ap length at_it,
    length-append before (j ∷ after),
    length-append before after,
  );
  honest = h.honest;
  kept = λ on. absurd (ground arith);
  staffed = λ on more. absurd (ground arith);
}
Step-IsSound {a = a} (Step.returns n there why) h = record {
  accounted = h.accounted;
  sized = h.sized;
  honest = h.honest;
  kept = h.kept;
  staffed = λ on more. elim why [
    | inl empty ↦ absurd (omega (arith, more, ap length empty))
    | inr ended ↦ absurd (ground arith)
  ];
}
Step-IsSound {a = a} Step.ends h = record {
  accounted = h.accounted;
  sized = h.sized;
  honest =
      All-map (IsHonest a.cancelled) (IsHonest true) a.results
        (λ r x. elim x [ inl same ↦ inl same | inr (ended, same) ↦ inr (refl, same) ]) h.honest;
  kept = λ on. cc;
  staffed = λ on more. cc;
}

start_pool-IsSound : (jobs : List ℤ) → IsSound jobs (start_pool jobs)
unfolding start_pool ids count
start_pool-IsSound jobs = record {
  accounted = λ j. omega arith;
  sized = omega arith;
  honest = tt;
  kept = λ on. refl;
  staffed = λ on more. omega arith;
}

Reached-IsSound : {jobs : List ℤ} {a b : Pool} → Reached a b → IsSound jobs a → IsSound jobs b
Reached-IsSound Reached.start h = h
Reached-IsSound (Reached.next before s) h = Step-IsSound s (Reached-IsSound before h)

first_error-none : (rs : List Result) → (first_error rs ≡ none) ↔ All (λ r. r.err ≡ none) rs
unfolding first_error
first_error-none [] = (λ h. tt, λ h. refl)
first_error-none (r ∷ rs) = elim (Option-cases r.err) [
  | inl fine ↦ (
    λ h. (fine, (first_error-none rs).0 (ground arith)),
    λ h. ground (arith, (first_error-none rs).1 h.1),
  )
  | inr (e, failed) ↦ (λ h. absurd (ground arith), λ h. absurd (ground (arith, h.0)))
]

-- No jobs are left where nobody is there for them.
left_over : (jobs : List ℤ) → (0 < length jobs → ⊥) → jobs ≡ []
left_over [] h = refl
left_over (j ∷ jobs) h = absurd (h (omega arith))

honest-work :
    (p : Pool)
    → p.cancelled ≡ false
    → All (IsHonest p.cancelled) p.results
    → All (λ r. r ≡ work_result r.job_id) p.results
honest-work p on h =
    All-map (IsHonest p.cancelled) (λ r. r ≡ work_result r.job_id) p.results
      (λ r x. elim x [ inl same ↦ same | inr (ended, same) ↦ absurd (ground arith) ]) h

-- When all workers have returned, however they were scheduled: no job has more results than it stands among
-- the jobs, and there are at most as many results as jobs. Where the context has not ended, each job has exactly
-- as many results as it stands there, each result is what its job's work gives, and the error is
-- none exactly where no result has one.
pub outcome_complete :
    (jobs : List ℤ) (p : Pool)
    → Reached (start_pool jobs) p
    → p.idle ≡ 0
    → p.held ≡ []
    → ((j : ℤ) → count j (ids (outcome p).0) ≤ count j jobs)
      × (length (outcome p).0 ≤ length jobs)
      × (p.cancelled ≡ false
          → ((j : ℤ) → count j (ids (outcome p).0) ≡ count j jobs)
            × All (λ r. r ≡ work_result r.job_id) (outcome p).0
            × (((outcome p).1 ≡ none) ↔ All (λ r. r.err ≡ none) (outcome p).0))
unfolding outcome count
outcome_complete jobs p run gone free =
    let h = Reached-IsSound run (start_pool-IsSound jobs) in
    (
      λ j. omega (arith, h.accounted j),
      omega (arith, h.sized),
      λ on.
          let rest : p.jobs ≡ [] =
            left_over p.jobs (λ more. omega (arith, h.staffed on more, gone, ap length free)) in
          (
            λ j. omega (
              arith,
              h.accounted j,
              ap (count j) rest,
              ap (count j) free,
              ap (count j) (h.kept on),
            ),
            honest-work p on h.honest,
            subst
                (λ b.
                  ((if b then some context_ended else first_error p.results) ≡ none)
                  ↔ All (λ r. r.err ≡ none) p.results)
                (sym on) (first_error-none p.results),
          ),
    )
