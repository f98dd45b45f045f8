-- ===== src/Capstone/Store/Pages.antt =====
-- The pages of `List` in 47_capstone/internal/store/store.go.
use mathlib.Core.List.{Perm}
use mathlib.Core.Path.{subst}
use go_basics.Common.{
  ℕ, zero, suc, ◌+◌, ◌*◌, ◌≤◌, ◌≡◌, ◌≢◌, ◌↔◌, refl, Bool, true, not, Option, none, some, eq_iff,
  select, map, ◌∷◌, sym, ap, ◌∙◌, false, List, [], ◌++◌, arith, length, take, drop, length-take,
  take_all, take_add, take_at, length-Perm,
}
use go_basics.Common.Int.{ℤ, pos, ◌≤ℤ◌, leb_ℤ}
use go_basics.Capstone.Store.{
  Task, Filter, Result, ok, err, Tasks, clamp_limit, matching, matches, list,
}

-- The rows of an answer.
abbrev pub rows : Result (List Task × ℕ) → List Task
rows (ok a) = a.0
rows (err e) = []

pub clamp_limit-bounds : (n : ℤ) → (1 ≤ clamp_limit n) × (clamp_limit n ≤ 100)
unfolding clamp_limit
clamp_limit-bounds n = ground arith

-- The number of all matching rows that an answer reports.
abbrev pub reported : Result (List Task × ℕ) → ℕ
reported (ok a) = a.1
reported (err e) = 0

-- The tasks that a filter asks for.
pub record IsMatch (f : Filter) (t : Task) : Type 0 where
  pub done_as : (b : Bool) → f.done ≡ some b → t.done ≡ b
  pub tagged : f.tag ≢ "" → t.tag ≡ f.tag
  pub no_lower : (n : ℤ) → f.max_prio ≡ some n → t.priority ≤ℤ n

matches-done :
    (o : Option Bool) (b : Bool)
    → (elim o as (λ x. Bool) [ none ↦ true | some (true) ↦ b | some (false) ↦ not b ] ≡ true)
      ↔ ((c : Bool) → o ≡ some c → b ≡ c)
matches-done none b = (λ h c e. cc, λ h. refl)
matches-done (some (true)) b = (λ h c e. ground arith, λ h. h true refl)
matches-done (some (false)) b = (λ h c e. ground arith, λ h. ground (arith, h false refl))

matches-priority :
    (o : Option ℤ) (p : ℤ)
    → (elim o as (λ x. Bool) [ none ↦ true | some n ↦ leb_ℤ p n ] ≡ true)
      ↔ ((n : ℤ) → o ≡ some n → p ≤ℤ n)
matches-priority none p = (λ h c e. cc, λ h. refl)
matches-priority (some m) p = (λ h n e. ground arith, λ h. ground (arith, h m refl))

matches-IsMatch : (f : Filter) (t : Task) → (matches f t ≡ true) ↔ IsMatch f t
unfolding matches
matches-IsMatch f t =
    let d = matches-done f.done t.done in
    let p = matches-priority f.max_prio t.priority in
    (
      λ h. record {
        done_as = d.0 (ground arith);
        tagged = λ some_tag. ground (arith, eq_iff f.tag "", eq_iff t.tag f.tag);
        no_lower = p.0 (ground arith);
      },
      λ h.
          let done_fine = d.1 h.done_as in
          let priority_fine = p.1 h.no_lower in
          ground (arith, eq_iff f.tag "", eq_iff t.tag f.tag, h.tagged),
    )

same_test : (a b : Bool) → ((a ≡ true) ↔ (b ≡ true)) → a ≡ b
same_test true true h = refl
same_test true false h = sym (h.0 refl)
same_test false true h = h.1 refl
same_test false false h = refl

select-same :
    (p q : Task → Bool) (l : List Task) → ((t : Task) → p t ≡ q t) → select p l ≡ select q l
select-same p q [] h = refl
select-same p q (t ∷ l) h = ground (arith, h t, select-same p q l h)

module _ (arrange : List Task → List Task) (f : Filter) (ts : Tasks) where
  -- Page `i`, from 0.
  unfoldable pub page : ℕ → Result (List Task × ℕ)
  page i =
      list false false (λ t. t) arrange (record f { offset = pos (i * clamp_limit f.limit) }) ts

  -- The rows of the first pages, one page after another.
  unfoldable pub pages : ℕ → List Task
  pages zero = []
  pages (suc k) = pages k ++ rows (page k)

  pages-take : (k : ℕ) → pages k ≡ take (k * clamp_limit f.limit) (arrange (matching f ts))
  unfolding pages page list matching matches
  pages-take zero = take_at 0 (0 * clamp_limit f.limit) (arrange (matching f ts)) (grind arith)
  pages-take (suc k) =
      ap
        (λ l.
          l
          ++ take (clamp_limit f.limit) (drop (k * clamp_limit f.limit) (arrange (matching f ts))))
        (pages-take k)
      ∙ take_add (k * clamp_limit f.limit) (clamp_limit f.limit) (arrange (matching f ts))
      ∙ take_at (k * clamp_limit f.limit + clamp_limit f.limit) (suc k * clamp_limit f.limit)
          (arrange (matching f ts)) (grind arith)

  length-page : (i : ℕ) → length (rows (page i)) ≤ 100
  unfolding page list matching matches
  length-page i = omega (
    arith,
    clamp_limit-bounds f.limit,
    length-take (clamp_limit f.limit) (drop (i * clamp_limit f.limit) (arrange (matching f ts))),
  )

  reported-page : (i : ℕ) → reported (page i) ≡ length (matching f ts)
  unfolding page list matching matches
  reported-page i = refl

  pages-matching :
      (k : ℕ)
      → ((ts' : List Task) → Perm (arrange ts') ts')
      → length (matching f ts) ≤ k * clamp_limit f.limit
      → pages k ≡ arrange (matching f ts)
  pages-matching k perm enough =
      pages-take k
      ∙ take_all (k * clamp_limit f.limit) (arrange (matching f ts))
          (omega (arith, length-Perm (perm (matching f ts)), enough))

  matching-wanted :
      (wanted : Task → Bool)
      → ((t : Task) → (wanted t ≡ true) ↔ IsMatch f t)
      → matching f ts ≡ select wanted (map (λ p. p.1) ts)
  unfolding matching
  matching-wanted wanted decides = select-same (matches f) wanted (map (λ p. p.1) ts) (λ t.
      let m = matches-IsMatch f t in
      let w = decides t in same_test (matches f t) (wanted t) (λ h. w.1 (m.0 h), λ h. m.1 (w.0 h)))

  -- If nothing fails or changes meanwhile, and the database puts the rows into one order, whatever test tells the
  -- tasks that the filter asks for, which are done or not, have its tag and a priority up to its largest as far as
  -- it says so: each page reports how many rows of the table pass the test, and has at most 100 rows. Once there
  -- are pages for the number that the first reports, they are, one after another, the rows that pass the test in
  -- that order, none of them twice and none left out, and so many as each page reports.
  pub pages-all :
      (k : ℕ) (wanted : Task → Bool)
      → ((t : Task) → (wanted t ≡ true) ↔ IsMatch f t)
      → ((ts' : List Task) → Perm (arrange ts') ts')
      → reported (page 0) ≤ k * clamp_limit f.limit
      → let asked = select wanted (map (λ p. p.1) ts) in
        (pages k ≡ arrange asked)
        × Perm (pages k) asked
        × ((i : ℕ) → reported (page i) ≡ length asked)
        × (length (pages k) ≡ reported (page 0))
        × ((i : ℕ) → length (rows (page i)) ≤ 100)
  pages-all k wanted decides perm enough =
      let same = matching-wanted wanted decides in
      let whole = pages-matching k perm (omega (arith, reported-page 0, enough)) in
      let as' = whole ∙ ap arrange same in
      let shuffled =
        subst (λ l. Perm l (select wanted (map (λ p. p.1) ts))) (sym as')
          (perm (select wanted (map (λ p. p.1) ts))) in
      (
        as',
        shuffled,
        (λ i. reported-page i ∙ ap length same),
        length-Perm shuffled ∙ sym (reported-page 0 ∙ ap length same),
        length-page,
      )
