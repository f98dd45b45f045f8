-- ===== src/Perf/Squares.antt =====
-- Job 2 of perf.go: building a slice with and without room reserved. What `append` reserves when the
-- room is used up is the runtime's, and a parameter.
use go_basics.Common.{
  ℕ, zero, suc, ◌+◌, ◌*◌, ◌≤◌, ◌≡◌, refl, true, Option, none, some, List, [], ◌∷◌, ◌++◌, length,
  length-append, arith, ltb, if◌then◌else◌,
}
use go_basics.Common.Int.{ℤ, pos, negsuc, int64, pos_part}

-- A slice of the integers, with how many times an array was allocated for it.
pub record Slice : Type 0 where
  pub elems : List ℤ
  pub cap : ℕ
  pub allocations : ℕ

module _ (grow : ℕ → ℕ) where
  -- The built-in `append` of one element.
  unfoldable pub append : Slice → ℤ → Slice
  append s z =
      if ltb (length s.elems) s.cap
      then record s { elems = s.elems ++ z ∷ [] }
      else record { elems = s.elems ++ z ∷ []; cap = grow s.cap; allocations = s.allocations + 1 }

  -- The loop of both functions, from an index on for some rounds.
  unfoldable pub squares_from : ℕ → ℕ → Slice → Slice
  unfolding append
  squares_from zero i out = out
  squares_from (suc n) i out = squares_from n (i + 1) (append out (int64 (pos (i * i))))

  -- `SquaresNoPrealloc`. A loop over a negative number has no rounds.
  unfoldable pub squares_no_prealloc : ℤ → Slice
  unfolding squares_from
  squares_no_prealloc n =
      squares_from (pos_part n) 0 (record { elems = []; cap = 0; allocations = 0 })

  -- `SquaresPrealloc`, if `make` does not panic.
  unfoldable pub squares_prealloc : ℤ → Option Slice
  unfolding squares_from
  squares_prealloc (pos n) =
      some (squares_from n 0 (record { elems = []; cap = n; allocations = 1 }))
  squares_prealloc (negsuc n) = none

  squares_from-elems :
      (n i : ℕ) (s t : Slice)
      → s.elems ≡ t.elems
      → (squares_from n i s).elems ≡ (squares_from n i t).elems
  unfolding squares_from append
  squares_from-elems zero i s t h = h
  squares_from-elems (suc n) i s t h =
      squares_from-elems n (i + 1) (append s (int64 (pos (i * i)))) (append t (int64 (pos (i * i))))
        (ground arith)

  squares_from-cap :
      (n i : ℕ) (s : Slice)
      → length s.elems + n ≤ s.cap
      → ((squares_from n i s).cap ≡ s.cap) × ((squares_from n i s).allocations ≡ s.allocations)
  unfolding squares_from append
  squares_from-cap zero i s h = (refl, refl)
  squares_from-cap (suc n) i s h =
      let fits : ltb (length s.elems) s.cap ≡ true = ground arith in
      let longer = length-append s.elems (int64 (pos (i * i)) ∷ []) in
      let rest = squares_from-cap n (i + 1) (append s (int64 (pos (i * i)))) (ground arith) in
      ground arith

  squares_from-allocations :
      (n i : ℕ) (s : Slice) → (squares_from n i s).allocations ≤ s.allocations + n
  unfolding squares_from append
  squares_from-allocations zero i s = omega arith
  squares_from-allocations (suc n) i s =
      let rest = squares_from-allocations n (i + 1) (append s (int64 (pos (i * i)))) in ground arith

  -- Whatever the runtime reserves: for a count of 0 or more both functions give the same numbers, the
  -- one that reserves first allocates once and ends with exactly that capacity, and the other allocates
  -- at most once for each number. For a negative count the first panics and the other gives no numbers.
  pub squares_agree :
      (n k : ℕ)
      → ((out : Slice) × (squares_prealloc (pos n) ≡ some out)
          × (out.elems ≡ (squares_no_prealloc (pos n)).elems)
          × (out.cap ≡ n)
          × (out.allocations ≡ 1)
          × ((squares_no_prealloc (pos n)).allocations ≤ n))
        × (squares_prealloc (negsuc k) ≡ none)
        × ((squares_no_prealloc (negsuc k)).elems ≡ [])
  unfolding squares_prealloc squares_no_prealloc squares_from
  squares_agree n k =
      let room =
        squares_from-cap n 0 (record { elems = []; cap = n; allocations = 1 }) (omega arith) in
      let count = squares_from-allocations n 0 (record { elems = []; cap = 0; allocations = 0 }) in
      (
        (
          squares_from n 0 (record { elems = []; cap = n; allocations = 1 }),
          refl,
          squares_from-elems n 0 (record { elems = []; cap = n; allocations = 1 })
              (record { elems = []; cap = 0; allocations = 0 }) refl,
          room.0,
          room.1,
          omega arith,
        ),
        refl,
        refl,
      )
