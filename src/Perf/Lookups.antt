-- ===== src/Perf/Lookups.antt =====
-- Job 4 of perf.go: three ways to look a text up. The package slices sorts and searches.
use mathlib.Core.List.{Perm, Permᴰ}
use mathlib.Core.Logic.{∥∥₁_elim}
use mathlib.Core.Bool.{Bool-set}
use go_basics.Common.{
  ◌≡◌, refl, ap, ◌∙◌, Bool, true, false, ◌||◌, String, none, some, List, [], ◌∷◌, arith, str_eq,
}
use go_basics.Common.Dict.{Dict, string_comparable, lookup, insert, lookup-insert}

-- `slices.Contains`.
unfoldable pub contains : List String → String → Bool
contains [] k = false
contains (x ∷ xs) k = let rest = contains xs k in str_eq x k || rest

-- `Lookup`.
pub record Lookup : Type 0 where
  pub slice : List String
  pub set : Dict String (Unit {0})

-- The loop that fills the set.
unfoldable pub set_of : List String → Dict String (Unit {0}) → Dict String (Unit {0})
set_of [] m = m
set_of (x ∷ xs) m = set_of xs (insert x tt m)

module _ (sort : List String → List String) (binary_search : List String → String → Bool) where
  -- `NewLookup`.
  unfoldable pub new_lookup : List String → Lookup
  unfolding set_of
  new_lookup items = record { slice = sort items; set = set_of items [] }

  -- `HasLinear`.
  unfoldable pub has_linear : Lookup → String → Bool
  unfolding contains
  has_linear l s = contains l.slice s

  -- `HasBinary`.
  unfoldable pub has_binary : Lookup → String → Bool
  has_binary l s = binary_search l.slice s

  -- `HasMap`.
  unfoldable pub has_map : Lookup → String → Bool
  has_map l s = elim (lookup s l.set) [ none ↦ false | some u ↦ true ]

-- The set has what was put in and what it had.
set_of-lookup :
    (xs : List String) (m : Dict String (Unit {0})) (k : String)
    → elim (lookup k (set_of xs m)) as (λ o. Bool) [ none ↦ false | some u ↦ true ]
      ≡ (contains xs k || elim (lookup k m) as (λ o. Bool) [ none ↦ false | some u ↦ true ])
unfolding set_of contains
set_of-lookup [] m k = refl
set_of-lookup (x ∷ xs) m k =
    ground (arith, set_of-lookup xs (insert x tt m) k, lookup-insert x k tt m)

contains-Permᴰ : {xs ys : List String} → Permᴰ xs ys → (k : String) → contains xs k ≡ contains ys k
unfolding contains
contains-Permᴰ Permᴰ.nil k = refl
contains-Permᴰ (Permᴰ.cons e p) k = λ i. str_eq (e i) k || contains-Permᴰ p k i
contains-Permᴰ (Permᴰ.swap p q) k = ground (arith, ap (λ a. str_eq a k) p, ap (λ a. str_eq a k) q)
contains-Permᴰ (Permᴰ.trans p q) k = contains-Permᴰ p k ∙ contains-Permᴰ q k

contains-Perm : (xs ys : List String) → Perm xs ys → (k : String) → contains xs k ≡ contains ys k
contains-Perm xs ys p k = ∥∥₁_elim p (Bool-set _ _) (λ q. contains-Permᴰ q k)

-- Where sorting the items permutes them into a sorted list, and searching a sorted list finds what it
-- has, the three lookups give the same answer for every text: whether it is one of the items.
pub lookups_agree :
    (sort : List String → List String) (binary_search : List String → String → Bool)
    (IsSorted : List String → Type 0) (items : List String) (k : String)
    → Perm (sort items) items
    → IsSorted (sort items)
    → ((xs : List String) (j : String) → IsSorted xs → binary_search xs j ≡ contains xs j)
    → (has_linear sort binary_search (new_lookup sort binary_search items) k ≡ contains items k)
      × (has_binary sort binary_search (new_lookup sort binary_search items) k ≡ contains items k)
      × (has_map sort binary_search (new_lookup sort binary_search items) k ≡ contains items k)
unfolding has_linear has_binary has_map new_lookup lookup
lookups_agree sort binary_search IsSorted items k permuted sorted found = (
  contains-Perm (sort items) items permuted k,
  found (sort items) k sorted ∙ contains-Perm (sort items) items permuted k,
  set_of-lookup items [] k ∙ ground arith,
)
