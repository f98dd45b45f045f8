-- ===== src/Common/Sorting.antt =====
-- An `ORDER BY`: rows in an order of their own, those that may stand either way in the order they had.
use mathlib.Core.List.{Permᴰ}
use mathlib.Core.List.Permᴰ.{refl as perm_refl}
use mathlib.Core.Path.{◌≡◌, refl, subst}
use mathlib.Core.Logic.{inl, inr}
use mathlib.Core.Bool.{Bool, true, false}
use mathlib.Core.List.{List, [], ◌∷◌}
use Prim.Native.Nat.{ℕ, zero, suc}
use go_basics.Common.Tests.{Bool-cases, if◌then◌else◌}
use go_basics.Common.Lists.{All, take, select}

module _ {A : Type 0} (may_precede : A → A → Bool) where
  unfoldable pub place : A → List A → List A
  place row [] = row ∷ []
  place row (r ∷ rs) =
      let rest = place row rs in if may_precede row r then row ∷ r ∷ rs else r ∷ rest

  unfoldable pub sorted : List A → List A
  unfolding place
  sorted [] = []
  sorted (row ∷ rows) = place row (sorted rows)

  -- Each row may stand before the next.
  abbrev pub IsOrdered : List A → Type 0
  IsOrdered [] = Unit
  IsOrdered (x ∷ []) = Unit
  IsOrdered (x ∷ y ∷ rest) = (may_precede x y ≡ true) × IsOrdered (y ∷ rest)

  pub take-IsOrdered : (n : ℕ) (rs : List A) → IsOrdered rs → IsOrdered (take n rs)
  take-IsOrdered zero rs h = tt
  take-IsOrdered (suc n) [] h = tt
  take-IsOrdered (suc zero) (x ∷ rs) h = tt
  take-IsOrdered (suc (suc n)) (x ∷ []) h = tt
  take-IsOrdered (suc (suc n)) (x ∷ y ∷ rs) h = (h.0, take-IsOrdered (suc n) (y ∷ rs) h.1)

  module _ (total : (a b : A) → may_precede a b ≡ false → may_precede b a ≡ true) where
    place-IsOrdered : (row : A) (rs : List A) → IsOrdered rs → IsOrdered (place row rs)
    unfolding place
    place-IsOrdered row [] h = tt
    place-IsOrdered row (r ∷ []) h = elim (Bool-cases (may_precede row r)) [
      | inl first ↦ rw first (first, tt)
      | inr later ↦ rw later (total row r later, tt)
    ]
    place-IsOrdered row (r ∷ q ∷ rs) h = elim (Bool-cases (may_precede row r)) [
      | inl first ↦ rw first (first, h)
      | inr later ↦
          let rest = place-IsOrdered row (q ∷ rs) h.1 in
          elim (Bool-cases (may_precede row q)) [
            | inl second ↦ rw later (rw second (total row r later, (second, h.1)))
            | inr third ↦
                let there : IsOrdered (q ∷ place row rs) =
                  subst (λ b. IsOrdered (if b then row ∷ q ∷ rs else q ∷ place row rs)) third
                    rest in
                rw later (rw third (h.0, there))
          ]
    ]

    pub sorted-IsOrdered : (rows : List A) → IsOrdered (sorted rows)
    unfolding sorted
    sorted-IsOrdered [] = tt
    sorted-IsOrdered (row ∷ rows) = place-IsOrdered row (sorted rows) (sorted-IsOrdered rows)

  place-Permᴰ : (row : A) (rs : List A) → Permᴰ (place row rs) (row ∷ rs)
  unfolding place
  place-Permᴰ row [] = perm_refl (row ∷ [])
  place-Permᴰ row (r ∷ rs) = elim (Bool-cases (may_precede row r)) [
    | inl first ↦ rw first (perm_refl (row ∷ r ∷ rs))
    | inr later ↦
        rw later (Permᴰ.trans (Permᴰ.cons refl (place-Permᴰ row rs)) (Permᴰ.swap refl refl))
  ]

  pub sorted-Permᴰ : (rows : List A) → Permᴰ (sorted rows) rows
  unfolding sorted
  sorted-Permᴰ [] = Permᴰ.nil
  sorted-Permᴰ (row ∷ rows) =
      Permᴰ.trans (place-Permᴰ row (sorted rows)) (Permᴰ.cons refl (sorted-Permᴰ rows))

  -- A property of the rows that survives the order.
  module _ (P : A → Type 0) where
    place-All : (row : A) (rs : List A) → P row → All P rs → All P (place row rs)
    unfolding place
    place-All row [] p h = (p, tt)
    place-All row (r ∷ rs) p h = elim (Bool-cases (may_precede row r)) [
      | inl first ↦ rw first (p, h)
      | inr later ↦ rw later (h.0, place-All row rs p h.1)
    ]

    pub sorted-All : (rows : List A) → All P rows → All P (sorted rows)
    unfolding sorted
    sorted-All [] h = tt
    sorted-All (row ∷ rows) h = place-All row (sorted rows) h.0 (sorted-All rows h.1)

pub take-All :
    {A : Type 0} (P : A → Type 0) (n : ℕ) (rows : List A) → All P rows → All P (take n rows)
take-All P zero rows h = tt
take-All P (suc n) [] h = tt
take-All P (suc n) (row ∷ rows) h = (h.0, take-All P n rows h.1)

pub select-All :
    {A : Type 0} (p : A → Bool) (rows : List A) → All (λ row. p row ≡ true) (select p rows)
select-All p [] = tt
select-All p (row ∷ rows) = elim (Bool-cases (p row)) [
  | inl passes ↦ rw passes (passes, select-All p rows)
  | inr fails ↦ rw fails (select-All p rows)
]
