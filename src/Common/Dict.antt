-- ===== src/Common/Dict.antt =====
-- A Go map as an association list. No modelled code depends on the order of a map's keys.
use Prim.Native.Nat.{ℕ, suc}
use Prim.Native.String.{String}
use mathlib.Core.Path.{◌≡◌, refl}
use mathlib.Core.Logic.{◌↔◌, ◌⊎◌, inl, inr}
use mathlib.Core.Bool.{Bool, true}
use mathlib.Core.Option.{Option, none, some}
use mathlib.Core.List.{List, [], ◌∷◌}
use native.Mathlib.Omega.{arith}
use text.Mathlib.Text.{◌==◌ as str_eq}
use text.Mathlib.TextEquality.{eq_iff}
use go_basics.Common.Tests.{Bool-cases, if◌then◌else◌, ◌==◌ as nat_eq, ==_iff}
use go_basics.Common.Lists.{length}
use go_basics.Common.Int.{ℤ, int_beq, int_beq_iff}

-- A comparable type, as Go's map keys are.
pub record Comparable {ℓ} (K : Type ℓ) : Type ℓ where
  pub beq : K → K → Bool
  pub beq_iff : (a b : K) → (beq a b ≡ true) ↔ (a ≡ b)

instance abbrev pub string_comparable : Comparable String
string_comparable = record { beq = str_eq; beq_iff = eq_iff }

instance abbrev pub nat_comparable : Comparable ℕ
nat_comparable = record { beq = nat_eq; beq_iff = ==_iff }

instance abbrev pub int_comparable : Comparable ℤ
int_comparable = record { beq = int_beq; beq_iff = int_beq_iff }

abbrev pub Dict {ℓ κ} : Type ℓ → Type κ → Type (ℓ ⊔ κ)
Dict K V = List (K × V)

module _ {ℓ κ} {K : Type ℓ} {V : Type κ} ⦃c : Comparable K⦄ where
  unfoldable pub lookup : K → Dict K V → Option V
  lookup k [] = none
  lookup k ((j, v) ∷ m) = if c.beq j k then some v else lookup k m

  unfoldable pub insert : K → V → Dict K V → Dict K V
  insert k v [] = (k, v) ∷ []
  insert k v ((j, w) ∷ m) = if c.beq j k then (k, v) ∷ m else (j, w) ∷ insert k v m

  unfoldable pub erase : K → Dict K V → Dict K V
  erase k [] = []
  erase k ((j, w) ∷ m) = let rest = erase k m in if c.beq j k then rest else (j, w) ∷ rest

  pub lookup-insert :
      (k j : K) (v : V) (m : Dict K V)
      → lookup j (insert k v m) ≡ (if c.beq k j then some v else lookup j m)
  unfolding lookup insert
  lookup-insert k j v [] = refl
  lookup-insert k j v ((i, w) ∷ m) =
      ground (arith, c.beq_iff k j, c.beq_iff i k, c.beq_iff i j, lookup-insert k j v m)

  pub lookup-erase :
      (k j : K) (m : Dict K V) → lookup j (erase k m) ≡ (if c.beq k j then none else lookup j m)
  unfolding lookup erase
  lookup-erase k j [] = ground arith
  lookup-erase k j ((i, w) ∷ m) =
      ground (arith, c.beq_iff k j, c.beq_iff i k, c.beq_iff i j, lookup-erase k j m)

  pub lookup-insert_self : (k : K) (v : V) (m : Dict K V) → lookup k (insert k v m) ≡ some v
  lookup-insert_self k v m = ground (arith, lookup-insert k k v m, c.beq_iff k k)

  -- What is found after an insertion is what was inserted, or was there.
  pub insert_cases :
      (k j : K) (v w : V) (m : Dict K V)
      → lookup j (insert k v m) ≡ some w
      → ((k ≡ j) × (v ≡ w)) ⊎ (lookup j m ≡ some w)
  insert_cases k j v w m found = elim (Bool-cases (c.beq k j)) [
    | inl here ↦ inl ((c.beq_iff k j).0 here, ground (arith, lookup-insert k j v m))
    | inr there ↦ inr (ground (arith, lookup-insert k j v m))
  ]

  pub erase_cases :
      (k j : K) (w : V) (m : Dict K V) → lookup j (erase k m) ≡ some w → lookup j m ≡ some w
  erase_cases k j w m found = ground (arith, lookup-erase k j m)

  pub insert_twice : (k : K) (v w : V) (m : Dict K V) → insert k v (insert k w m) ≡ insert k v m
  unfolding insert
  insert_twice k v w [] = ground (arith, c.beq_iff k k)
  insert_twice k v w ((j, u) ∷ m) =
      ground (arith, c.beq_iff k k, c.beq_iff j k, insert_twice k v w m)

  pub length-insert :
      (k : K) (v : V) (m : Dict K V)
      → length (insert k v m)
        ≡ elim (lookup k m) as (λ o. ℕ) [ none ↦ suc (length m) | some w ↦ length m ]
  unfolding insert lookup
  length-insert k v [] = refl
  length-insert k v ((j, w) ∷ m) = ground (arith, length-insert k v m)

  unfoldable pub map_values : (V → V) → Dict K V → Dict K V
  map_values f [] = []
  map_values f ((j, w) ∷ m) = (j, f w) ∷ map_values f m

  pub lookup-map_values :
      (f : V → V) (k : K) (m : Dict K V)
      → lookup k (map_values f m)
        ≡ elim (lookup k m) as (λ o. Option V) [ none ↦ none | some v ↦ some (f v) ]
  unfolding lookup map_values
  lookup-map_values f k [] = refl
  lookup-map_values f k ((j, w) ∷ m) = ground (arith, lookup-map_values f k m)
