-- ===== src/Inventory/Bulk.antt =====
-- The summary of `BulkUpsert` in 62_grpc/server.go.
use mathlib.Core.Path.{subst}
use go_basics.Common.{
  ℕ, suc, ◌+◌, ◌-◌, ◌^◌, ◌≤◌, ◌≡◌, refl, sym, ap, ◌∙◌, ◌||◌, Option, none, some, List, [], ◌∷◌,
  ◌++◌, length, length-append, arith, str_eq, Option-cases, Bool-cases, inl, inr,
}
use go_basics.Common.Int.{pos, ◌+ℤ◌, int32, int32_exact}
use go_basics.Common.Dict.{string_comparable, lookup, insert, length-insert}
use go_basics.Inventory.{
  Product, Products, BulkUpsertResponse, no_summary, upsert_message, Received, message,
  end_of_stream, bulk_upsert,
}

-- The messages of a stream that the client then closes.
unfoldable pub closed : List (Option Product) → List (Received (Option Product))
closed [] = end_of_stream ∷ []
closed (m ∷ ms) = message m ∷ closed ms

-- A summary of `c` products created, `u` updated and `f` failed.
abbrev IsSummary : BulkUpsertResponse → ℕ → ℕ → ℕ → Type 0
IsSummary s c u f =
    (s.created ≡ pos c) × (s.updated ≡ pos u) × (s.failed ≡ pos f) × (length s.errors ≡ f)

count_one : (n : ℕ) → suc n ≤ 2 ^ 31 - 1 → int32 (pos n +ℤ pos 1) ≡ pos (suc n)
unfolding ◌+ℤ◌
count_one n fits = ground (arith, int32_exact (suc n))

-- What a message adds to a summary and to the number of products.
abbrev Adds : BulkUpsertResponse × Products → Products → ℕ → ℕ → ℕ → Type 0
Adds made ps c u f =
    (c' : ℕ) × (u' : ℕ) × (f' : ℕ) × (c' + u' + f' ≡ suc (c + u + f))
    × (length made.1 + c ≡ length ps + c')
    × IsSummary made.0 c' u' f'

bad_message :
    (s : BulkUpsertResponse) (ps : Products) (c u f : ℕ)
    → IsSummary s c u f
    → suc (c + u + f) ≤ 2 ^ 31 - 1
    → Adds
        (
          record s {
            failed = int32 (s.failed +ℤ pos 1);
            errors = s.errors ++ "missing id or name" ∷ [];
          },
          ps,
        )
        ps
        c
        u
        f
bad_message s ps c u f (created, updated, failed, errors) fits = (
  c,
  u,
  suc f,
  omega arith,
  omega arith,
  (
    created,
    updated,
    ap (λ z. int32 (z +ℤ pos 1)) failed ∙ count_one f (omega arith),
    omega (arith, length-append s.errors ("missing id or name" ∷ []), errors),
  ),
)

Adds-path :
    (made other : BulkUpsertResponse × Products) (ps : Products) (c u f : ℕ)
    → other ≡ made
    → Adds made ps c u f
    → Adds other ps c u f
Adds-path made other ps c u f same adds = subst (λ m. Adds m ps c u f) (sym same) adds

created_one :
    (p : Product) (s : BulkUpsertResponse) (ps : Products) (c u f : ℕ)
    → IsSummary s c u f
    → suc (c + u + f) ≤ 2 ^ 31 - 1
    → lookup p.id ps ≡ none
    → Adds (record s { created = int32 (s.created +ℤ pos 1) }, insert p.id p ps) ps c u f
created_one p s ps c u f (created, updated, failed, errors) fits missing = (
  suc c,
  u,
  f,
  omega arith,
  ground (arith, length-insert p.id p ps),
  (ap (λ z. int32 (z +ℤ pos 1)) created ∙ count_one c (omega arith), updated, failed, errors),
)

updated_one :
    (p old : Product) (s : BulkUpsertResponse) (ps : Products) (c u f : ℕ)
    → IsSummary s c u f
    → suc (c + u + f) ≤ 2 ^ 31 - 1
    → lookup p.id ps ≡ some old
    → Adds (record s { updated = int32 (s.updated +ℤ pos 1) }, insert p.id p ps) ps c u f
updated_one p old s ps c u f (created, updated, failed, errors) fits found = (
  c,
  suc u,
  f,
  omega arith,
  ground (arith, length-insert p.id p ps),
  (created, ap (λ z. int32 (z +ℤ pos 1)) updated ∙ count_one u (omega arith), failed, errors),
)

upsert-IsSummary :
    (now : ℕ) (m : Option Product) (s : BulkUpsertResponse) (ps : Products) (c u f : ℕ)
    → IsSummary s c u f
    → suc (c + u + f) ≤ 2 ^ 31 - 1
    → Adds (upsert_message now m s ps) ps c u f
unfolding upsert_message
upsert-IsSummary now none s ps c u f summary fits = bad_message s ps c u f summary fits
upsert-IsSummary now (some p) s ps c u f summary fits =
    let p' = record p { updated_at = now } in
    elim (Bool-cases (str_eq p.id "" || str_eq p.name "")) [
      | inl bad ↦
          Adds-path
            (
              record s {
                failed = int32 (s.failed +ℤ pos 1);
                errors = s.errors ++ "missing id or name" ∷ [];
              },
              ps,
            )
            _ ps c u f (ground arith) (bad_message s ps c u f summary fits)
      | inr good ↦ elim (Option-cases (lookup p.id ps)) [
        | inl missing ↦
            Adds-path (record s { created = int32 (s.created +ℤ pos 1) }, insert p.id p' ps) _ ps c
              u f (ground arith) (created_one p' s ps c u f summary fits missing)
        | inr (old, found) ↦
            Adds-path (record s { updated = int32 (s.updated +ℤ pos 1) }, insert p.id p' ps) _ ps c
              u f (ground arith) (updated_one p' old s ps c u f summary fits found)
      ]
    ]

-- What a closed stream ends in, from a summary and a number of products.
abbrev Ends : Option BulkUpsertResponse × Products → Products → ℕ → ℕ → Type 0
Ends end ps c total =
    (s : BulkUpsertResponse) × (c' : ℕ) × (u' : ℕ) × (f' : ℕ) × (end.0 ≡ some s)
    × (s.created ≡ pos c')
    × (s.updated ≡ pos u')
    × (s.failed ≡ pos f')
    × (length s.errors ≡ f')
    × (c' + u' + f' ≡ total)
    × (length end.1 + c ≡ length ps + c')

bulk-Ends :
    (now : ℕ) (ms : List (Option Product)) (s : BulkUpsertResponse) (ps : Products) (c u f : ℕ)
    → IsSummary s c u f
    → c + u + f + length ms ≤ 2 ^ 31 - 1
    → Ends (bulk_upsert now (closed ms) s ps) ps c (c + u + f + length ms)
unfolding bulk_upsert closed
bulk-Ends now [] s ps c u f (created, updated, failed, errors) fits =
    (s, c, u, f, refl, created, updated, failed, errors, omega arith, omega arith)
bulk-Ends now (m ∷ ms) s ps c u f summary fits =
    let (c1, u1, f1, sum1, grown, next) = upsert-IsSummary now m s ps c u f summary (omega arith) in
    let (last, c2, u2, f2, ends, created, updated, failed, errors, sum2, total) =
      bulk-Ends now ms (upsert_message now m s ps).0 (upsert_message now m s ps).1 c1 u1 f1 next
        (omega arith) in
    (last, c2, u2, f2, ends, created, updated, failed, errors, omega arith, omega arith)

-- A stream of fewer than 2^31 messages that the client closes gets a summary: the numbers of products
-- created, updated and failed add up to the number of messages, there is one error text for each that
-- failed, and the store has so many more products as were created.
pub bulk_summary :
    (now : ℕ) (ms : List (Option Product)) (ps : Products)
    → length ms ≤ 2 ^ 31 - 1
    → (s : BulkUpsertResponse) × (c : ℕ) × (u : ℕ) × (f : ℕ) × ((bulk_upsert now
          (closed ms)
          no_summary
          ps).0
        ≡ some s)
      × (s.created ≡ pos c)
      × (s.updated ≡ pos u)
      × (s.failed ≡ pos f)
      × (length s.errors ≡ f)
      × (c + u + f ≡ length ms)
      × (length (bulk_upsert now (closed ms) no_summary ps).1 ≡ length ps + c)
unfolding no_summary
bulk_summary now ms ps fits =
    let (s, c, u, f, ends, created, updated, failed, errors, sum, total) =
      bulk-Ends now ms no_summary ps 0 0 0 (refl, refl, refl, omega arith) (omega arith) in
    (s, c, u, f, ends, created, updated, failed, errors, omega arith, omega arith)
