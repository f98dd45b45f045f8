-- ===== src/Books.antt =====
-- 36_database_sql/main.go: the list of books and the transfer of pages, over the table `books`. An argument says
-- that a statement gives an error; the sums of pages stay in the range of 64 bits.
pub mod Totals
pub mod Lists
mod Tests
use go_basics.Common.{
  ℕ, zero, suc, ◌≡◌, Bool, true, false, String, Option, none, some, List, [], ◌∷◌, select,
  if◌then◌else◌,
}
use go_basics.Common.Int.{ℤ, pos, ◌+ℤ◌, ◌-ℤ◌, leb_ℤ, ltb_ℤ}
use go_basics.Common.Dict.{Dict, int_comparable, lookup, insert}
use go_basics.Common.Sorting.{sorted}
use go_basics.Common.Database.{Commit, committed, rolled_back, reply_lost}

-- `Book`; its id is its key.
pub record Book : Type 0 where
  pub title : String
  pub author : String
  pub pages : ℤ
  pub publisher : Option String
  pub created_at : ℕ

pub data Error : Type 0 where
  begin_failed debit_failed credit_failed no_such_book commit_failed query_failed scan_failed
        iterate_failed :
      Error

pub data Result (A : Type 0) : Type 0 where
  ok : A → Result A
  err : Error → Result A

-- An `UPDATE` of a row's pages: how many rows it matches, and the table. The new value is exact, as SQLite's `+` and
-- `-` are where it stays in 64 bits; past that SQLite goes on with a floating-point value, which is not modelled.
unfoldable pub update_pages : (ℤ → ℤ) → ℤ → Dict ℤ Book → ℕ × Dict ℤ Book
update_pages f id t = elim (lookup id t) [
  | none ↦ (0, t)
  | some b ↦ (1, insert id (record b { pages = f b.pages }) t)
]

-- Which statements give an error.
pub record Faults : Type 0 where
  pub begin_fails : Bool
  pub debit_fails : Bool
  pub credit_fails : Bool
  pub commit : Commit

-- `tx.Commit`, of what the transaction has written over what was there.
unfoldable pub close : Commit → Dict ℤ Book → Dict ℤ Book → Result Unit × Dict ℤ Book
close committed new old = (ok tt, new)
close rolled_back new old = (err commit_failed, old)
close reply_lost new old = (err commit_failed, new)

-- `transferPages` from its second statement on.
unfoldable pub credit : Faults → ℤ → ℤ → Dict ℤ Book → Dict ℤ Book → Result Unit × Dict ℤ Book
unfolding update_pages close
credit faults to_id pages debited old =
    if faults.credit_fails
    then (err credit_failed, old)
    else elim (update_pages (λ p. p +ℤ pages) to_id debited).0 [
      | zero ↦ (err no_such_book, old)
      | suc n ↦ close faults.commit (update_pages (λ p. p +ℤ pages) to_id debited).1 old
    ]

-- `transferPages`.
unfoldable pub transfer_pages : Faults → ℤ → ℤ → ℤ → Dict ℤ Book → Result Unit × Dict ℤ Book
unfolding credit update_pages
transfer_pages faults from_id to_id pages t =
    if faults.begin_fails
    then (err begin_failed, t)
    else if faults.debit_fails
    then (err debit_failed, t)
    else credit faults to_id pages (update_pages (λ p. p -ℤ pages) from_id t).1 t

-- `ORDER BY pages DESC`: whether a row may stand before another.
unfoldable pub may_precede : ℤ × Book → ℤ × Book → Bool
may_precede a b = leb_ℤ b.1.pages a.1.pages

-- How the reading of the rows goes: a row that cannot be scanned, or an end before the last row, after some.
pub data Reading : Type 0 where
  complete : Reading
  bad_row : Reading
  cut_off : Reading

-- `listBooks`.
unfoldable pub list_books : Bool → Reading → ℤ → Dict ℤ Book → Result (List (ℤ × Book))
unfolding sorted may_precede
list_books fails reading min_pages t = if fails then err query_failed else elim reading [
  | bad_row ↦ err scan_failed
  | cut_off ↦ err iterate_failed
  | complete ↦ ok (sorted may_precede (select (λ row. leb_ℤ min_pages row.1.pages) t))
]
