-- ===== src/Books/Lists.antt =====
-- What `listBooks` gives.
use go_basics.Common.{◌≡◌, refl, subst, Bool, true, false, List, All, arith, select}
use go_basics.Common.Int.{ℤ, leb_ℤ}
use go_basics.Common.Dict.{Dict}
use go_basics.Common.Sorting.{sorted, IsOrdered, sorted-IsOrdered, sorted-All, select-All}
use go_basics.Books.{Book, ok, Reading, complete, bad_row, cut_off, may_precede, list_books}

may_precede-total : (a b : ℤ × Book) → may_precede a b ≡ false → may_precede b a ≡ true
unfolding may_precede
may_precede-total a b h = ground arith

-- The list gives rows only where the statement runs and every row is read: then those with enough pages, each
-- with at least as many as the next. Rows that cannot be read, or an end before the last row, are an
-- error and never a shorter list.
pub list_books-IsOrdered :
    (fails : Bool) (reading : Reading) (min_pages : ℤ) (t : Dict ℤ Book) (rows : List (ℤ × Book))
    → list_books fails reading min_pages t ≡ ok rows
    → (fails ≡ false)
      × (reading ≡ complete)
      × IsOrdered may_precede rows
      × All (λ row. leb_ℤ min_pages row.1.pages ≡ true) rows
unfolding list_books
list_books-IsOrdered fails bad_row min_pages t rows h = absurd (ground arith)
list_books-IsOrdered fails cut_off min_pages t rows h = absurd (ground arith)
list_books-IsOrdered fails complete min_pages t rows h =
    let same : sorted may_precede (select (λ row. leb_ℤ min_pages row.1.pages) t) ≡ rows =
      ground arith in
    (
      ground arith,
      refl,
      subst (IsOrdered may_precede) same (
          sorted-IsOrdered may_precede may_precede-total
            (select (λ row. leb_ℤ min_pages row.1.pages) t)),
      subst (All (λ row. leb_ℤ min_pages row.1.pages ≡ true)) same (
          sorted-All may_precede (λ row. leb_ℤ min_pages row.1.pages ≡ true)
            (select (λ row. leb_ℤ min_pages row.1.pages) t)
            (select-All (λ row. leb_ℤ min_pages row.1.pages) t)),
    )
