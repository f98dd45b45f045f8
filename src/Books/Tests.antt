-- ===== src/Books/Tests.antt =====
-- Runs of 36_database_sql, and the theorem at a concrete input.
use go_basics.Common.{◌≡◌, ◌≢◌, ◌⊎◌, refl, false, none, some, [], ◌∷◌}
use go_basics.Common.Int.{ℤ, pos, ◌+ℤ◌}
use go_basics.Common.Dict.{Dict, lookup, insert, int_comparable}
use go_basics.Common.Database.{committed, reply_lost}
use go_basics.Books.{Book, ok, Faults, complete, transfer_pages, list_books}
use go_basics.Books.Totals.{total, transfer_pages-total}

abbrev learning_go : Book
learning_go = record {
  title = "Learning Go";
  author = "Jon Bodner";
  pages = pos 375;
  publisher = none;
  created_at = 1;
}

abbrev shelf : Dict ℤ Book
shelf = (pos 2, learning_go) ∷ []

abbrev no_faults : Faults
no_faults = record {
  begin_fails = false;
  debit_fails = false;
  credit_fails = false;
  commit = committed;
}

enough_pages : list_books false complete (pos 200) shelf ≡ ok shelf
unfolding list_books
enough_pages = refl

-- A debit of a book that is not there is not noticed: 25 pages come from nowhere.
from_nowhere : total (transfer_pages no_faults (pos 9) (pos 2) (pos 25) shelf).1 ≡ pos 400
unfolding transfer_pages lookup insert ◌+ℤ◌
from_nowhere = refl

transfer_pages-total_example :
    ((transfer_pages no_faults (pos 9) (pos 2) (pos 25) shelf).0 ≡ ok tt
      → ((b : Book) × (lookup (pos 9) shelf ≡ some b)
          × (total (transfer_pages no_faults (pos 9) (pos 2) (pos 25) shelf).1 ≡ total shelf))
        ⊎ ((lookup (pos 9) shelf ≡ none)
            × (total (transfer_pages no_faults (pos 9) (pos 2) (pos 25) shelf).1
                ≡ total shelf +ℤ pos 25)))
    × ((transfer_pages no_faults (pos 9) (pos 2) (pos 25) shelf).0 ≢ ok tt
        → committed ≢ reply_lost
        → (transfer_pages no_faults (pos 9) (pos 2) (pos 25) shelf).1 ≡ shelf)
transfer_pages-total_example = transfer_pages-total no_faults (pos 9) (pos 2) (pos 25) shelf
