-- ===== src/Bookmarks/Tests.antt =====
-- Runs of bookmarks-api.
use go_basics.Common.{◌≡◌, some, List, [], ◌∷◌, arith}
use go_basics.Common.Int.{pos}
use go_basics.Bookmarks.{Bookmark, start}
use go_basics.Bookmarks.Dictionary.{Request, posts, gets, deletes, replies, replies_dict}
use go_basics.Bookmarks.Refinement.{replies-dict}

abbrev go_dev : Bookmark
go_dev = record { id = pos 0; title = "Go"; url = "https://go.dev" }

abbrev history : List Request
history =
    posts (some go_dev) ∷ gets (some (pos 1)) ∷ deletes (some (pos 1)) ∷ gets (some (pos 1)) ∷ []

replies-dict_example : replies history start ≡ replies_dict history ([], 1)
replies-dict_example = replies-dict history (omega arith)
