-- ===== src/Bookmarks.antt =====
-- bookmarks-api/main.go: the handlers on a slice of bookmarks. Binding a body is the router's library's
-- work: a body is what it binds to, if it does.
pub mod Slice
pub mod Dictionary
pub mod Refinement
mod Tests
use go_basics.Common.{
  ℕ, zero, suc, ◌+◌, Bool, true, false, String, Option, none, some, List, [], ◌∷◌, ◌++◌,
  if◌then◌else◌,
}
use go_basics.Common.Int.{ℤ, pos, int_beq, int64, ◌+ℤ◌}

-- `Bookmark`.
pub record Bookmark : Type 0 where
  pub id : ℤ
  pub title : String
  pub url : String

-- `bookmarks` and `nextID`.
pub record State : Type 0 where
  pub bookmarks : List Bookmark
  pub next_id : ℤ

unfoldable pub start : State
start = record { bookmarks = []; next_id = pos 1 }

-- `findBookmarkIndex`, with nothing for -1.
unfoldable pub find_bookmark_index : ℤ → List Bookmark → Option ℕ
find_bookmark_index id [] = none
find_bookmark_index id (b ∷ bs) =
    let rest = find_bookmark_index id bs in
    if int_beq b.id id then some 0 else elim rest [ none ↦ none | some i ↦ some (suc i) ]

-- `bookmarks[i]`.
unfoldable pub get_elem? : List Bookmark → ℕ → Option Bookmark
get_elem? [] i = none
get_elem? (b ∷ bs) zero = some b
get_elem? (b ∷ bs) (suc i) = get_elem? bs i

-- `bookmarks[i] = b`.
unfoldable pub set_elem : List Bookmark → ℕ → Bookmark → List Bookmark
set_elem [] i c = []
set_elem (b ∷ bs) zero c = c ∷ bs
set_elem (b ∷ bs) (suc i) c = b ∷ set_elem bs i c

-- `append(bookmarks[:i], bookmarks[i+1:]...)`.
unfoldable pub remove_elem : List Bookmark → ℕ → List Bookmark
remove_elem [] i = []
remove_elem (b ∷ bs) zero = bs
remove_elem (b ∷ bs) (suc i) = b ∷ remove_elem bs i

-- What a handler answers: a status, and a bookmark where it sends one.
pub record Reply : Type 0 where
  pub status : ℕ
  pub bookmark : Option Bookmark

unfoldable pub failed : ℕ → Reply
failed code = record { status = code; bookmark = none }

-- The handler of POST /bookmarks.
unfoldable pub post : Option Bookmark → State → Reply × State
post body s = elim body [
  | none ↦ (failed 400, s)
  | some b ↦
      let new : Bookmark = record b { id = s.next_id } in
      (
        record { status = 201; bookmark = some new },
        record { bookmarks = s.bookmarks ++ new ∷ []; next_id = int64 (s.next_id +ℤ pos 1) },
      )
]

-- The handler of GET /bookmarks.
unfoldable pub index : State → List Bookmark
index s = s.bookmarks

-- The handler of GET /bookmarks/:id, of the number that the path holds, if it does.
unfoldable pub get : Option ℤ → State → Reply
get path s = elim path [
  | none ↦ failed 400
  | some id ↦ elim (find_bookmark_index id s.bookmarks) [
    | none ↦ failed 404
    | some i ↦ record { status = 200; bookmark = get_elem? s.bookmarks i }
  ]
]

-- The handler of PUT /bookmarks/:id.
unfoldable pub put : Option ℤ → Option Bookmark → State → Reply × State
put path body s = elim path [
  | none ↦ (failed 400, s)
  | some id ↦ elim (find_bookmark_index id s.bookmarks) [
    | none ↦ (failed 404, s)
    | some i ↦ elim body [
      | none ↦ (failed 400, s)
      | some b ↦
          let updated : Bookmark = record b { id = id } in
          (
            record { status = 200; bookmark = some updated },
            record s { bookmarks = set_elem s.bookmarks i updated },
          )
    ]
  ]
]

-- The handler of DELETE /bookmarks/:id.
unfoldable pub delete : Option ℤ → State → Reply × State
delete path s = elim path [
  | none ↦ (failed 400, s)
  | some id ↦ elim (find_bookmark_index id s.bookmarks) [
    | none ↦ (failed 404, s)
    | some i ↦ (failed 204, record s { bookmarks = remove_elem s.bookmarks i })
  ]
]
