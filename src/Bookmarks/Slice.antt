-- ===== src/Bookmarks/Slice.antt =====
-- What the loops on the slice of bookmarks-api/main.go find and leave.
use go_basics.Common.{
  ℕ, zero, suc, ◌≤◌, ◌<◌, ◌≡◌, refl, Option, none, some, List, [], ◌∷◌, ◌++◌, arith, if◌then◌else◌,
}
use go_basics.Common.Int.{ℤ, pos, int_beq, int_beq_iff}
use go_basics.Bookmarks.{Bookmark, find_bookmark_index, get_elem?, set_elem, remove_elem}

-- The bookmark with an id.
unfoldable pub found : ℤ → List Bookmark → Option Bookmark
found id [] = none
found id (b ∷ bs) = if int_beq b.id id then some b else found id bs

pub found-get_elem? :
    (id : ℤ) (bs : List Bookmark)
    → found id bs ≡ elim (find_bookmark_index id bs) as (λ o. Option Bookmark) [
      | none ↦ none
      | some i ↦ get_elem? bs i
    ]
unfolding found find_bookmark_index get_elem?
found-get_elem? id [] = refl
found-get_elem? id (b ∷ bs) = ground (arith, found-get_elem? id bs)

pub found-append :
    (id : ℤ) (bs : List Bookmark) (b : Bookmark)
    → found id (bs ++ b ∷ []) ≡ elim (found id bs) as (λ o. Option Bookmark) [
      | none ↦ (if int_beq b.id id then some b else none)
      | some c ↦ some c
    ]
unfolding found
found-append id [] b = ground arith
found-append id (c ∷ bs) b = ground (arith, found-append id bs b)

pub found-set_elem :
    (id j : ℤ) (bs : List Bookmark) (i : ℕ) (b : Bookmark)
    → find_bookmark_index id bs ≡ some i
    → b.id ≡ id
    → found j (set_elem bs i b) ≡ (if int_beq id j then some b else found j bs)
unfolding found find_bookmark_index set_elem
found-set_elem id j [] i b at same = absurd (ground arith)
found-set_elem id j (c ∷ bs) zero b at same =
    ground (arith, int_beq_iff c.id id, int_beq_iff c.id j, int_beq_iff id j, int_beq_iff b.id j)
found-set_elem id j (c ∷ bs) (suc i) b at same =
    ground
      (arith, int_beq_iff c.id id, int_beq_iff c.id j, int_beq_iff id j, found-set_elem id j bs i b)

-- No id twice.
unfoldable pub Unique : List Bookmark → Type 0
Unique [] = Unit
Unique (b ∷ bs) = (found b.id bs ≡ none) × Unique bs

pub found-remove_elem :
    (id j : ℤ) (bs : List Bookmark) (i : ℕ)
    → Unique bs
    → find_bookmark_index id bs ≡ some i
    → found j (remove_elem bs i) ≡ (if int_beq id j then none else found j bs)
unfolding found find_bookmark_index remove_elem Unique
found-remove_elem id j [] i unique at = absurd (ground arith)
found-remove_elem id j (c ∷ bs) zero unique at =
    ground (arith, unique.0, int_beq_iff c.id id, int_beq_iff c.id j, int_beq_iff id j)
found-remove_elem id j (c ∷ bs) (suc i) unique at = ground (
  arith,
  int_beq_iff c.id id,
  int_beq_iff c.id j,
  int_beq_iff id j,
  found-remove_elem id j bs i unique.1,
)

-- Every id is below a number, and so not yet given.
unfoldable pub Below : ℕ → List Bookmark → Type 0
Below n [] = Unit
Below n (b ∷ bs) = ((k : ℕ) × (b.id ≡ pos k) × (k < n)) × Below n bs

pub found-Below : (n k : ℕ) (bs : List Bookmark) → Below n bs → n ≤ k → found (pos k) bs ≡ none
unfolding found Below
found-Below n k [] h le = refl
found-Below n k (b ∷ bs) ((i, is, less), h) le =
    ground (arith, found-Below n k bs h le, int_beq_iff b.id (pos k))

pub Below-suc : (n : ℕ) (bs : List Bookmark) → Below n bs → Below (suc n) bs
unfolding Below
Below-suc n [] h = tt
Below-suc n (b ∷ bs) ((i, is, less), h) = ((i, is, omega (arith, less)), Below-suc n bs h)

pub Below-append :
    (n : ℕ) (bs : List Bookmark) (b : Bookmark)
    → Below n bs
    → b.id ≡ pos n
    → Below (suc n) (bs ++ b ∷ [])
unfolding Below
Below-append n [] b h is = ((n, is, omega arith), tt)
Below-append n (c ∷ bs) b ((i, is, less), h) new =
    ((i, is, omega (arith, less)), Below-append n bs b h new)

pub Unique-append :
    (n : ℕ) (bs : List Bookmark) (b : Bookmark)
    → Unique bs
    → Below n bs
    → b.id ≡ pos n
    → Unique (bs ++ b ∷ [])
unfolding Unique Below found
Unique-append n [] b u h is = (refl, tt)
Unique-append n (c ∷ bs) b u ((i, same, less), h) is = (
  ground (arith, u.0, found-append c.id bs b, int_beq_iff b.id c.id),
  Unique-append n bs b u.1 h is,
)

pub set_elem-Below :
    (n : ℕ) (id : ℤ) (bs : List Bookmark) (i : ℕ) (b : Bookmark)
    → find_bookmark_index id bs ≡ some i
    → b.id ≡ id
    → Below n bs
    → Below n (set_elem bs i b)
unfolding Below set_elem find_bookmark_index
set_elem-Below n id [] i b at same h = tt
set_elem-Below n id (c ∷ bs) zero b at same ((k, is, less), h) =
    ((k, ground (arith, int_beq_iff c.id id), less), h)
set_elem-Below n id (c ∷ bs) (suc i) b at same (first, h) =
    (first, set_elem-Below n id bs i b (ground (arith, int_beq_iff c.id id)) same h)

pub set_elem-Unique :
    (id : ℤ) (bs : List Bookmark) (i : ℕ) (b : Bookmark)
    → find_bookmark_index id bs ≡ some i
    → b.id ≡ id
    → Unique bs
    → Unique (set_elem bs i b)
unfolding Unique set_elem find_bookmark_index
set_elem-Unique id [] i b at same u = tt
set_elem-Unique id (c ∷ bs) zero b at same u = (ground (arith, int_beq_iff c.id id, u.0), u.1)
set_elem-Unique id (c ∷ bs) (suc i) b at same u = (
  ground (arith, u.0, int_beq_iff c.id id, int_beq_iff id c.id, found-set_elem id c.id bs i b),
  set_elem-Unique id bs i b (ground (arith, int_beq_iff c.id id)) same u.1,
)

pub remove_elem-Below :
    (n : ℕ) (bs : List Bookmark) (i : ℕ) → Below n bs → Below n (remove_elem bs i)
unfolding Below remove_elem
remove_elem-Below n [] i h = tt
remove_elem-Below n (c ∷ bs) zero h = h.1
remove_elem-Below n (c ∷ bs) (suc i) h = (h.0, remove_elem-Below n bs i h.1)

pub remove_elem-Unique :
    (id : ℤ) (bs : List Bookmark) (i : ℕ)
    → find_bookmark_index id bs ≡ some i
    → Unique bs
    → Unique (remove_elem bs i)
unfolding Unique remove_elem find_bookmark_index
remove_elem-Unique id [] i at u = tt
remove_elem-Unique id (c ∷ bs) zero at u = u.1
remove_elem-Unique id (c ∷ bs) (suc i) at u = (
  ground (arith, u.0, found-remove_elem id c.id bs i u.1, int_beq_iff c.id id),
  remove_elem-Unique id bs i (ground (arith, int_beq_iff c.id id)) u.1,
)
