-- ===== src/Bookmarks/Dictionary.antt =====
-- The dictionary that the handlers of bookmarks-api/main.go implement.
use mathlib.Core.Path.{subst}
use go_basics.Common.{
  ℕ, suc, ◌-◌, ◌^◌, ◌≤◌, ◌≡◌, refl, ap, ◌∙◌, Option, none, some, List, [], ◌∷◌, ◌++◌, arith,
  Option-cases, Bool-cases, ◌⊎◌, inl, inr,
}
use go_basics.Common.Int.{ℤ, pos, int_beq, int_beq_iff, int64, int64_exact, ◌+ℤ◌}
use go_basics.Common.Dict.{Dict, int_comparable, lookup, insert, erase, lookup-insert, lookup-erase}
use go_basics.Bookmarks.{
  Bookmark, State, start, find_bookmark_index, get_elem?, set_elem, remove_elem, Reply, failed,
  post, get, put, delete,
}
use go_basics.Bookmarks.Slice.{
  found, found-get_elem?, found-append, found-set_elem, found-remove_elem, Unique, Below,
  found-Below, Below-append, Unique-append, set_elem-Below, set_elem-Unique, remove_elem-Below,
  remove_elem-Unique,
}

-- A request.
pub data Request : Type 0 where
  posts : Option Bookmark → Request
  gets : Option ℤ → Request
  puts : Option ℤ → Option Bookmark → Request
  deletes : Option ℤ → Request

unfoldable pub serve : Request → State → Reply × State
serve (posts body) s = post body s
serve (gets path) s = (get path s, s)
serve (puts path body) s = put path body s
serve (deletes path) s = delete path s

-- What the replies to a history are.
unfoldable pub replies : List Request → State → List Reply
replies [] s = []
replies (r ∷ rs) s = (serve r s).0 ∷ replies rs (serve r s).1

-- The same on a dictionary, and the number that the next bookmark gets.
unfoldable pub serve_dict : Request → Dict ℤ Bookmark × ℕ → Reply × (Dict ℤ Bookmark × ℕ)
serve_dict (posts none) (d, n) = (failed 400, (d, n))
serve_dict (posts (some b)) (d, n) =
    let new : Bookmark = record b { id = pos n } in
    (record { status = 201; bookmark = some new }, (insert (pos n) new d, suc n))
serve_dict (gets none) (d, n) = (failed 400, (d, n))
serve_dict (gets (some id)) (d, n) = (
  elim (lookup id d) [ none ↦ failed 404 | some b ↦ record { status = 200; bookmark = some b } ],
  (d, n),
)
serve_dict (puts none body) (d, n) = (failed 400, (d, n))
serve_dict (puts (some id) body) (d, n) = elim (lookup id d) [
  | none ↦ (failed 404, (d, n))
  | some old ↦ elim body [
    | none ↦ (failed 400, (d, n))
    | some b ↦
        let new : Bookmark = record b { id = id } in
        (record { status = 200; bookmark = some new }, (insert id new d, n))
  ]
]
serve_dict (deletes none) (d, n) = (failed 400, (d, n))
serve_dict (deletes (some id)) (d, n) = elim (lookup id d) [
  | none ↦ (failed 404, (d, n))
  | some b ↦ (failed 204, (erase id d, n))
]

unfoldable pub replies_dict : List Request → Dict ℤ Bookmark × ℕ → List Reply
replies_dict [] d = []
replies_dict (r ∷ rs) d = (serve_dict r d).0 ∷ replies_dict rs (serve_dict r d).1

-- The slice stands for the dictionary.
pub record Represents (s : State) (d : Dict ℤ Bookmark) (n : ℕ) : Type 0 where
  pub same : (id : ℤ) → found id s.bookmarks ≡ lookup id d
  pub next : s.next_id ≡ pos n
  pub unique : Unique s.bookmarks
  pub below : Below n s.bookmarks

-- One request is served as on the dictionary.
unfoldable pub Serves : Request → State → Dict ℤ Bookmark → ℕ → Type 0
Serves r s d n =
    ((serve r s).0 ≡ (serve_dict r (d, n)).0)
    × Represents (serve r s).1 (serve_dict r (d, n)).1.0 (serve_dict r (d, n)).1.1
    × ((serve_dict r (d, n)).1.1 ≤ suc n)

found_index :
    (id : ℤ) (bs : List Bookmark)
    → (find_bookmark_index id bs ≡ none)
      ⊎ ((i : ℕ) × (b : Bookmark) × (find_bookmark_index id bs ≡ some i)
          × (get_elem? bs i ≡ some b))
unfolding find_bookmark_index get_elem?
found_index id [] = inl refl
found_index id (c ∷ bs) = elim (Bool-cases (int_beq c.id id)) [
  | inl here ↦ inr (0, c, ground arith, refl)
  | inr there ↦ elim (found_index id bs) [
    | inl missing ↦ inl (ground arith)
    | inr (i, b, at, is) ↦ inr (suc i, b, ground arith, is)
  ]
]

-- The index of a bookmark, or none, as the dictionary has it.
pub looked_up :
    (s : State) (d : Dict ℤ Bookmark) (n : ℕ) (id : ℤ)
    → Represents s d n
    → ((find_bookmark_index id s.bookmarks ≡ none) × (lookup id d ≡ none))
      ⊎ ((i : ℕ) × (b : Bookmark) × (find_bookmark_index id s.bookmarks ≡ some i)
          × (get_elem? s.bookmarks i ≡ some b)
          × (lookup id d ≡ some b))
looked_up s d n id rep = elim (found_index id s.bookmarks) [
  | inl missing ↦ inl (missing, ground (arith, rep.same id, found-get_elem? id s.bookmarks))
  | inr (i, b, at, is) ↦
      inr (i, b, at, is, ground (arith, rep.same id, found-get_elem? id s.bookmarks))
]

appended-same :
    (s : State) (d : Dict ℤ Bookmark) (n : ℕ) (new : Bookmark) (id : ℤ)
    → Represents s d n
    → new.id ≡ pos n
    → found id (s.bookmarks ++ new ∷ []) ≡ lookup id (insert (pos n) new d)
appended-same s d n new id rep is = elim (Bool-cases (int_beq (pos n) id)) [
  | inl here ↦ ground (
    arith,
    found-append id s.bookmarks new,
    lookup-insert (pos n) id new d,
    int_beq_iff (pos n) id,
    found-Below n n s.bookmarks rep.below,
  )
  | inr there ↦ ground (
    arith,
    found-append id s.bookmarks new,
    lookup-insert (pos n) id new d,
    rep.same id,
    Option-cases (found id s.bookmarks),
  )
]

next_number : (z : ℤ) (n : ℕ) → z ≡ pos n → suc n ≤ 2 ^ 63 - 1 → int64 (z +ℤ pos 1) ≡ pos (suc n)
unfolding ◌+ℤ◌
next_number z n is fits = ground (arith, int64_exact (pos (suc n)))

pub post-Serves :
    (b : Bookmark) (s : State) (d : Dict ℤ Bookmark) (n : ℕ)
    → suc n ≤ 2 ^ 63 - 1
    → Represents s d n
    → Serves (posts (some b)) s d n
unfolding Serves serve serve_dict post
post-Serves b s d n fits rep = (
  ap (λ z. record { status = 201; bookmark = some (record b { id = z }) }) rep.next,
  record {
    same = λ id.
        ap (λ z. found id (s.bookmarks ++ record b { id = z } ∷ [])) rep.next
        ∙ appended-same s d n (record b { id = pos n }) id rep refl;
    next = next_number s.next_id n rep.next fits;
    unique =
        Unique-append n s.bookmarks (record b { id = s.next_id }) rep.unique rep.below rep.next;
    below = Below-append n s.bookmarks (record b { id = s.next_id }) rep.below rep.next;
  },
  omega arith,
)

pub get-Serves :
    (id : ℤ) (s : State) (d : Dict ℤ Bookmark) (n : ℕ)
    → Represents s d n
    → Serves (gets (some id)) s d n
unfolding Serves serve serve_dict get
get-Serves id s d n rep = elim (looked_up s d n id rep) [
  | inl (missing, none_there) ↦ (ground arith, rep, omega arith)
  | inr (i, b, at, is, there) ↦ (ground arith, rep, omega arith)
]

pub put_state :
    (id : ℤ) (b : Bookmark) (s : State) (d : Dict ℤ Bookmark) (n i : ℕ)
    → find_bookmark_index id s.bookmarks ≡ some i
    → b.id ≡ id
    → Represents s d n
    → Represents (record s { bookmarks = set_elem s.bookmarks i b }) (insert id b d) n
put_state id b s d n i at same rep = record {
  same =
      λ j. ground (arith, found-set_elem id j s.bookmarks i b, lookup-insert id j b d, rep.same j);
  next = rep.next;
  unique = set_elem-Unique id s.bookmarks i b at same rep.unique;
  below = set_elem-Below n id s.bookmarks i b at same rep.below;
}

pub delete_state :
    (id : ℤ) (s : State) (d : Dict ℤ Bookmark) (n i : ℕ)
    → find_bookmark_index id s.bookmarks ≡ some i
    → Represents s d n
    → Represents (record s { bookmarks = remove_elem s.bookmarks i }) (erase id d) n
delete_state id s d n i at rep = record {
  same = λ j.
      ground
        (arith, found-remove_elem id j s.bookmarks i rep.unique, lookup-erase id j d, rep.same j);
  next = rep.next;
  unique = remove_elem-Unique id s.bookmarks i at rep.unique;
  below = remove_elem-Below n s.bookmarks i rep.below;
}

pub Represents-path :
    (s t : State) (d e : Dict ℤ Bookmark) (n m : ℕ)
    → s ≡ t
    → d ≡ e
    → n ≡ m
    → Represents s d n
    → Represents t e m
Represents-path s t d e n m p q r rep = subst (λ x. x) (λ i. Represents (p i) (q i) (r i)) rep

pub start-Represents : Represents start [] 1
unfolding start found lookup Unique Below
start-Represents = record { same = λ id. refl; next = refl; unique = tt; below = tt }
