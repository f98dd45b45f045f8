-- ===== src/Bookmarks/Refinement.antt =====
-- The handlers of bookmarks-api/main.go against the dictionary.
use go_basics.Common.{
  ℕ, suc, ◌+◌, ◌-◌, ◌^◌, ◌≤◌, ◌≡◌, refl, ap, ◌∙◌, Option, none, some, List, [], ◌∷◌, length, arith,
  inl, inr,
}
use go_basics.Common.Int.{ℤ}
use go_basics.Common.Dict.{Dict, int_comparable, insert, erase}
use go_basics.Bookmarks.{Bookmark, State, start, set_elem, remove_elem, post, get, put, delete}
use go_basics.Bookmarks.Dictionary.{
  Request, posts, gets, puts, deletes, serve, replies, serve_dict, replies_dict, Represents, Serves,
  looked_up, put_state, delete_state, post-Serves, get-Serves, Represents-path, start-Represents,
}

put-Serves :
    (id : ℤ) (body : Option Bookmark) (s : State) (d : Dict ℤ Bookmark) (n : ℕ)
    → Represents s d n
    → Serves (puts (some id) body) s d n
unfolding Serves serve serve_dict put
put-Serves id none s d n rep = elim (looked_up s d n id rep) [
  | inl (missing, none_there) ↦ (
    ground arith,
    Represents-path s _ d _ n _ (ground arith) (ground arith) (ground arith) rep,
    ground arith,
  )
  | inr (i, b, at, is, there) ↦ (
    ground arith,
    Represents-path s _ d _ n _ (ground arith) (ground arith) (ground arith) rep,
    ground arith,
  )
]
put-Serves id (some b) s d n rep = elim (looked_up s d n id rep) [
  | inl (missing, none_there) ↦ (
    ground arith,
    Represents-path s _ d _ n _ (ground arith) (ground arith) (ground arith) rep,
    ground arith,
  )
  | inr (i, old, at, is, there) ↦ (
    ground arith,
    Represents-path (record s { bookmarks = set_elem s.bookmarks i (record b { id = id }) }) _
        (insert id (record b { id = id }) d) _ n _ (ground arith) (ground arith) (ground arith)
        (put_state id (record b { id = id }) s d n i at refl rep),
    ground arith,
  )
]

delete-Serves :
    (id : ℤ) (s : State) (d : Dict ℤ Bookmark) (n : ℕ)
    → Represents s d n
    → Serves (deletes (some id)) s d n
unfolding Serves serve serve_dict delete
delete-Serves id s d n rep = elim (looked_up s d n id rep) [
  | inl (missing, none_there) ↦ (
    ground arith,
    Represents-path s _ d _ n _ (ground arith) (ground arith) (ground arith) rep,
    ground arith,
  )
  | inr (i, old, at, is, there) ↦ (
    ground arith,
    Represents-path (record s { bookmarks = remove_elem s.bookmarks i }) _ (erase id d) _ n _
        (ground arith) (ground arith) (ground arith) (delete_state id s d n i at rep),
    ground arith,
  )
]

serve-Serves :
    (r : Request) (s : State) (d : Dict ℤ Bookmark) (n : ℕ)
    → suc n ≤ 2 ^ 63 - 1
    → Represents s d n
    → Serves r s d n
unfolding Serves serve serve_dict post get put delete
serve-Serves (posts none) s d n fits rep = (refl, rep, omega arith)
serve-Serves (posts (some b)) s d n fits rep = post-Serves b s d n fits rep
serve-Serves (gets none) s d n fits rep = (refl, rep, omega arith)
serve-Serves (gets (some id)) s d n fits rep = get-Serves id s d n rep
serve-Serves (puts none body) s d n fits rep = (refl, rep, omega arith)
serve-Serves (puts (some id) body) s d n fits rep = put-Serves id body s d n rep
serve-Serves (deletes none) s d n fits rep = (refl, rep, omega arith)
serve-Serves (deletes (some id)) s d n fits rep = delete-Serves id s d n rep

replies_represented :
    (rs : List Request) (s : State) (d : Dict ℤ Bookmark) (n : ℕ)
    → n + length rs ≤ 2 ^ 63 - 1
    → Represents s d n
    → replies rs s ≡ replies_dict rs (d, n)
unfolding replies replies_dict Serves
replies_represented [] s d n fits rep = refl
replies_represented (r ∷ rs) s d n fits rep =
    let (same, next, grown) = serve-Serves r s d n (omega arith) rep in
    ap (λ a. a ∷ replies rs (serve r s).1) same
    ∙ ap (λ l. (serve_dict r (d, n)).0 ∷ l)
        (replies_represented rs (serve r s).1 (serve_dict r (d, n)).1.0 (serve_dict r (d, n)).1.1
          (omega arith) next)

-- Any history of fewer than 2^63 - 1 requests gets the replies that it gets of a dictionary by id, in
-- which a POST stores under the next number, a PUT replaces and a DELETE takes away.
pub replies-dict :
    (rs : List Request) → 1 + length rs ≤ 2 ^ 63 - 1 → replies rs start ≡ replies_dict rs ([], 1)
replies-dict rs fits = replies_represented rs start [] 1 fits start-Represents
