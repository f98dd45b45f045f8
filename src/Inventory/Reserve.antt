-- ===== src/Inventory/Reserve.antt =====
-- Reservations of 62_grpc/server.go, over streams that share the store.
use mathlib.Core.Path.{subst}
use go_basics.Common.{
  ℕ, ◌+◌, ◌-◌, ◌^◌, ◌≤◌, ◌≡◌, ◌≢◌, refl, ap, sym, ◌∙◌, Bool, true, false, ◌&&◌, String, none, some,
  List, [], ◌∷◌, arith, str_eq, eq_iff, if◌then◌else◌, Option-cases, Bool-cases, ltb, leb, ◌||◌,
  ◌⊎◌, inl, inr,
}
use go_basics.Common.Int.{ℤ, pos, negsuc, pos_part, ◌-ℤ◌, int32, int32_exact}
use go_basics.Common.Dict.{
  Dict, string_comparable, nat_comparable, lookup, insert, lookup-insert, lookup-insert_self,
}
use go_basics.Inventory.{
  Product, Products, ReserveRequest, ReserveResponse, Seen, reserve, reserve_message,
}

-- The store and what each open stream has answered, by the stream's number.
pub record Server : Type 0 where
  pub streams : Dict ℕ Seen
  pub products : Products

unfoldable pub seen_by : ℕ → Server → Seen
seen_by stream s = elim (lookup stream s.streams) [ none ↦ [] | some seen ↦ seen ]

-- A message that a stream receives, with the instant.
pub record Message : Type 0 where
  pub stream : ℕ
  pub at : ℕ
  pub request : ReserveRequest

unfoldable pub answer : Message → Server → ReserveResponse
answer m s = (reserve_message m.at m.request (seen_by m.stream s) s.products).0

unfoldable pub after : Message → Server → Server
after m s =
    let (resp, (seen, ps)) = reserve_message m.at m.request (seen_by m.stream s) s.products in
    record { streams = insert m.stream seen s.streams; products = ps }

unfoldable pub after_all : List Message → Server → Server
after_all [] s = s
after_all (m ∷ ms) s = after_all ms (after m s)

-- Whether a message is a repetition, which its stream has answered.
unfoldable pub is_repeated : Message → Server → Bool
is_repeated m s =
    if str_eq m.request.idempotency_key ""
    then false
    else elim (lookup m.request.idempotency_key (seen_by m.stream s)) [
      | none ↦ false
      | some r ↦ true
    ]

-- What a message takes of a product: its quantity, where it is not a repetition and is granted.
unfoldable pub takes : String → Message → Server → ℕ
takes id m s =
    if is_repeated m s
    then 0
    else if str_eq m.request.product_id id && (reserve m.at m.request s.products).0.ok
    then pos_part m.request.quantity
    else 0

unfoldable pub taken : String → List Message → Server → ℕ
taken id [] s = 0
taken id (m ∷ ms) s = takes id m s + taken id ms (after m s)

-- A product has so much in stock.
unfoldable pub HasStock : String → ℕ → Products → Type 0
HasStock id n ps = (p : Product) × (lookup id ps ≡ some p) × (p.stock ≡ pos n) × (n ≤ 2 ^ 31 - 1)

ℤ-cases : (z : ℤ) → ((n : ℕ) × (z ≡ pos n)) ⊎ ((n : ℕ) × (z ≡ negsuc n))
ℤ-cases (pos n) = inl (n, refl)
ℤ-cases (negsuc n) = inr (n, refl)

reserve_other :
    (id : String) (now : ℕ) (req : ReserveRequest) (ps : Products)
    → req.product_id ≢ id
    → lookup id (reserve now req ps).1 ≡ lookup id ps
unfolding reserve
reserve_other id now req ps differ = elim (Option-cases (lookup req.product_id ps)) [
  | inl missing ↦ ground arith
  | inr (p, found) ↦ ground (
    arith,
    eq_iff req.product_id id,
    lookup-insert req.product_id id
        (record p { stock = int32 (p.stock -ℤ req.quantity); updated_at = now }) ps,
  )
]

-- Of a product with `n` in stock, a reservation is refused and changes nothing, or takes its quantity.
reserve_same :
    (n now : ℕ) (req : ReserveRequest) (ps : Products) (p : Product)
    → lookup req.product_id ps ≡ some p
    → p.stock ≡ pos n
    → n ≤ 2 ^ 31 - 1
    → (((reserve now req ps).0.ok ≡ false) × ((reserve now req ps).1 ≡ ps))
      ⊎ ((q : ℕ) × (req.quantity ≡ pos q)
          × (q ≤ n)
          × ((reserve now req ps).0.ok ≡ true)
          × ((reserve now req ps).1
              ≡ insert req.product_id (record p { stock = pos (n - q); updated_at = now }) ps))
unfolding reserve ◌-ℤ◌
reserve_same n now req ps p found has fits = elim (ℤ-cases req.quantity) [
  | inr (k, negative) ↦ inl (ground arith, ground arith)
  | inl (q, same) ↦ elim (Bool-cases (leb q 0 || ltb n q)) [
    | inl refused ↦ inl (ground arith, ground arith)
    | inr granted ↦ inr (q, same, ground arith, ground arith, ground (arith, int32_exact (n - q)))
  ]
]

HasStock-path :
    (id : String) (n : ℕ) (ps qs : Products)
    → lookup id qs ≡ lookup id ps
    → HasStock id n ps
    → HasStock id n qs
unfolding HasStock
HasStock-path id n ps qs same (p, found, has, fits) = (p, same ∙ found, has, fits)

HasStock-insert :
    (id : String) (m now : ℕ) (p : Product) (ps : Products)
    → m ≤ 2 ^ 31 - 1
    → HasStock id m (insert id (record p { stock = pos m; updated_at = now }) ps)
unfolding HasStock
HasStock-insert id m now p ps fits = (
  record p { stock = pos m; updated_at = now },
  lookup-insert_self id (record p { stock = pos m; updated_at = now }) ps,
  refl,
  fits,
)

-- What a reservation takes of a product.
abbrev grant : String → ReserveRequest → Bool → ℕ
grant id req granted = if str_eq req.product_id id && granted then pos_part req.quantity else 0

reserve-HasStock_same :
    (n now : ℕ) (req : ReserveRequest) (ps : Products)
    → HasStock req.product_id n ps
    → (m : ℕ) × (m + grant req.product_id req (reserve now req ps).0.ok ≡ n)
      × HasStock req.product_id m (reserve now req ps).1
unfolding HasStock
reserve-HasStock_same n now req ps (p, found, has, fits) =
    elim (reserve_same n now req ps p found has fits) [
      | inl (refused, same) ↦ (
        n,
        ground arith,
        HasStock-path req.product_id n ps _ (ap (lookup req.product_id) same) (p, found, has, fits),
      )
      | inr (q, quantity, enough, granted, stored) ↦ (
        n - q,
        ground (arith, eq_iff req.product_id req.product_id),
        HasStock-path req.product_id (n - q)
            (insert req.product_id (record p { stock = pos (n - q); updated_at = now }) ps) _
            (ap (lookup req.product_id) stored)
            (HasStock-insert req.product_id (n - q) now p ps (omega arith)),
      )
    ]

reserve-HasStock :
    (id : String) (n now : ℕ) (req : ReserveRequest) (ps : Products)
    → HasStock id n ps
    → (m : ℕ) × (m + grant id req (reserve now req ps).0.ok ≡ n)
      × HasStock id m (reserve now req ps).1
reserve-HasStock id n now req ps has = elim (Bool-cases (str_eq req.product_id id)) [
  | inl here ↦
      subst
        (λ i.
          (m : ℕ) × (m + grant i req (reserve now req ps).0.ok ≡ n)
          × HasStock i m (reserve now req ps).1)
        ((eq_iff req.product_id id).0 here)
        (reserve-HasStock_same n now req ps
          (subst (λ i. HasStock i n ps) (sym ((eq_iff req.product_id id).0 here)) has))
  | inr there ↦ (
    n,
    ground arith,
    HasStock-path id n ps _
        (reserve_other id now req ps (λ e. ground (arith, eq_iff req.product_id id))) has,
  )
]

after_repeated :
    (m : Message) (s : Server) → is_repeated m s ≡ true → (after m s).products ≡ s.products
unfolding is_repeated after reserve_message
after_repeated m s again =
    elim (Option-cases (lookup m.request.idempotency_key (seen_by m.stream s))) [
      | inl missing ↦ absurd (ground arith)
      | inr (r, found) ↦ ground arith
    ]

after_fresh :
    (m : Message) (s : Server)
    → is_repeated m s ≡ false
    → (after m s).products ≡ (reserve m.at m.request s.products).1
unfolding is_repeated after reserve_message
after_fresh m s fresh =
    elim (Option-cases (lookup m.request.idempotency_key (seen_by m.stream s))) [
      | inl missing ↦ ground arith
      | inr (r, found) ↦ ground arith
    ]

takes_repeated :
    (id : String) (m : Message) (s : Server) → is_repeated m s ≡ true → takes id m s ≡ 0
unfolding takes
takes_repeated id m s again = ground arith

takes_fresh :
    (id : String) (m : Message) (s : Server)
    → is_repeated m s ≡ false
    → takes id m s ≡ grant id m.request (reserve m.at m.request s.products).0.ok
unfolding takes
takes_fresh id m s fresh = ground arith

step-HasStock :
    (id : String) (n : ℕ) (m : Message) (s : Server)
    → HasStock id n s.products
    → (k : ℕ) × (k + takes id m s ≡ n) × HasStock id k (after m s).products
step-HasStock id n m s has = elim (Bool-cases (is_repeated m s)) [
  | inl again ↦ (
    n,
    ground (arith, takes_repeated id m s again),
    HasStock-path id n s.products _ (ap (lookup id) (after_repeated m s again)) has,
  )
  | inr fresh ↦
      let (k, sum, keeps) = reserve-HasStock id n m.at m.request s.products has in
      (
        k,
        ground (arith, takes_fresh id m s fresh),
        HasStock-path id k (reserve m.at m.request s.products).1 _
            (ap (lookup id) (after_fresh m s fresh)) keeps,
      )
]

-- From a product's stock of 0 to 2^31 - 1, along any messages of any streams: the product stays, its
-- stock stays at 0 or above, and with what the granted messages that are no repetitions took of it, it
-- is what it was.
pub taken-stock :
    (id : String) (ms : List Message) (n : ℕ) (s : Server)
    → HasStock id n s.products
    → (k : ℕ) × (k + taken id ms s ≡ n) × HasStock id k (after_all ms s).products
unfolding taken after_all
taken-stock id [] n s has = (n, omega arith, has)
taken-stock id (m ∷ ms) n s has =
    let (k, sum, keeps) = step-HasStock id n m s has in
    let (j, total, ends) = taken-stock id ms k (after m s) keeps in (j, omega arith, ends)
