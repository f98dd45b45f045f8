-- ===== src/GoCrud/Orders/Stock.antt =====
-- The stock of go-crud/internal/product under the operations of go-crud/internal/order.
use go_basics.Common.{
  ℕ, suc, Bool, none, some, List, [], ◌∷◌, ◌++◌, ◌≡◌, refl, ap, ◌⊎◌, inl, inr, arith, Option-cases,
  if◌then◌else◌,
}
use mathlib.Core.Path.{subst}
use go_basics.Common.Int.{
  ℤ, pos, negsuc, ◌+ℤ◌, ◌-ℤ◌, ◌≤ℤ◌, int_beq, int_beq_iff, eq_of_parts, +ℤ_parts, -ℤ_parts, pos_part,
  neg_part,
}
use go_basics.Common.Dict.{int_comparable, lookup, insert, lookup-insert}
use go_basics.GoCrud.{Pricing, Error, Result, ok, err, Product, Item, Tables}
use go_basics.GoCrud.Products.{adjust_stock}
use go_basics.GoCrud.Orders.{ItemInput, Call, reserve}

-- What is left plus what is ordered, where a quantity moves from one to the other.
moved :
    (left later quantity before : ℤ)
    → left +ℤ later ≡ before +ℤ (pos 0 -ℤ quantity)
    → left +ℤ (quantity +ℤ later) ≡ before
moved left later quantity before h = eq_of_parts (left +ℤ (quantity +ℤ later)) before (
    omega (
      arith,
      +ℤ_parts left (quantity +ℤ later),
      +ℤ_parts quantity later,
      +ℤ_parts left later,
      +ℤ_parts before (pos 0 -ℤ quantity),
      -ℤ_parts (pos 0) quantity,
      ap pos_part h,
      ap neg_part h,
    ))

add_nothing : (z : ℤ) → z +ℤ pos 0 ≡ z
unfolding ◌+ℤ◌
add_nothing (pos n) = ground arith
add_nothing (negsuc n) = ground arith

module _ (P : Pricing) where
  -- The stock of a product, 0 where there is none.
  unfoldable pub stock_of : ℤ → Tables P.Price → ℤ
  stock_of id ts = elim (lookup id ts.products) [ none ↦ pos 0 | some p ↦ p.stock ]

  -- No product's stock is negative.
  unfoldable pub IsStocked : Tables P.Price → Type 0
  IsStocked ts = (id : ℤ) → pos 0 ≤ℤ stock_of id ts

  -- What a list of items orders of a product.
  unfoldable pub ordered : ℤ → List ItemInput → ℤ
  ordered id [] = pos 0
  ordered id (i ∷ is) =
      let rest = ordered id is in if int_beq i.product_id id then i.quantity +ℤ rest else rest

  unfoldable pub adjusted : ℤ → ℤ → Product P.Price → Tables P.Price → Tables P.Price
  adjusted id delta p ts = record ts {
    products = insert id (record p { stock = p.stock +ℤ delta }) ts.products;
  }

  pub adjust_stock-ok :
      (fails : Bool) (id delta : ℤ) (ts ts' : Tables P.Price)
      → adjust_stock P fails id delta ts ≡ ok ts'
      → (p : Product P.Price) × (lookup id ts.products ≡ some p)
        × (pos 0 ≤ℤ p.stock +ℤ delta)
        × (ts' ≡ adjusted id delta p ts)
  unfolding adjust_stock adjusted
  adjust_stock-ok fails id delta ts ts' h = elim (Option-cases (lookup id ts.products)) [
    | inl missing ↦ ground arith
    | inr (p, found) ↦ (p, found, ground arith, ground arith)
  ]

  stock_of-adjusted :
      (id delta j : ℤ) (p : Product P.Price) (ts : Tables P.Price)
      → lookup id ts.products ≡ some p
      → stock_of j (adjusted id delta p ts)
        ≡ (if int_beq id j then stock_of j ts +ℤ delta else stock_of j ts)
  unfolding adjusted stock_of
  stock_of-adjusted id delta j p ts found = ground (
    arith,
    int_beq_iff id j,
    lookup-insert id j (record p { stock = p.stock +ℤ delta }) ts.products,
  )

  pub Result-cases :
      {A : Type 0} (r : Result A) → ((e : Error) × (r ≡ err e)) ⊎ ((a : A) × (r ≡ ok a))
  Result-cases (err e) = inl (e, refl)
  Result-cases (ok a) = inr (a, refl)

  -- What the loop has when it is done: the total, the built items and the tables.
  abbrev pub Reserved : Type 0
  Reserved = P.Price × List (Item P.Price) × Tables P.Price

  pub line_of : Call → ItemInput → Product P.Price → Item P.Price
  line_of call item p = record {
    order_id = call.order_id;
    product_id = item.product_id;
    quantity = item.quantity;
    unit_price = p.price;
  }

  pub reserve_cons :
      (call : Call) (i : ℕ) (total : P.Price) (built : List (Item P.Price)) (ts : Tables P.Price)
      (item : ItemInput) (items : List ItemInput) (r : Reserved)
      → reserve P call i total built ts (item ∷ items) ≡ ok r
      → (p : Product P.Price) × (ts1 : Tables P.Price) × (lookup item.product_id ts.products
          ≡ some p)
        × (adjust_stock P (call.adjust_fails i) item.product_id (pos 0 -ℤ item.quantity) ts
            ≡ ok ts1)
        × (reserve P call
              (suc i)
              (P.plus total (P.times p.price item.quantity))
              (built ++ line_of call item p ∷ [])
              ts1
              items
            ≡ ok r)
  unfolding reserve line_of
  reserve_cons call i total built ts item items r h =
      elim (Option-cases (lookup item.product_id ts.products)) [
        | inl missing ↦ ground arith
        | inr (p, found) ↦
            elim (Result-cases
              (adjust_stock P (call.adjust_fails i) item.product_id (pos 0 -ℤ item.quantity) ts)) [
                | inl (e, failed) ↦ ground arith
                | inr (ts1, done) ↦ (p, ts1, found, done, ground arith)
              ]
      ]

  -- What `reserve` does to the tables: each product's stock goes down by what is ordered of it.
  unfoldable pub Keeps : List ItemInput → Tables P.Price → Tables P.Price → Type 0
  Keeps items ts ts' =
      ((id : ℤ) → stock_of id ts' +ℤ ordered id items ≡ stock_of id ts)
      × (IsStocked ts → IsStocked ts')
      × (ts'.users ≡ ts.users)
      × (ts'.orders ≡ ts.orders)
      × (ts'.items ≡ ts.items)

  -- A step and the rest of the loop, for the stock of one product.
  stock_step :
      (item : ItemInput) (items : List ItemInput) (id : ℤ) (p : Product P.Price)
      (ts ts' : Tables P.Price)
      → lookup item.product_id ts.products ≡ some p
      → stock_of id ts' +ℤ ordered id items
        ≡ stock_of id (adjusted item.product_id (pos 0 -ℤ item.quantity) p ts)
      → stock_of id ts' +ℤ ordered id (item ∷ items) ≡ stock_of id ts
  unfolding ordered
  stock_step item items id p ts ts' found h = ground (
    arith,
    stock_of-adjusted item.product_id (pos 0 -ℤ item.quantity) id p ts found,
    moved (stock_of id ts') (ordered id items) item.quantity (stock_of id ts),
  )

  stock_of-found :
      (id : ℤ) (p : Product P.Price) (ts : Tables P.Price)
      → lookup id ts.products ≡ some p
      → stock_of id ts ≡ p.stock
  unfolding stock_of
  stock_of-found id p ts found = ground arith

  adjusted-IsStocked :
      (id delta : ℤ) (p : Product P.Price) (ts : Tables P.Price)
      → lookup id ts.products ≡ some p
      → pos 0 ≤ℤ p.stock +ℤ delta
      → IsStocked ts
      → IsStocked (adjusted id delta p ts)
  unfolding IsStocked
  adjusted-IsStocked id delta p ts found enough sound j = ground (
    arith,
    stock_of-adjusted id delta j p ts found,
    int_beq_iff id j,
    stock_of-found id p ts found,
    sound j,
  )

  pub ok_injective : {A : Type 0} {a b : A} → ok a ≡ ok b → a ≡ b
  ok_injective h = ground arith

  Keeps-nil : (ts : Tables P.Price) → Keeps [] ts ts
  unfolding Keeps ordered
  Keeps-nil ts = ((λ id. add_nothing (stock_of id ts)), (λ h. h), refl, refl, refl)

  Keeps-cons :
      (item : ItemInput) (items : List ItemInput) (p : Product P.Price) (ts ts' : Tables P.Price)
      → lookup item.product_id ts.products ≡ some p
      → pos 0 ≤ℤ p.stock +ℤ (pos 0 -ℤ item.quantity)
      → Keeps items (adjusted item.product_id (pos 0 -ℤ item.quantity) p ts) ts'
      → Keeps (item ∷ items) ts ts'
  unfolding Keeps adjusted
  Keeps-cons item items p ts ts' found enough (stock, sound, us, os, is) = (
    (λ id. stock_step item items id p ts ts' found (stock id)),
    (λ h. sound (adjusted-IsStocked item.product_id (pos 0 -ℤ item.quantity) p ts found enough h)),
    us,
    os,
    is,
  )

  pub reserve-Keeps :
      (call : Call) (i : ℕ) (total : P.Price) (built : List (Item P.Price)) (ts : Tables P.Price)
      (items : List ItemInput) (r : Reserved)
      → reserve P call i total built ts items ≡ ok r
      → Keeps items ts r.2
  unfolding reserve Keeps ordered
  reserve-Keeps call i total built ts [] r h =
      subst (λ (q : Reserved). Keeps [] ts q.2) (ok_injective h) (Keeps-nil ts)
  reserve-Keeps call i total built ts (item ∷ items) r h =
      let (p, ts1, found, done, rest) = reserve_cons call i total built ts item items r h in
      let (q, at, enough, same) =
        adjust_stock-ok (call.adjust_fails i) item.product_id (pos 0 -ℤ item.quantity) ts ts1
          done in
      Keeps-cons item items q ts r.2 at enough (
        subst (λ t. Keeps items t r.2) same
          (reserve-Keeps call (suc i) (P.plus total (P.times p.price item.quantity))
            (built ++ line_of call item p ∷ []) ts1 items r rest))
