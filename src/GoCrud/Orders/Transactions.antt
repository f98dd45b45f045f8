-- ===== src/GoCrud/Orders/Transactions.antt =====
-- What the transaction of go-crud/internal/order/repository.go leaves behind.
use go_basics.Common.{
  ℕ, suc, Bool, true, false, some, List, [], ◌∷◌, ◌≡◌, refl, sym, ap, ◌∙◌, ◌⊎◌, inl, inr, arith,
  Option-cases, if◌then◌else◌,
}
use mathlib.Core.Path.{subst}
use go_basics.Common.Int.{ℤ, pos, ◌+ℤ◌, ◌≤ℤ◌}
use go_basics.Common.Dict.{int_comparable, lookup, insert, lookup-insert_self}
use go_basics.GoCrud.{Pricing, Error, no_items, database, Result, ok, err, Item, Tables}
use go_basics.GoCrud.Orders.{
  ItemInput, Call, Commit, committed, rolled_back, reply_lost, Made, reserve, insert_items, pending,
  statements, close, create_row,
}
use go_basics.GoCrud.Orders.Stock.{stock_of, IsStocked, ordered, Keeps, Result-cases, reserve-Keeps}
use go_basics.GoCrud.Orders.Prices.{cost_from, reserve-total}

module _ (P : Pricing) where
  -- The products of the tables are the same.
  insert_items-ok :
      (call : Call) (i : ℕ) (built : List (Item P.Price)) (ts ts' : Tables P.Price)
      → insert_items P call i built ts ≡ ok ts'
      → (ts'.products ≡ ts.products) × (ts'.users ≡ ts.users) × (ts'.orders ≡ ts.orders)
  unfolding insert_items
  insert_items-ok call i [] ts ts' h = ground arith
  insert_items-ok call i (item ∷ items) ts ts' h = ground (
    arith,
    insert_items-ok call (suc i) items
        (record ts { items = insert (call.item_ids i) item ts.items }) ts',
  )

  -- What a transaction that goes through does: the stock of each product goes down by what is
  -- ordered of it, no stock becomes negative, and the order is there, pending, under its id, with the
  -- items' cost, as the column stores it, for its total.
  unfoldable pub Sells : Call → ℤ → List ItemInput → Tables P.Price → Tables P.Price → Type 0
  Sells call user_id items ts ts' =
      ((id : ℤ) → stock_of P id ts' +ℤ ordered P id items ≡ stock_of P id ts)
      × (IsStocked P ts → IsStocked P ts')
      × ((total : P.Price) × (P.column (cost_from P P.nothing ts items) ≡ some total)
          × (lookup call.order_id ts'.orders ≡ some (pending P call user_id total)))

  statements-ok :
      (call : Call) (user_id : ℤ) (items : List ItemInput) (ts ts' : Tables P.Price) (o : Made P)
      → statements P call user_id items ts ≡ ok (o, ts')
      → (total stored : P.Price) × (built : List (Item P.Price)) × (ts1 : Tables P.Price) × (reserve
            P call 0 P.nothing [] ts items
          ≡ ok (total, built, ts1))
        × (insert_items P call 0 built (record ts1 {
          orders = insert call.order_id (pending P call user_id stored) ts1.orders;
        })
            ≡ ok ts')
        × (P.column total ≡ some stored)
  unfolding statements
  statements-ok call user_id items ts ts' o h =
      elim (Result-cases P (reserve P call 0 P.nothing [] ts items)) [
        | inl (e, failed) ↦ ground arith
        | inr ((total, built, ts1), done) ↦ elim (Option-cases (P.column total)) [
          | inl none_stored ↦ ground arith
          | inr (stored, kept) ↦
              elim (Result-cases P (
                insert_items P call 0 built (record ts1 {
                  orders = insert call.order_id (pending P call user_id stored) ts1.orders;
                }))) [
                  | inl (e, failed) ↦ ground arith
                  | inr (ts2, rows) ↦ (total, stored, built, ts1, done, ground arith, kept)
                ]
        ]
      ]

  stock_of-same :
      (id : ℤ) (ts ts' : Tables P.Price)
      → ts'.products ≡ ts.products
      → stock_of P id ts' ≡ stock_of P id ts
  unfolding stock_of
  stock_of-same id ts ts' h = ground arith

  statements-Sells :
      (call : Call) (user_id : ℤ) (items : List ItemInput) (ts ts' : Tables P.Price) (o : Made P)
      → statements P call user_id items ts ≡ ok (o, ts')
      → Sells call user_id items ts ts'
  unfolding Sells Keeps IsStocked
  statements-Sells call user_id items ts ts' o h =
      let (total, stored, built, ts1, done, rows, kept) =
        statements-ok call user_id items ts ts' o h in
      let (stock, sound, us, os, is) =
        reserve-Keeps P call 0 P.nothing [] ts items (total, built, ts1) done in
      let made = record ts1 {
        orders = insert call.order_id (pending P call user_id stored) ts1.orders;
      } in
      let (same, us', os') = insert_items-ok call 0 built made ts' rows in
      (
        (λ id. ap (λ z. z +ℤ ordered P id items) (stock_of-same id ts1 ts' same) ∙ stock id),
        (λ h id. subst (λ z. pos 0 ≤ℤ z) (sym (stock_of-same id ts1 ts' same)) (sound h id)),
        (
          stored,
          subst (λ t. P.column t ≡ some stored)
              (reserve-total P call 0 P.nothing [] ts items (total, built, ts1) done) kept,
          ap (λ os. lookup call.order_id os) os'
              ∙ lookup-insert_self call.order_id (pending P call user_id stored) ts1.orders,
        ),
      )

  -- A call's outcome, from the tables `ts`: an order, committed and sold; or an error, with the tables
  -- as they were, unless the reply to the commit was lost.
  unfoldable pub Settled :
      Call → ℤ → List ItemInput → Tables P.Price → Result (Made P) × Tables P.Price → Type 0
  Settled call user_id items ts (r, ts') =
      ((o : Made P) × (r ≡ ok o) × (call.commit ≡ committed) × Sells call user_id items ts ts')
      ⊎ ((e : Error) × (r ≡ err e)
          × ((ts' ≡ ts)
              ⊎ ((call.commit ≡ reply_lost) × (e ≡ database) × Sells call user_id items ts ts')))

  close-Settled :
      (call : Call) (user_id : ℤ) (items : List ItemInput) (ts : Tables P.Price) (c : Commit)
      (s : Result (Made P × Tables P.Price))
      → call.commit ≡ c
      → statements P call user_id items ts ≡ s
      → Settled call user_id items ts (close P c s ts)
  unfolding Settled close
  close-Settled call user_id items ts c (err e) same h = inr (e, refl, inl refl)
  close-Settled call user_id items ts committed (ok (o, ts')) same h =
      inl (o, refl, same, statements-Sells call user_id items ts ts' o h)
  close-Settled call user_id items ts reply_lost (ok (o, ts')) same h =
      inr (database, refl, inr (same, refl, statements-Sells call user_id items ts ts' o h))
  close-Settled call user_id items ts rolled_back (ok (o, ts')) same h =
      inr (database, refl, inl refl)

  sold_nothing :
      (call : Call) (user_id : ℤ) (ts : Tables P.Price)
      → Settled call user_id [] ts (err no_items, ts)
  unfolding Settled
  sold_nothing call user_id ts = inr (no_items, refl, inl refl)

  if-Settled :
      (b : Bool) (call : Call) (user_id : ℤ) (items : List ItemInput) (ts : Tables P.Price)
      (a : Result (Made P) × Tables P.Price)
      → Settled call user_id items ts a
      → Settled call user_id items ts (if b then (err database, ts) else a)
  unfolding Settled
  if-Settled true call user_id items ts a h = inr (database, refl, inl refl)
  if-Settled false call user_id items ts a h = h

  -- A call of Create that returns an order has been committed, and one that returns an error has left
  -- the tables as they were, unless the reply to its commit was lost. A transaction that is kept takes
  -- what is ordered of each product from its stock, makes no stock negative that was not, and leaves
  -- the order there, pending, under its id, with the items' cost at their prices for its total, as the
  -- column stores it.
  pub create_row-Settled :
      (call : Call) (user_id : ℤ) (items : List ItemInput) (ts : Tables P.Price)
      → Settled call user_id items ts (create_row P call user_id items ts)
  unfolding create_row
  create_row-Settled call user_id [] ts = sold_nothing call user_id ts
  create_row-Settled call user_id (item ∷ items) ts =
      if-Settled call.begin_fails call user_id (item ∷ items) ts
        (close P call.commit (statements P call user_id (item ∷ items) ts) ts)
        (close-Settled call user_id (item ∷ items) ts call.commit
          (statements P call user_id (item ∷ items) ts) refl refl)
