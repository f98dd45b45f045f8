-- ===== src/GoCrud/Orders/Prices.antt =====
-- The prices of go-crud/internal/product and the totals that go-crud/internal/order makes of them.
use go_basics.Common.{
  Option, sym, ℕ, suc, none, some, List, [], ◌∷◌, ◌++◌, ◌≡◌, ◌∙◌, refl, ap, arith,
}
use go_basics.Common.Int.{ℤ, pos, ◌+ℤ◌, ◌-ℤ◌, int_beq_iff}
use go_basics.Common.Dict.{int_comparable, lookup, lookup-insert}
use go_basics.GoCrud.{Pricing, ok, Product, Item, Tables}
use go_basics.GoCrud.Orders.{ItemInput, Call, reserve}
use go_basics.GoCrud.Orders.Stock.{
  adjusted, adjust_stock-ok, reserve_cons, line_of, ok_injective, Reserved,
}

module _ (P : Pricing) where
  -- The price of a product, where there is one.
  unfoldable pub price_of : ℤ → Tables P.Price → Option P.Price
  price_of id ts = elim (lookup id ts.products) [ none ↦ none | some p ↦ some p.price ]

  abbrev line_cost : Option P.Price → ℤ → P.Price
  line_cost none quantity = P.nothing
  line_cost (some price) quantity = P.times price quantity

  -- A total, with what the items cost at the prices of the tables added in their order.
  unfoldable pub cost_from : P.Price → Tables P.Price → List ItemInput → P.Price
  cost_from total ts [] = total
  cost_from total ts (i ∷ is) =
      cost_from (P.plus total (line_cost (price_of i.product_id ts) i.quantity)) ts is

  cost_from-same :
      (ts ts' : Tables P.Price)
      → ((j : ℤ) → price_of j ts' ≡ price_of j ts)
      → (total : P.Price) (items : List ItemInput)
      → cost_from total ts' items ≡ cost_from total ts items
  unfolding cost_from
  cost_from-same ts ts' same total [] = refl
  cost_from-same ts ts' same total (i ∷ is) =
      ap (λ q. cost_from (P.plus total (line_cost q i.quantity)) ts' is) (same i.product_id)
      ∙ cost_from-same ts ts' same (P.plus total (line_cost (price_of i.product_id ts) i.quantity))
          is

  price_of-adjusted :
      (id delta j : ℤ) (p : Product P.Price) (ts : Tables P.Price)
      → lookup id ts.products ≡ some p
      → price_of j (adjusted P id delta p ts) ≡ price_of j ts
  unfolding adjusted price_of
  price_of-adjusted id delta j p ts found = ground (
    arith,
    int_beq_iff id j,
    lookup-insert id j (record p { stock = p.stock +ℤ delta }) ts.products,
  )

  price_of-found :
      (id : ℤ) (p : Product P.Price) (ts : Tables P.Price)
      → lookup id ts.products ≡ some p
      → price_of id ts ≡ some p.price
  unfolding price_of
  price_of-found id p ts found = ground arith

  cost_from-step :
      (item : ItemInput) (items : List ItemInput) (total : P.Price) (p q : Product P.Price)
      (ts ts1 : Tables P.Price)
      → lookup item.product_id ts.products ≡ some p
      → lookup item.product_id ts.products ≡ some q
      → ts1 ≡ adjusted P item.product_id (pos 0 -ℤ item.quantity) q ts
      → cost_from (P.plus total (P.times p.price item.quantity)) ts1 items
        ≡ cost_from total ts (item ∷ items)
  unfolding cost_from
  cost_from-step item items total p q ts ts1 found at same =
      ap (λ t. cost_from (P.plus total (P.times p.price item.quantity)) t items) same
      ∙ cost_from-same ts (adjusted P item.product_id (pos 0 -ℤ item.quantity) q ts)
          (λ j. price_of-adjusted item.product_id (pos 0 -ℤ item.quantity) j q ts at)
          (P.plus total (P.times p.price item.quantity)) items
      ∙ ap (λ q. cost_from (P.plus total (line_cost q item.quantity)) ts items)
          (sym (price_of-found item.product_id p ts found))

  pub reserve-total :
      (call : Call) (i : ℕ) (total : P.Price) (built : List (Item P.Price)) (ts : Tables P.Price)
      (items : List ItemInput) (r : Reserved P)
      → reserve P call i total built ts items ≡ ok r
      → r.0 ≡ cost_from total ts items
  unfolding reserve cost_from
  reserve-total call i total built ts [] r h = sym (ap (λ (q : Reserved P). q.0) (ok_injective P h))
  reserve-total call i total built ts (item ∷ items) r h =
      let (p, ts1, found, done, rest) = reserve_cons P call i total built ts item items r h in
      let (q, at, enough, same) =
        adjust_stock-ok P (call.adjust_fails i) item.product_id (pos 0 -ℤ item.quantity) ts ts1
          done in
      reserve-total call (suc i) (P.plus total (P.times p.price item.quantity))
        (built ++ line_of P call item p ∷ []) ts1 items r rest
      ∙ cost_from-step item items total p q ts ts1 found at same
