-- ===== src/GoCrud/Orders/Histories.antt =====
-- Histories of requests to go-crud/internal/product and go-crud/internal/order.
use go_basics.Common.{
  ℕ, Bool, ◌||◌, ◌&&◌, not, String, List, [], ◌∷◌, ◌≡◌, sym, ◌⊎◌, inl, inr, arith, Option-cases,
  Bool-cases,
}
use mathlib.Core.Path.{subst}
use go_basics.Common.Int.{ℤ, pos, ◌≤ℤ◌}
use go_basics.Common.Dict.{int_comparable, lookup, insert, erase, lookup-insert, lookup-erase}
use go_basics.GoCrud.{Pricing, ok, Product, Tables}
use go_basics.GoCrud.Products
use go_basics.GoCrud.Products.{fits_integer, any_of, row_of, update_row}
use go_basics.GoCrud.Orders
use go_basics.GoCrud.Orders.{ItemInput, Call, Made, create_row}
use go_basics.GoCrud.Orders.Stock.{stock_of, IsStocked, Result-cases}
use go_basics.GoCrud.Orders.Transactions.{Settled, Sells, create_row-Settled}

module _ (P : Pricing) where
  -- A request that changes the tables, with what the database does in it.
  pub data Request : Type 0 where
    create_product : Bool → ℤ → ℕ → String → P.Price → ℤ → Request
    update_product : Bool → Bool → ℤ → String → P.Price → ℤ → Request
    delete_product : Bool → ℤ → Request
    create_order : Bool → Call → ℤ → List ItemInput → Request
    change_status : Bool → Bool → ℤ → String → Request
    delete_order : Bool → ℤ → Request

  unfoldable pub serve : Request → Tables P.Price → Tables P.Price
  serve (create_product fails id at name price stock) ts =
      (Products.create P fails id at name price stock ts).1
  serve (update_product fails get_fails id name price stock) ts =
      (Products.update P fails get_fails id name price stock ts).1
  serve (delete_product fails id) ts = (Products.delete P fails id ts).1
  serve (create_order fails call user_id items) ts =
      (Orders.create P fails (λ t. t) call user_id items ts).1
  serve (change_status fails get_fails id st) ts =
      (Orders.update_status P fails get_fails id st ts).1
  serve (delete_order fails id) ts = (Orders.delete P fails id ts).1

  unfoldable pub serve_all : List Request → Tables P.Price → Tables P.Price
  serve_all [] ts = ts
  serve_all (r ∷ rs) ts = serve_all rs (serve r ts)

  row_of-stock :
      (name : String) (price : P.Price) (stock : ℤ) (at : ℕ) (p : Product P.Price)
      → row_of P name price stock at ≡ ok p
      → pos 0 ≤ℤ p.stock
  unfolding row_of
  row_of-stock name price stock at p h = ground arith

  insert-IsStocked :
      (id : ℤ) (p : Product P.Price) (ts : Tables P.Price)
      → pos 0 ≤ℤ p.stock
      → IsStocked P ts
      → IsStocked P (record ts { products = insert id p ts.products })
  unfolding IsStocked stock_of
  insert-IsStocked id p ts h sound j = ground (arith, lookup-insert id j p ts.products, sound j)

  erase-IsStocked :
      (id : ℤ) (ts : Tables P.Price)
      → IsStocked P ts
      → IsStocked P (record ts { products = erase id ts.products })
  unfolding IsStocked stock_of
  erase-IsStocked id ts sound j = ground (arith, lookup-erase id j ts.products, sound j)

  -- The tables after a write of products: as they were, with a row written, or with one erased.
  Written : Tables P.Price → Tables P.Price → Type 0
  Written ts ts' =
      (ts' ≡ ts)
      ⊎ (((id : ℤ) × (p : Product P.Price) × (pos 0 ≤ℤ p.stock)
            × (ts' ≡ record ts { products = insert id p ts.products }))
          ⊎ ((id : ℤ) × (ts' ≡ record ts { products = erase id ts.products })))

  Written-IsStocked : (ts ts' : Tables P.Price) → Written ts ts' → IsStocked P ts → IsStocked P ts'
  unfolding Written
  Written-IsStocked ts ts' (inl same) sound = subst (IsStocked P) (sym same) sound
  Written-IsStocked ts ts' (inr (inl (id, p, h, same))) sound =
      subst (IsStocked P) (sym same) (insert-IsStocked id p ts h sound)
  Written-IsStocked ts ts' (inr (inr (id, same))) sound =
      subst (IsStocked P) (sym same) (erase-IsStocked id ts sound)

  create_product-Written :
      (fails : Bool) (id : ℤ) (at : ℕ) (name : String) (price : P.Price) (stock : ℤ)
      (ts : Tables P.Price)
      → Written ts (Products.create P fails id at name price stock ts).1
  unfolding Products.create Written
  create_product-Written fails id at name price stock ts =
      elim (Result-cases P (row_of P name price stock at)) [
        | inl (e, refused) ↦ inl (ground arith)
        | inr (p, row) ↦ elim (Bool-cases (Products.is_invalid P name price stock || fails)) [
          | inl stays ↦ inl (ground arith)
          | inr goes ↦ inr (inl (id, p, row_of-stock name price stock at p row, (ground arith)))
        ]
      ]

  update_product-Written :
      (fails get_fails : Bool) (id : ℤ) (name : String) (price : P.Price) (stock : ℤ)
      (ts : Tables P.Price)
      → Written ts (Products.update P fails get_fails id name price stock ts).1
  unfolding Products.update Written update_row
  update_product-Written fails get_fails id name price stock ts =
      elim (Option-cases (lookup id ts.products)) [
        | inl missing ↦ inl (ground arith)
        | inr (old, found) ↦ elim (Result-cases P (row_of P name price stock old.created_at)) [
          | inl (e, refused) ↦ inl (ground arith)
          | inr (p, row) ↦
              elim (Bool-cases (
                Products.is_invalid P name price stock
                || (fails || not (fits_integer id && fits_integer stock)))) [
                  | inl stays ↦ inl (ground arith)
                  | inr goes ↦ inr (
                      inl (id, p, row_of-stock name price stock old.created_at p row, ground arith))
                ]
        ]
      ]

  delete_product-Written :
      (fails : Bool) (id : ℤ) (ts : Tables P.Price) → Written ts (Products.delete P fails id ts).1
  unfolding Products.delete Written
  delete_product-Written fails id ts = elim (Option-cases (lookup id ts.products)) [
    | inl missing ↦ inl (ground arith)
    | inr (p, found) ↦
        elim (Bool-cases (
          (fails || not (fits_integer id))
          || any_of (λ i. int_comparable.beq i.1.product_id id) ts.items)) [
            | inl stays ↦ inl (ground arith)
            | inr goes ↦ inr (inr (id, ground arith))
          ]
  ]

  create_row-IsStocked :
      (call : Call) (user_id : ℤ) (items : List ItemInput) (ts : Tables P.Price)
      → IsStocked P ts
      → IsStocked P (create_row P call user_id items ts).1
  unfolding Settled Sells
  create_row-IsStocked call user_id items ts sound =
      elim (create_row-Settled P call user_id items ts) [
        | inl (o, made, kept, sells) ↦ sells.1 sound
        | inr (e, failed, inl same) ↦ subst (IsStocked P) (sym same) sound
        | inr (e, failed, inr (lost, text, sells)) ↦ sells.1 sound
      ]

  create_order-cases :
      (user_fails : Bool) (call : Call) (user_id : ℤ) (items : List ItemInput) (ts : Tables P.Price)
      → let ts' = (Orders.create P user_fails (λ t. t) call user_id items ts).1 in
        (ts' ≡ ts) ⊎ (ts' ≡ (create_row P call user_id items ts).1)
  unfolding Orders.create
  create_order-cases user_fails call user_id items ts = ground arith

  update_status-products :
      (fails get_fails : Bool) (id : ℤ) (st : String) (ts : Tables P.Price)
      → (Orders.update_status P fails get_fails id st ts).1.products ≡ ts.products
  unfolding Orders.update_status
  update_status-products fails get_fails id st ts = ground arith

  delete_order-products :
      (fails : Bool) (id : ℤ) (ts : Tables P.Price)
      → (Orders.delete P fails id ts).1.products ≡ ts.products
  unfolding Orders.delete
  delete_order-products fails id ts = ground arith

  same_products-IsStocked :
      (ts ts' : Tables P.Price) → ts'.products ≡ ts.products → IsStocked P ts → IsStocked P ts'
  unfolding IsStocked stock_of
  same_products-IsStocked ts ts' same sound j = ground (arith, sound j)

  serve-IsStocked : (r : Request) (ts : Tables P.Price) → IsStocked P ts → IsStocked P (serve r ts)
  unfolding serve
  serve-IsStocked (create_product fails id at name price stock) ts =
      Written-IsStocked ts (Products.create P fails id at name price stock ts).1
        (create_product-Written fails id at name price stock ts)
  serve-IsStocked (update_product fails get_fails id name price stock) ts =
      Written-IsStocked ts (Products.update P fails get_fails id name price stock ts).1
        (update_product-Written fails get_fails id name price stock ts)
  serve-IsStocked (delete_product fails id) ts =
      Written-IsStocked ts (Products.delete P fails id ts).1 (delete_product-Written fails id ts)
  serve-IsStocked (create_order fails call user_id items) ts = λ sound.
      elim (create_order-cases fails call user_id items ts) [
        | inl same ↦ subst (IsStocked P) (sym same) sound
        | inr same ↦
            subst (IsStocked P) (sym same) (create_row-IsStocked call user_id items ts sound)
      ]
  serve-IsStocked (change_status fails get_fails id st) ts =
      same_products-IsStocked ts (Orders.update_status P fails get_fails id st ts).1
        (update_status-products fails get_fails id st ts)
  serve-IsStocked (delete_order fails id) ts =
      same_products-IsStocked ts (Orders.delete P fails id ts).1 (delete_order-products fails id ts)

  -- No history of requests to the products and the orders that are served one after another, whatever
  -- statements and commits fail, makes a product's stock negative, where none was at the start.
  pub serve_all-IsStocked :
      (rs : List Request) (ts : Tables P.Price) → IsStocked P ts → IsStocked P (serve_all rs ts)
  unfolding serve_all
  serve_all-IsStocked [] ts sound = sound
  serve_all-IsStocked (r ∷ rs) ts sound =
      serve_all-IsStocked rs (serve r ts) (serve-IsStocked r ts sound)
