-- ===== src/GoCrud/Orders.antt =====
-- go-crud/internal/order: repository.go, service.go and the statuses of handler.go. A transaction is
-- one step: the rows that it locks stay locked to its end.
pub mod Stock
pub mod Prices
pub mod Transactions
pub mod Histories
use go_basics.Common.{
  ℕ, suc, Bool, true, false, ◌||◌, ◌&&◌, not, String, Option, none, some, List, [], ◌∷◌, ◌++◌,
  str_eq, if◌then◌else◌, map,
}
use go_basics.Common.Int.{ℤ, pos, ◌+ℤ◌, ◌-ℤ◌, ltb_ℤ, leb_ℤ, int_beq}
use go_basics.Common.Dict.{Dict, int_comparable, lookup, insert, erase}
use go_basics.GoCrud.{
  Pricing, Error, product_not_found, user_not_found, invalid_order, no_items, invalid_status,
  order_not_found, invalid_product, insufficient_stock, database, Result, ok, err, Product, Order,
  Item, Tables,
}
pub use go_basics.Common.Database.{Commit, committed, rolled_back, reply_lost}
use go_basics.GoCrud.Products.{fits_integer, any_of, adjust_stock}

-- `ItemInput`.
pub record ItemInput : Type 0 where
  pub product_id : ℤ
  pub quantity : ℤ

-- What the database does in one call of `Create`: which statements fail, by the item's place, and
-- the ids and the instant that it gives the rows.
pub record Call : Type 0 where
  pub begin_fails : Bool
  pub select_fails : ℕ → Bool
  pub adjust_fails : ℕ → Bool
  pub order_fails : Bool
  pub item_fails : ℕ → Bool
  pub commit : Commit
  pub order_id : ℤ
  pub item_ids : ℕ → ℤ
  pub at : ℕ

module _ (P : Pricing) where
  -- The order's row, as `Create` returns it: `built` is without the ids of its rows.
  pub record Made : Type 0 where
    pub order : Order P.Price
    pub built : List (Item P.Price)

  -- The loop over the items: the total, the built items and the tables.
  unfoldable pub reserve :
      Call
      → ℕ
      → P.Price
      → List (Item P.Price)
      → Tables P.Price
      → List ItemInput
      → Result (P.Price × List (Item P.Price) × Tables P.Price)
  reserve call i total built ts [] = ok (total, built, ts)
  reserve call i total built ts (item ∷ items) =
      if call.select_fails i || not (fits_integer item.product_id)
      then err database
      else elim (lookup item.product_id ts.products) [
        | none ↦ err product_not_found
        | some p ↦
            elim (adjust_stock P (call.adjust_fails i) item.product_id (pos 0 -ℤ item.quantity)
              ts) [
                | err e ↦ err e
                | ok ts' ↦
                    reserve call (suc i) (P.plus total (P.times p.price item.quantity))
                      (built
                        ++ record {
                          order_id = call.order_id;
                          product_id = item.product_id;
                          quantity = item.quantity;
                          unit_price = p.price;
                        }
                          ∷ [])
                      ts' items
              ]
      ]

  -- The loop that inserts the items' rows.
  unfoldable pub insert_items :
      Call → ℕ → List (Item P.Price) → Tables P.Price → Result (Tables P.Price)
  insert_items call i [] ts = ok ts
  insert_items call i (item ∷ items) ts =
      if call.item_fails i || not (ltb_ℤ (pos 0) item.quantity && fits_integer item.quantity)
      then err database
      else insert_items call (suc i) items
          (record ts { items = insert (call.item_ids i) item ts.items })

  unfoldable pub pending : Call → ℤ → P.Price → Order P.Price
  pending call user_id total = record {
    user_id = user_id;
    order_status = "pending";
    total_price = total;
    created_at = call.at;
  }

  -- The statements of the transaction.
  unfoldable pub statements :
      Call → ℤ → List ItemInput → Tables P.Price → Result (Made × Tables P.Price)
  unfolding pending
  statements call user_id items ts = elim (reserve call 0 P.nothing [] ts items) [
    | err e ↦ err e
    | ok (total, built, ts') ↦
        if call.order_fails || not (any_of (int_beq user_id) ts'.users)
        then err database
        else elim (P.column total) [
          | none ↦ err database
          | some stored ↦
              elim (insert_items call 0 built (record ts' {
                orders = insert call.order_id (pending call user_id stored) ts'.orders;
              })) [
                | err e ↦ err e
                | ok ts'' ↦ ok (record { order = pending call user_id total; built = built }, ts'')
              ]
        ]
  ]

  -- The end of the transaction.
  unfoldable pub close :
      Commit → Result (Made × Tables P.Price) → Tables P.Price → Result Made × Tables P.Price
  close c (err e) ts = (err e, ts)
  close committed (ok (o, ts')) ts = (ok o, ts')
  close reply_lost (ok (o, ts')) ts = (err database, ts')
  close rolled_back (ok (o, ts')) ts = (err database, ts)

  -- `Repository.Create`.
  unfoldable pub create_row :
      Call → ℤ → List ItemInput → Tables P.Price → Result Made × Tables P.Price
  unfolding statements close
  create_row call user_id [] ts = (err no_items, ts)
  create_row call user_id (item ∷ items) ts =
      if call.begin_fails
      then (err database, ts)
      else close call.commit (statements call user_id (item ∷ items) ts) ts

  -- The validation of `Service.Create`.
  item_is_invalid : ItemInput → Bool
  item_is_invalid item = int_beq item.product_id (pos 0) || leb_ℤ item.quantity (pos 0)

  unfoldable pub is_invalid : ℤ → List ItemInput → Bool
  unfolding item_is_invalid
  is_invalid user_id [] = true
  is_invalid user_id items = int_beq user_id (pos 0) || any_of item_is_invalid items

  -- `Service.Create`. `between` is what others commit between the look at the user and the
  -- transaction.
  unfoldable pub create :
      Bool
      → (Tables P.Price → Tables P.Price)
      → Call
      → ℤ
      → List ItemInput
      → Tables P.Price
      → Result Made × Tables P.Price
  unfolding is_invalid create_row
  create user_fails between call user_id items ts =
      if is_invalid user_id items
      then (err invalid_order, ts)
      else if user_fails || not (fits_integer user_id)
      then (err database, ts)
      else if any_of (int_beq user_id) ts.users
      then create_row call user_id items (between ts)
      else (err user_not_found, ts)

  -- The order's row of `GetByID`.
  unfoldable pub get : Bool → ℤ → Tables P.Price → Result (Order P.Price)
  get fails id ts =
      if fails || not (fits_integer id)
      then err database
      else elim (lookup id ts.orders) [ none ↦ err order_not_found | some o ↦ ok o ]

  -- `validStatuses`.
  unfoldable pub is_valid_status : String → Bool
  is_valid_status st =
      str_eq st "pending" || (str_eq st "paid" || (str_eq st "shipped" || str_eq st "cancelled"))

  -- `Service.UpdateStatus`.
  unfoldable pub update_status :
      Bool → Bool → ℤ → String → Tables P.Price → Result (Order P.Price) × Tables P.Price
  unfolding is_valid_status get
  update_status fails get_fails id st ts =
      if not (is_valid_status st)
      then (err invalid_status, ts)
      else if fails || not (fits_integer id)
      then (err database, ts)
      else elim (lookup id ts.orders) [
        | none ↦ (err order_not_found, ts)
        | some o ↦
            let ts' = record ts { orders = insert id (record o { order_status = st }) ts.orders } in
            (get get_fails id ts', ts')
      ]

  erase_items : ℤ → Dict ℤ (Item P.Price) → Dict ℤ (Item P.Price)
  erase_items id [] = []
  erase_items id ((k, i) ∷ is) =
      let rest = erase_items id is in if int_beq i.order_id id then rest else (k, i) ∷ rest

  -- `Service.Delete`. The rows of its items go with an order.
  unfoldable pub delete : Bool → ℤ → Tables P.Price → Result Unit × Tables P.Price
  unfolding erase_items
  delete fails id ts =
      if fails || not (fits_integer id) then (err database, ts) else elim (lookup id ts.orders) [
        | none ↦ (err order_not_found, ts)
        | some o ↦
            (ok tt, record ts { orders = erase id ts.orders; items = erase_items id ts.items })
      ]

-- The status of `writeServiceErr`.
unfoldable pub error_status : Error → ℕ
error_status order_not_found = 404
error_status user_not_found = 404
error_status product_not_found = 404
error_status invalid_order = 400
error_status no_items = 400
error_status invalid_status = 400
error_status e = 500
