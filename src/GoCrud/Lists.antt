-- ===== src/GoCrud/Lists.antt =====
-- go-crud: the lists of internal/product, internal/order and internal/user, and their handlers. A list
-- fails as a whole, also where a row cannot be read.
use go_basics.Common.{Bool, Option, none, some, List, select, if◌then◌else◌, not, ◌||◌}
use go_basics.Common.Int.{ℤ, leb_ℤ, int_beq}
use go_basics.Common.Dict.{Dict}
use go_basics.Common.Sorting.{sorted}
use go_basics.GoCrud.{Pricing, database, Result, ok, err, Product, Order, Tables}
use go_basics.GoCrud.Products.{fits_integer}
use go_basics.GoCrud.Users.{User}
use go_basics.GoCrud.Handlers.{Response, error_json, listed}

-- `ORDER BY id`.
unfoldable pub by_id : {V : Type 0} → Dict ℤ V → List (ℤ × V)
by_id rows = sorted (λ a b. leb_ℤ a.0 b.0) rows

module _ (P : Pricing) where
  -- `List` of products.
  unfoldable pub all_products : Bool → Tables P.Price → Result (List (ℤ × Product P.Price))
  all_products fails ts = if fails then err database else ok (by_id ts.products)

  -- `List` of orders.
  unfoldable pub all_orders : Bool → Tables P.Price → Result (List (ℤ × Order P.Price))
  all_orders fails ts = if fails then err database else ok (by_id ts.orders)

  -- `ListByUser`.
  unfoldable pub orders_of_user : Bool → ℤ → Tables P.Price → Result (List (ℤ × Order P.Price))
  orders_of_user fails user_id ts =
      if fails || not (fits_integer user_id)
      then err database
      else ok (select (λ row. int_beq row.1.user_id user_id) (by_id ts.orders))

  -- The handlers of these lists.
  unfoldable pub index_products : Bool → Tables P.Price → Response (List (ℤ × Product P.Price))
  unfolding all_products
  index_products fails ts = listed (all_products fails ts)

  unfoldable pub index_orders : Bool → Tables P.Price → Response (List (ℤ × Order P.Price))
  unfolding all_orders
  index_orders fails ts = listed (all_orders fails ts)

  unfoldable pub index_orders_of_user :
      Bool → Option ℤ → Tables P.Price → Response (List (ℤ × Order P.Price))
  unfolding orders_of_user
  index_orders_of_user fails none ts = error_json 400
  index_orders_of_user fails (some user_id) ts = listed (orders_of_user fails user_id ts)

-- `List` of users, and its handler.
unfoldable pub all_users : Bool → Dict ℤ User → Result (List (ℤ × User))
all_users fails us = if fails then err database else ok (by_id us)

unfoldable pub index_users : Bool → Dict ℤ User → Response (List (ℤ × User))
unfolding all_users
index_users fails us = listed (all_users fails us)
