-- ===== src/GoCrud/Handlers.antt =====
-- go-crud: the handler.go of internal/order, internal/product and internal/user. A handler gets what its
-- path and its body are read as, if they can be read, and the service's method.
pub mod Answers
use go_basics.Common.{
  Bool, String, ℕ, Option, none, some, List, [], ◌∷◌, ◌≡◌, ◌≢◌, refl, ◌⊎◌, inl, inr, arith, sym, ap,
}
use go_basics.Common.Int.{ℤ}
use go_basics.Common.Dict.{Dict}
use go_basics.GoCrud.{
  Pricing, Error, invalid_product, product_not_found, insufficient_stock, invalid_user,
  user_not_found, invalid_order, no_items, invalid_status, order_not_found, database, Result, ok,
  err, Tables,
}
use go_basics.GoCrud.{Product, Order}
use go_basics.GoCrud.Products
use go_basics.GoCrud.Orders
use go_basics.GoCrud.Orders.{ItemInput, Call, Made, error_status}
use go_basics.GoCrud.Users
use go_basics.GoCrud.Users.{User}

-- What is written: a value with its status, an error's status, or nothing, with status 204.
pub data Response (A : Type 0) : Type 0 where
  json : ℕ → A → Response A
  error_json : ℕ → Response A
  no_content : Response A

-- The statuses of the `writeServiceErr` of products and of users.
unfoldable pub product_error_status : Error → ℕ
product_error_status product_not_found = 404
product_error_status invalid_product = 400
product_error_status e = 500

unfoldable pub user_error_status : Error → ℕ
user_error_status user_not_found = 404
user_error_status invalid_user = 400
user_error_status e = 500

module _ {A : Type 0} (statuses : Error → ℕ) where
  -- What follows the service's method.
  unfoldable pub respond : ℕ → Result A → Response A
  respond success (ok a) = json success a
  respond success (err e) = error_json (statuses e)

  -- `create`, for a body and a method.
  unfoldable pub created : {B S : Type 0} → Option B → (B → S → Result A × S) → S → Response A × S
  unfolding respond
  created none method s = (error_json 400, s)
  created (some b) method s = (respond 201 (method b s).0, (method b s).1)

  -- `get`, for an id and a method.
  unfoldable pub found : {S : Type 0} → Option ℤ → (ℤ → S → Result A) → S → Response A
  unfolding respond
  found none method s = error_json 400
  found (some id) method s = respond 200 (method id s)

  -- `update` and `updateStatus`, for an id, a body and a method.
  unfoldable pub updated :
      {B S : Type 0} → Option ℤ → Option B → (ℤ → B → S → Result A × S) → S → Response A × S
  unfolding respond
  updated none body method s = (error_json 400, s)
  updated (some id) none method s = (error_json 400, s)
  updated (some id) (some b) method s = (respond 200 (method id b s).0, (method id b s).1)

  -- `delete`, for an id and a method.
  unfoldable pub deleted : {S : Type 0} → Option ℤ → (ℤ → S → Result Unit × S) → S → Response A × S
  deleted none method s = (error_json 400, s)
  deleted (some id) method s = (
    elim (method id s).0 [ ok u ↦ no_content | err e ↦ error_json (statuses e) ],
    (method id s).1,
  )

-- `list` and `listByUser`, for a method that gives rows.
unfoldable pub listed : {A : Type 0} → Result A → Response A
listed (ok rows) = json 200 rows
listed (err e) = error_json 500

module _ (P : Pricing) where
  -- internal/order: `create`.
  unfoldable pub post_order :
      Bool
      → (Tables P.Price → Tables P.Price)
      → Call
      → Option (ℤ × List ItemInput)
      → Tables P.Price
      → Response (Made P) × Tables P.Price
  unfolding created
  post_order user_fails between call body ts =
      created error_status body
        (λ (b : ℤ × List ItemInput). Orders.create P user_fails between call b.0 b.1) ts

  -- `get`.
  unfoldable pub get_order : Bool → Option ℤ → Tables P.Price → Response (Order P.Price)
  unfolding found
  get_order fails id ts = found error_status id (Orders.get P fails) ts

  -- `updateStatus`.
  unfoldable pub patch_order :
      Bool
      → Bool
      → Option ℤ
      → Option String
      → Tables P.Price
      → Response (Order P.Price) × Tables P.Price
  unfolding updated
  patch_order fails get_fails id body ts =
      updated error_status id body (Orders.update_status P fails get_fails) ts

  -- `delete`.
  unfoldable pub remove_order :
      Bool → Option ℤ → Tables P.Price → Response (Order P.Price) × Tables P.Price
  unfolding deleted
  remove_order fails id ts = deleted error_status id (Orders.delete P fails) ts

  -- The body of a product: its name, price and stock.
  pub record ProductBody : Type 0 where
    pub name : String
    pub price : P.Price
    pub stock : ℤ

  -- internal/product: `create`.
  unfoldable pub post_product :
      Bool → ℤ → ℕ → Option ProductBody → Tables P.Price → Response ℤ × Tables P.Price
  unfolding created
  post_product fails id at body ts =
      created product_error_status body
        (λ (b : ProductBody). Products.create P fails id at b.name b.price b.stock) ts

  -- `get`.
  unfoldable pub get_product : Bool → Option ℤ → Tables P.Price → Response (Product P.Price)
  unfolding found
  get_product fails id ts = found product_error_status id (Products.get P fails) ts

  -- `update`.
  unfoldable pub put_product :
      Bool
      → Bool
      → Option ℤ
      → Option ProductBody
      → Tables P.Price
      → Response (Product P.Price) × Tables P.Price
  unfolding updated
  put_product fails get_fails id body ts =
      updated product_error_status id body
        (λ (i : ℤ) (b : ProductBody). Products.update P fails get_fails i b.name b.price b.stock) ts

  -- `delete`.
  unfoldable pub remove_product :
      Bool → Option ℤ → Tables P.Price → Response (Product P.Price) × Tables P.Price
  unfolding deleted
  remove_product fails id ts = deleted product_error_status id (Products.delete P fails) ts

-- The body of a user: the name and the email.
pub record UserBody : Type 0 where
  pub name : String
  pub email : String

-- internal/user: `create`.
unfoldable pub post_user : Bool → ℤ → ℕ → Option UserBody → Dict ℤ User → Response ℤ × Dict ℤ User
unfolding created
post_user fails id at body us =
    created user_error_status body (λ (b : UserBody). Users.create fails id at b.name b.email) us

-- `get`.
unfoldable pub get_user : Bool → Option ℤ → Dict ℤ User → Response User
unfolding found
get_user fails id us = found user_error_status id (Users.get fails) us

-- `update`.
unfoldable pub put_user :
    Bool → Bool → Option ℤ → Option UserBody → Dict ℤ User → Response User × Dict ℤ User
unfolding updated
put_user fails get_fails id body us =
    updated user_error_status id body
      (λ (i : ℤ) (b : UserBody). Users.update fails get_fails i b.name b.email) us

-- `delete`.
unfoldable pub remove_user : Bool → Option ℤ → Dict ℤ User → Response User × Dict ℤ User
unfolding deleted
remove_user fails id us = deleted user_error_status id (Users.delete fails) us
