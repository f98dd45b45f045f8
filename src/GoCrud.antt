-- ===== src/GoCrud.antt =====
-- go-crud: the tables of its migrations, its errors, and the database around the code. Prices are
-- `float64`s in the code and NUMERIC(10, 2) in the tables: both are a parameter.
pub mod Products
pub mod Orders
pub mod Users
pub mod Handlers
pub mod Lists
mod Tests
use go_basics.Common.{ℕ, Bool, String, Option, List}
use go_basics.Common.Int.{ℤ}
use go_basics.Common.Dict.{Dict}

-- Prices, and what the code and the tables do with them.
pub record Pricing : Type 1 where
  pub Price : Type 0
  pub nothing : Price
  pub plus : Price → Price → Price
  -- a price times a quantity
  pub times : Price → ℤ → Price
  pub is_negative : Price → Bool
  -- what a column NUMERIC(10, 2) with a check for >= 0 stores, or an error
  pub column : Price → Option Price

-- The errors that the code tells apart. `database` is any other of the database, and
-- `insufficient_stock` the text of AdjustStock.
pub data Error : Type 0 where
  invalid_product product_not_found insufficient_stock : Error
  invalid_user user_not_found : Error
  invalid_order no_items invalid_status order_not_found : Error
  database : Error

pub data Result (A : Type 0) : Type 0 where
  ok : A → Result A
  err : Error → Result A

-- A row of products, without its id.
pub record Product (Price : Type 0) : Type 0 where
  pub name : String
  pub price : Price
  pub stock : ℤ
  pub created_at : ℕ

-- A row of orders, without its id.
pub record Order (Price : Type 0) : Type 0 where
  pub user_id : ℤ
  pub order_status : String
  pub total_price : Price
  pub created_at : ℕ

-- A row of order_items, without its id.
pub record Item (Price : Type 0) : Type 0 where
  pub order_id : ℤ
  pub product_id : ℤ
  pub quantity : ℤ
  pub unit_price : Price

-- The tables that the code of products and orders reads and writes. Of the users, their ids.
pub record Tables (Price : Type 0) : Type 0 where
  pub users : List ℤ
  pub products : Dict ℤ (Product Price)
  pub orders : Dict ℤ (Order Price)
  pub items : Dict ℤ (Item Price)
