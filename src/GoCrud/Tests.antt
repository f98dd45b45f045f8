-- ===== src/GoCrud/Tests.antt =====
-- Concrete runs of go-crud. Prices are whole numbers of cents here, below 10^10.
use go_basics.Common.{ℕ, ◌+◌, ◌*◌, false, none, some, List, [], ◌∷◌, arith, ltb, if◌then◌else◌}
use go_basics.Common.Int.{pos, pos_part}
use go_basics.Common.Dict.{lookup}
use go_basics.GoCrud.{Pricing, Product, Tables}
use go_basics.GoCrud.Orders.{ItemInput, committed, Call, create_row}
use go_basics.GoCrud.Orders.Stock.{stock_of, IsStocked}
use go_basics.GoCrud.Orders.Transactions.{Settled, create_row-Settled}
use go_basics.GoCrud.Handlers.{post_order}
use go_basics.GoCrud.Handlers.Answers.{Told, post_order-Told}
use go_basics.GoCrud.Orders.Histories.{
  create_product, delete_product, create_order, serve_all, serve_all-IsStocked,
}

abbrev cents : Pricing
cents = record {
  Price = ℕ;
  nothing = 0;
  plus = λ a b. a + b;
  times = λ a n. a * pos_part n;
  is_negative = λ a. false;
  column = λ a. if ltb a 10_000_000_000 then some a else none;
}

abbrev keyboard : Product ℕ
keyboard = record { name = "Keyboard"; price = 4_999; stock = pos 10; created_at = 1 }

abbrev shop : Tables ℕ
shop = record { users = pos 1 ∷ []; products = (pos 1, keyboard) ∷ []; orders = []; items = [] }

abbrev call : Call
call = record {
  begin_fails = false;
  select_fails = λ n. false;
  adjust_fails = λ n. false;
  order_fails = false;
  item_fails = λ n. false;
  commit = committed;
  order_id = pos 1;
  item_ids = λ n. pos (n + 1);
  at = 5;
}

abbrev basket : List ItemInput
basket =
    record { product_id = pos 1; quantity = pos 3 }
    ∷ record { product_id = pos 1; quantity = pos 4 }
    ∷ []

create_row-Settled_example :
    Settled cents call (pos 1) basket shop (create_row cents call (pos 1) basket shop)
create_row-Settled_example = create_row-Settled cents call (pos 1) basket shop

shop-IsStocked : IsStocked cents shop
unfolding IsStocked stock_of lookup
shop-IsStocked id = ground arith

serve_all-IsStocked_example : IsStocked cents (
    serve_all cents
      (create_order false call (pos 1) basket
        ∷ create_product false (pos 2) 6 "Mouse" 1_999 (pos 25)
        ∷ delete_product false (pos 1)
        ∷ create_order false call (pos 1) basket
        ∷ [])
      shop)
serve_all-IsStocked_example =
    serve_all-IsStocked cents
      (create_order false call (pos 1) basket
        ∷ create_product false (pos 2) 6 "Mouse" 1_999 (pos 25)
        ∷ delete_product false (pos 1)
        ∷ create_order false call (pos 1) basket
        ∷ [])
      shop shop-IsStocked

post_order-Told_example :
    Told cents
      (λ t. t)
      call
      (pos 1)
      basket
      shop
      (post_order cents false (λ t. t) call (some (pos 1, basket)) shop)
post_order-Told_example = post_order-Told cents false (λ t. t) call (pos 1) basket shop
