-- ===== src/Inventory/Tests.antt =====
-- Runs of 62_grpc.
use go_basics.Common.{
  ℕ, ◌+◌, ◌≡◌, ◌≢◌, refl, true, String, Option, some, List, [], ◌∷◌, arith, eq_iff,
}
use go_basics.Common.Int.{pos}
use go_basics.Common.Dict.{string_comparable, nat_comparable, lookup}
use go_basics.Common.Text.{strip_prefix}
use go_basics.Inventory.{Product}
use go_basics.Inventory.Reserve.{
  Server, Message, HasStock, taken, answer, after, after_all, taken-stock,
}
use go_basics.Inventory.Replays.{replayed}
use go_basics.Inventory.Interceptors.{panics, Handler, authorize, is_public}

abbrev drill : Product
drill = record {
  id = "p2";
  name = "Cordless Drill";
  price_cents = pos 8999;
  stock = pos 7;
  category = 2;
  updated_at = 0;
}

abbrev server : Server
server = record { streams = []; products = ("p2", drill) ∷ [] }

abbrev ask : ℕ → String → ℕ → Message
ask stream key quantity = record {
  stream = stream;
  at = 1;
  request = record { product_id = "p2"; quantity = pos quantity; idempotency_key = key };
}

server-HasStock : HasStock "p2" 7 server.products
unfolding HasStock lookup
server-HasStock = (drill, refl, refl, omega arith)

taken-stock_example :
    (k : ℕ) × (k + taken "p2" (ask 1 "a" 3 ∷ ask 1 "a" 3 ∷ ask 2 "" 9 ∷ []) server ≡ 7)
    × HasStock "p2" k (after_all (ask 1 "a" 3 ∷ ask 1 "a" 3 ∷ ask 2 "" 9 ∷ []) server).products
taken-stock_example =
    taken-stock "p2" (ask 1 "a" 3 ∷ ask 1 "a" 3 ∷ ask 2 "" 9 ∷ []) 7 server server-HasStock

some_key : (ask 1 "a" 3).request.idempotency_key ≢ ""
some_key h = ground (arith, eq_iff "a" "")

replayed_example :
    let before = after_all (ask 2 "a" 1 ∷ []) (after (ask 1 "a" 3) server) in
    (answer (ask 1 "a" 5) before ≡ answer (ask 1 "a" 3) server)
    × ((after (ask 1 "a" 5) before).products ≡ before.products)
replayed_example = replayed (ask 1 "a" 3) (ask 1 "a" 5) (ask 2 "a" 1 ∷ []) server some_key refl refl

abbrev sold_out : Product
sold_out = record drill { stock = pos 0 }

-- A handler that counts its calls and panics.
abbrev failing : Handler String ℕ
failing s = (panics, (s.0 + 1, s.1))

abbrev metadata : Option (List String)
metadata = some ("Bearer s3rvice-t0ken" ∷ [])

authorizes : authorize metadata "/x" ≡ true
unfolding authorize is_public strip_prefix
authorizes = refl
