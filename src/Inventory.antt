-- ===== src/Inventory.antt =====
-- 62_grpc/server.go: the inventory and its calls, unary and streaming. A message of a stream is what
-- its receive gives; the store is shared by the streams under one lock.
pub mod Reserve
pub mod Replays
pub mod Bulk
pub mod Watch
pub mod Interceptors
mod Tests
use go_basics.Common.{
  ℕ, zero, suc, ◌%◌, Bool, true, false, not, ◌||◌, ◌&&◌, String, Option, none, some, List, [], ◌∷◌,
  ◌++◌, length, str_eq, ◌==◌, if◌then◌else◌,
}
use go_basics.Common.Int.{ℤ, pos, negsuc, pos_part, ◌+ℤ◌, ◌-ℤ◌, ltb_ℤ, leb_ℤ, int32}
use go_basics.Common.Dict.{Dict, string_comparable, lookup, insert}

-- `Product`. The price is an int64, the stock an int32.
pub record Product : Type 0 where
  pub id : String
  pub name : String
  pub price_cents : ℤ
  pub stock : ℤ
  pub category : ℕ
  pub updated_at : ℕ

-- The field `products`.
abbrev pub Products : Type 0
Products = Dict String Product

-- How a call ends: the codes of the status package that the calls use; that of a context that ended;
-- the transport's own error.
pub data Status : Type 0 where
  ok invalid_argument not_found : Status
  context_ended transport_error : Status
  panicked : Status

-- `GetProduct`. `ended` says that the context ends before the two seconds of the id "slow" are over.
unfoldable pub get_product : Bool → String → Products → Status × Option Product
get_product ended id ps =
    if str_eq id ""
    then (invalid_argument, none)
    else if str_eq id "slow" && ended
    then (context_ended, none)
    else if str_eq id "boom"
    then (panicked, none)
    else elim (lookup id ps) [ none ↦ (not_found, none) | some p ↦ (ok, some p) ]

-- `ReserveRequest` and `ReserveResponse`. A reason is its kind.
pub record ReserveRequest : Type 0 where
  pub product_id : String
  pub quantity : ℤ
  pub idempotency_key : String

pub data Reason : Type 0 where
  no_reason unknown_product not_positive : Reason
  only_left : ℤ → Reason

pub record ReserveResponse : Type 0 where
  pub product_id : String
  pub ok : Bool
  pub remaining : ℤ
  pub reason : Reason

-- `reserve`.
unfoldable pub reserve : ℕ → ReserveRequest → Products → ReserveResponse × Products
reserve now req ps = elim (lookup req.product_id ps) [
  | none ↦ (
    record { product_id = req.product_id; ok = false; remaining = pos 0; reason = unknown_product },
    ps,
  )
  | some p ↦
      if leb_ℤ req.quantity (pos 0)
      then (
        record { product_id = p.id; ok = false; remaining = p.stock; reason = not_positive },
        ps,
      )
      else if ltb_ℤ p.stock req.quantity
      then (
        record { product_id = p.id; ok = false; remaining = p.stock; reason = only_left p.stock },
        ps,
      )
      else let left = int32 (p.stock -ℤ req.quantity) in
        (
          record { product_id = p.id; ok = true; remaining = left; reason = no_reason },
          insert req.product_id (record p { stock = left; updated_at = now }) ps,
        )
]

-- What a stream of `Reserve` has answered, by key.
abbrev pub Seen : Type 0
Seen = Dict String ReserveResponse

-- One message of a stream of `Reserve`: the answer that is sent, and what is then known and stored.
unfoldable pub reserve_message :
    ℕ → ReserveRequest → Seen → Products → ReserveResponse × (Seen × Products)
reserve_message now req seen ps =
    let (made, ps') = reserve now req ps in
    let fresh : ReserveResponse × (Seen × Products) = (
      made,
      (if str_eq req.idempotency_key "" then seen else insert req.idempotency_key made seen, ps'),
    ) in
    elim (lookup req.idempotency_key seen) as (λ o. ReserveResponse × (Seen × Products)) [
      | none ↦ fresh
      | some prev ↦ if str_eq req.idempotency_key "" then fresh else (prev, (seen, ps))
    ]

-- What a receive of a stream gives.
pub data Received (A : Type 0) : Type 0 where
  message : A → Received A
  end_of_stream receive_error : Received A

-- `BulkUpsertResponse`. The counters are int32.
pub record BulkUpsertResponse : Type 0 where
  pub created : ℤ
  pub updated : ℤ
  pub failed : ℤ
  pub errors : List String

unfoldable pub no_summary : BulkUpsertResponse
no_summary = record { created = pos 0; updated = pos 0; failed = pos 0; errors = [] }

-- One message of `BulkUpsert`: the product that it holds, if it holds one.
unfoldable pub upsert_message :
    ℕ → Option Product → BulkUpsertResponse → Products → BulkUpsertResponse × Products
upsert_message now none s ps = (
  record s { failed = int32 (s.failed +ℤ pos 1); errors = s.errors ++ "missing id or name" ∷ [] },
  ps,
)
upsert_message now (some p) s ps =
    if str_eq p.id "" || str_eq p.name ""
    then (
      record s {
        failed = int32 (s.failed +ℤ pos 1);
        errors = s.errors ++ "missing id or name" ∷ [];
      },
      ps,
    )
    else (
      elim (lookup p.id ps) [
        | none ↦ record s { created = int32 (s.created +ℤ pos 1) }
        | some old ↦ record s { updated = int32 (s.updated +ℤ pos 1) }
      ],
      insert p.id (record p { updated_at = now }) ps,
    )

-- `BulkUpsert`: the summary that is sent, if the client closes its side, along what is received.
unfoldable pub bulk_upsert :
    ℕ
    → List (Received (Option Product))
    → BulkUpsertResponse
    → Products
    → Option BulkUpsertResponse × Products
bulk_upsert now [] s ps = (none, ps)
bulk_upsert now (end_of_stream ∷ rs) s ps = (some s, ps)
bulk_upsert now (receive_error ∷ rs) s ps = (none, ps)
bulk_upsert now (message m ∷ rs) s ps =
    let (s', ps') = upsert_message now m s ps in bulk_upsert now rs s' ps'

-- `WatchStockResponse`.
pub record StockEvent : Type 0 where
  pub product_id : String
  pub stock : ℤ
  pub delta : ℤ

-- What a wait of `WatchStock` gives: the context's end; or a tick at an instant, with what others do
-- after the change to the store, what the stock of the product has become when the event reads it, and
-- whether the event can be sent.
pub data Wait : Type 0 where
  hangs_up : Wait
  ticks : ℕ → (Products → Products) → (ℤ → ℤ) → Bool → Wait

-- The number of events of `WatchStock`.
unfoldable pub event_limit : ℤ → ℕ
event_limit max = if leb_ℤ max (pos 0) || ltb_ℤ (pos 100) max then 5 else pos_part max

-- The id of a round.
unfoldable pub at_index : ℕ → List String → String
at_index n [] = ""
at_index zero (x ∷ xs) = x
at_index (suc n) (x ∷ xs) = at_index n xs

-- The change of round `i` to a product.
unfoldable pub moved : ℕ → ℕ → Product → Product
moved now i p = record p { stock = int32 (p.stock +ℤ negsuc (i % 3)); updated_at = now }

-- The loop of `WatchStock`, with so many rounds left from round `i`: its end, the events, the store.
unfoldable pub watch :
    ℕ → ℕ → List String → List Wait → Products → Status × (List StockEvent × Products)
watch zero i ids ws ps = (ok, ([], ps))
watch (suc n) i ids [] ps = (context_ended, ([], ps))
watch (suc n) i ids (hangs_up ∷ ws) ps = (context_ended, ([], ps))
watch (suc n) i ids (ticks now meanwhile reads sends ∷ ws) ps =
    elim (lookup (at_index (i % length ids) ids) ps) [
      | none ↦ watch n (suc i) ids ws (meanwhile ps)
      | some p ↦
          let id = at_index (i % length ids) ids in
          let ps' = meanwhile (insert id (moved now i p) ps) in
          let event : StockEvent = record {
            product_id = id;
            stock = reads (moved now i p).stock;
            delta = negsuc (i % 3);
          } in
          let (status, (events, after)) = watch n (suc i) ids ws ps' in
          if not sends then (transport_error, ([], ps')) else (status, (event ∷ events, after))
    ]

-- `WatchStock`.
unfoldable pub watch_stock :
    List String → ℤ → List Wait → Products → Status × (List StockEvent × Products)
watch_stock ids max ws ps =
    if length ids == 0 then (invalid_argument, ([], ps)) else watch (event_limit max) 0 ids ws ps
