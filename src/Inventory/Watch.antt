-- ===== src/Inventory/Watch.antt =====
-- The events of `WatchStock` in 62_grpc/server.go.
use go_basics.Common.{
  ℕ, zero, suc, ◌%◌, ◌≤◌, ◌≡◌, true, String, some, List, [], ◌∷◌, length, arith, Option-cases, inl,
  inr,
}
use go_basics.Common.Int.{ℤ, pos, negsuc, ◌+ℤ◌, int32}
use go_basics.Common.Dict.{string_comparable, lookup, insert, lookup-insert_self}
use go_basics.Inventory.{
  Product, Products, Wait, ticks, hangs_up, event_limit, at_index, moved, watch, watch_stock,
}

length-watch :
    (n i : ℕ) (ids : List String) (ws : List Wait) (ps : Products)
    → length (watch n i ids ws ps).1.0 ≤ n
unfolding watch
length-watch zero i ids ws ps = omega arith
length-watch (suc n) i ids [] ps = omega arith
length-watch (suc n) i ids (hangs_up ∷ ws) ps = omega arith
length-watch (suc n) i ids (ticks now meanwhile reads sends ∷ ws) ps =
    elim (Option-cases (lookup (at_index (i % length ids) ids) ps)) [
      | inl missing ↦ ground (arith, length-watch n (suc i) ids ws (meanwhile ps))
      | inr (p, found) ↦ ground (
        arith,
        length-watch n (suc i) ids ws
            (meanwhile (insert (at_index (i % length ids) ids) (moved now i p) ps)),
      )
    ]

event_limit-bound : (max : ℤ) → event_limit max ≤ 100
unfolding event_limit
event_limit-bound max = ground arith

-- A watch sends at most 100 events, and at most as many as it asks for if it asks for 1 or more.
pub watch_stock_bound :
    (ids : List String) (max : ℤ) (ws : List Wait) (ps : Products)
    → (length (watch_stock ids max ws ps).1.0 ≤ 100)
      × ((n : ℕ) → max ≡ pos (suc n) → n ≤ 99 → length (watch_stock ids max ws ps).1.0 ≤ suc n)
unfolding watch_stock event_limit
watch_stock_bound ids max ws ps = (
  ground (arith, length-watch (event_limit max) 0 ids ws ps, event_limit-bound max),
  λ n asks few. ground (arith, length-watch (event_limit max) 0 ids ws ps),
)

-- A watch of one product for one event, where the stock of that product is 0, leaves its stock at -1.
pub watch_below_zero :
    (id : String) (ws : List Wait) (now : ℕ) (reads : ℤ → ℤ) (ps : Products) (p : Product)
    → lookup id ps ≡ some p
    → p.stock ≡ pos 0
    → let after = (watch_stock (id ∷ []) (pos 1) (ticks now (λ qs. qs) reads true ∷ ws) ps).1.1 in
      (q : Product) × (lookup id after ≡ some q) × (q.stock ≡ negsuc 0)
unfolding watch_stock event_limit watch at_index moved ◌+ℤ◌ int32
watch_below_zero id ws now reads ps p found empty =
    (moved now 0 p, ground (arith, lookup-insert_self id (moved now 0 p) ps), ground arith)
