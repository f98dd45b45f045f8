-- ===== src/Microservices/Orders/Replays.antt =====
-- What an idempotency key does to later requests.
use mathlib.Core.Path.{subst}
use go_basics.Common.{
  ℕ, suc, ◌≡◌, ◌≢◌, inl, inr, sym, ap, ◌∙◌, false, String, none, some, List, [], ◌∷◌, arith,
}
use go_basics.Common.Int.{ℤ}
use go_basics.Common.Dict.{string_comparable, lookup}
use go_basics.Microservices.Orders.{
  OrderStatus, Order, Request, Service, proceed, start, new_order, persist, settle, World, Call,
  create_order, after_start, is_empty,
}
use go_basics.Microservices.Orders.Store.{IsSound, persist_keeps, persist-IsSound}
use go_basics.Microservices.Orders.Keys.{
  Leads, start_proceed, start_answered, start_replay, at_once, settled, way, settle_maps,
  persist-Leads_other, stored_by_id, stored_by_key, persist-Leads_self,
}

module _ (order_id : ℕ → String) (inj : (m n : ℕ) → order_id m ≡ order_id n → m ≡ n) where
  -- What holds before, and after any `persist` of a request with no key or an unknown one, holds
  -- after `CreateOrder`.
  create_keeps :
      (P : Service → Type 0) (call : Call) (req : Request) (w : World)
      → P w.orders
      → ((total : ℤ) (st : OrderStatus)
          → (req.idempotency_key ≢ "" → lookup req.idempotency_key w.orders.idem ≡ none)
          → P (persist order_id req total st call.persisted_at w.orders).1)
      → P (create_order order_id call req w).1.orders
  create_keeps P call req w here kept = elim (way order_id call req w) [
    | at_once a e same ↦ subst (λ r. P r.1.orders) (sym same) here
    | settled total ch e answer maps ↦
        elim (settle_maps order_id req total ch call.persisted_at w.orders) [
          | inl (same, nothing) ↦ subst P (sym (maps ∙ same)) here
          | inr (st, more, there) ↦
              subst P (sym (maps ∙ more)) (kept total st (start_proceed w.orders req e))
        ]
  ]

  -- `CreateOrder` keeps the maps sound.
  pub create-IsSound :
      (call : Call) (req : Request) (w : World)
      → IsSound order_id w.orders
      → IsSound order_id (create_order order_id call req w).1.orders
  create-IsSound call req w h =
      create_keeps (IsSound order_id) call req w h
        (λ total st unknown. persist-IsSound order_id inj req total st call.persisted_at w.orders h)

  create-Leads :
      (call : Call) (req : Request) (w : World) (key : String) (o : Order)
      → IsSound order_id w.orders
      → Leads key o w.orders
      → Leads key o (create_order order_id call req w).1.orders
  create-Leads call req w key o h l = create_keeps (Leads key o) call req w l (λ total st unknown.
      persist-Leads_other order_id inj req total st call.persisted_at w.orders key o h unknown l)

  -- The order that a request with a key is answered with is the one that its key leads to from
  -- then on.
  answer-Leads :
      (call : Call) (req : Request) (w : World) (o : Order)
      → IsSound order_id w.orders
      → req.idempotency_key ≢ ""
      → (create_order order_id call req w).0.order ≡ some o
      → Leads req.idempotency_key o (create_order order_id call req w).1.orders
  answer-Leads call req w o h some_key there = elim (way order_id call req w) [
    | at_once a e same ↦
        let a-order : a.order ≡ some o = subst (λ r. r.0.order ≡ some o) same there in
        let (id, known, found) = start_answered w.orders req e a-order in
        subst (λ r. Leads req.idempotency_key o r.1.orders) (sym same)
          (record { id = id; by_key = known; by_id = found })
    | settled total ch e answer maps ↦
        let there' : (settle order_id req total ch call.persisted_at w.orders).0.order ≡ some o =
          subst (λ r. r.order ≡ some o) answer there in
        elim (settle_maps order_id req total ch call.persisted_at w.orders) [
          | inl (same, nothing) ↦ cc (nothing, there')
          | inr (st, more, held) ↦ subst (Leads req.idempotency_key o) (sym (maps ∙ more)) (
              persist-Leads_self order_id inj req total st call.persisted_at w.orders h o some_key
                (sym held ∙ there'))
        ]
  ]

  -- The world after more requests, in their order.
  pub serve_all : List (Call × Request) → World → World
  serve_all [] w = w
  serve_all ((call, req) ∷ rest) w = serve_all rest (create_order order_id call req w).1

  serve_all-Leads :
      (later : List (Call × Request)) (w : World) (key : String) (o : Order)
      → IsSound order_id w.orders
      → Leads key o w.orders
      → Leads key o (serve_all later w).orders
  unfolding serve_all
  serve_all-Leads [] w key o h l = l
  serve_all-Leads ((call, req) ∷ rest) w key o h l =
      serve_all-Leads rest (create_order order_id call req w).1 key o (create-IsSound call req w h)
        (create-Leads call req w key o h l)

  -- If a request with an idempotency key is answered with an order, with or without an error
  -- beside it, then after any further requests a well-formed request with that key, whatever
  -- else it asks for, is answered with the same order and with no error, and changes nothing:
  -- neither the orders, nor the user service, nor the breaker.
  pub replay :
      (call : Call) (req : Request) (w : World) (o : Order) (later : List (Call × Request))
      (again : Call) (req' : Request)
      → IsSound order_id w.orders
      → req.idempotency_key ≢ ""
      → (create_order order_id call req w).0.order ≡ some o
      → req'.idempotency_key ≡ req.idempotency_key
      → req'.user_id ≢ ""
      → is_empty req'.lines ≡ false
      → let w' = serve_all later (create_order order_id call req w).1 in
        create_order order_id again req' w' ≡ (record { order = some o; err = none }, w')
  unfolding create_order
  replay call req w o later again req' h some_key there same user lines =
      let w1 = (create_order order_id call req w).1 in
      let l =
        serve_all-Leads later w1 req.idempotency_key o (create-IsSound call req w h)
          (answer-Leads call req w o h some_key there) in
      let w' = serve_all later w1 in
      let e = start_replay w'.orders req' user lines (rw same some_key) (rw same l) in
      ap (λ st. after_start order_id again req' st w') e

  -- Two requests with one new key that both get past the key's check before either is stored are
  -- stored as two orders: the maps then hold both, under different ids, and the key leads to the
  -- second.
  pub raced :
      (req : Request) (s : Service) (total : ℤ) (st st' : OrderStatus) (now now' : ℕ)
      → IsSound order_id s
      → req.idempotency_key ≢ ""
      → start s req ≡ proceed total
      → let s1 = (persist order_id req total st now s).1 in
        let s2 = (persist order_id req total st' now' s1).1 in
        (o o' : Order) × (lookup o.id s2.orders ≡ some o)
        × (lookup o'.id s2.orders ≡ some o')
        × (o.id ≢ o'.id)
        × (lookup req.idempotency_key s2.idem ≡ some o'.id)
  unfolding new_order persist
  raced req s total st st' now now' h some_key past =
      let o = new_order order_id req total st now s in
      let s1 = (persist order_id req total st now s).1 in
      let h1 = persist-IsSound order_id inj req total st now s h in
      let o' = new_order order_id req total st' now' s1 in
      (
        o,
        o',
        persist_keeps order_id inj req total st' now' s1 h1 o.id o
            (stored_by_id order_id inj req total st now s h),
        stored_by_id order_id inj req total st' now' s1 h1,
        (λ e. absurd (omega (arith, inj (suc s.seq) (suc (suc s.seq)) e))),
        stored_by_key order_id inj req total st' now' s1 h1 some_key,
      )
