-- ===== src/Microservices/Orders/Keys.antt =====
-- Where an idempotency key leads, and the two ways through CreateOrder.
use go_basics.Common.{
  ℕ, suc, ◌≡◌, ◌≢◌, ◌⊎◌, inl, inr, refl, ap, ◌∙◌, false, String, none, some, arith, eq_iff,
  Option-cases,
}
use go_basics.Common.Int.{ℤ}
use go_basics.Common.Dict.{string_comparable, lookup}
use go_basics.Microservices.Orders.{
  OrderStatus, Order, Request, Service, Answer, Start, answered, proceed, start, Checked, new_order,
  persist, settle, World, Call, check_credit, create_order, after_start, is_empty,
}
use go_basics.Microservices.Orders.Store.{
  IsSound, persist_keeps, persist-idem, persist-orders, kept_as, settle_lem,
}

-- The key leads to this order.
pub record Leads (key : String) (o : Order) (s : Service) : Type 0 where
  pub id : String
  pub by_key : lookup key s.idem ≡ some id
  pub by_id : lookup id s.orders ≡ some o

-- Only a request with no key, or with a key that is not known, gets past `start`.
pub start_proceed :
    (s : Service) (req : Request) {total : ℤ}
    → start s req ≡ proceed total
    → req.idempotency_key ≢ ""
    → lookup req.idempotency_key s.idem ≡ none
unfolding start
start_proceed s req h some_key = ground (arith, eq_iff req.idempotency_key "")

-- An answer with an order, given at once, is the order that the key leads to.
pub start_answered :
    (s : Service) (req : Request) {a : Answer} {o : Order}
    → start s req ≡ answered a
    → a.order ≡ some o
    → (id : String) × (lookup req.idempotency_key s.idem ≡ some id) × (lookup id s.orders ≡ some o)
unfolding start
start_answered s req h there = elim (Option-cases (lookup req.idempotency_key s.idem)) [
  | inl unknown ↦ absurd (ground arith)
  | inr (id, known) ↦ (id, known, ground arith)
]

-- A well-formed request with a known key is answered with its order.
pub start_replay :
    (s : Service) (req : Request) {o : Order}
    → req.user_id ≢ ""
    → is_empty req.lines ≡ false
    → req.idempotency_key ≢ ""
    → Leads req.idempotency_key o s
    → start s req ≡ answered (record { order = some o; err = none })
unfolding start
start_replay s req user lines some_key l =
    ground (arith, eq_iff req.user_id "", eq_iff req.idempotency_key "", l.by_key, l.by_id)

module _ (order_id : ℕ → String) where
  -- The two ways through `CreateOrder`: an answer at once, or a credit check and `settle`.
  pub data Way (call : Call) (req : Request) (w : World) : Type 0 where
    at_once :
        (a : Answer)
        → start w.orders req ≡ answered a
        → create_order order_id call req w ≡ (a, w)
        → Way call req w
    settled :
        (total : ℤ) (ch : Checked)
        → start w.orders req ≡ proceed total
        → (create_order order_id call req w).0
          ≡ (settle order_id req total ch call.persisted_at w.orders).0
        → (create_order order_id call req w).1.orders
          ≡ (settle order_id req total ch call.persisted_at w.orders).1
        → Way call req w

  pub way : (call : Call) (req : Request) (w : World) → Way call req w
  unfolding create_order check_credit
  way call req w = split (start w.orders req) refl
    where
      split : (st : Start) → start w.orders req ≡ st → Way call req w
      split (answered a) e = at_once a e (ap (λ st. after_start order_id call req st w) e)
      split (proceed total) e =
          settled total (check_credit call req.user_id total w).0 e
            (ap (λ st. (after_start order_id call req st w).0) e)
            (ap (λ st. (after_start order_id call req st w).1.orders) e)

  -- What `settle` leaves: the same maps, or one more order.
  pub settle_maps :
      (req : Request) (total : ℤ) (ch : Checked) (now : ℕ) (s : Service)
      → let (a, s') = settle order_id req total ch now s in
        ((s' ≡ s) × (a.order ≡ none))
        ⊎ ((st : OrderStatus) × (s' ≡ (persist order_id req total st now s).1)
            × (a.order ≡ (persist order_id req total st now s).0.order))
  settle_maps req total ch now s = elim (Option-cases (kept_as total ch)) [
    | inl e ↦ let r = (settle_lem order_id req total ch now s).1 e in inl (r.0, r.1)
    | inr (st, e) ↦ let r = (settle_lem order_id req total ch now s).0 st e in inr (st, r.0, r.1)
  ]

  module _ (inj : (m n : ℕ) → order_id m ≡ order_id n → m ≡ n) where
    pub persist-Leads_other :
        (req : Request) (total : ℤ) (st : OrderStatus) (now : ℕ) (s : Service) (key : String)
        (o : Order)
        → IsSound order_id s
        → (req.idempotency_key ≢ "" → lookup req.idempotency_key s.idem ≡ none)
        → Leads key o s
        → Leads key o (persist order_id req total st now s).1
    persist-Leads_other req total st now s key o h unknown l = record {
      id = l.id;
      by_key = ground (
        arith,
        persist-idem order_id inj req total st now s h key,
        eq_iff req.idempotency_key key,
        eq_iff req.idempotency_key "",
        unknown,
        l.by_key,
      );
      by_id = persist_keeps order_id inj req total st now s h l.id o l.by_id;
    }

    module _ (req : Request) (total : ℤ) (st : OrderStatus) (now : ℕ) (s : Service)
        (h : IsSound order_id s) where
      pub stored_by_id :
          lookup (order_id (suc s.seq)) (persist order_id req total st now s).1.orders
          ≡ some (new_order order_id req total st now s)
      unfolding new_order
      stored_by_id = ground (
        arith,
        persist-orders order_id inj req total st now s h (order_id (suc s.seq)),
        eq_iff (order_id (suc s.seq)) (order_id (suc s.seq)),
      )

      pub stored_by_key :
          req.idempotency_key ≢ ""
          → lookup req.idempotency_key (persist order_id req total st now s).1.idem
            ≡ some (order_id (suc s.seq))
      stored_by_key some_key = ground (
        arith,
        persist-idem order_id inj req total st now s h req.idempotency_key,
        eq_iff req.idempotency_key req.idempotency_key,
        eq_iff req.idempotency_key "",
      )

      pub persist-Leads_self :
          (o : Order)
          → req.idempotency_key ≢ ""
          → (persist order_id req total st now s).0.order ≡ some o
          → Leads req.idempotency_key o (persist order_id req total st now s).1
      unfolding persist
      persist-Leads_self o some_key e = record {
        id = order_id (suc s.seq);
        by_key = stored_by_key some_key;
        by_id = stored_by_id ∙ e;
      }
