-- ===== src/Microservices/Orders/Store.antt =====
-- The maps of the order service.
use go_basics.Common.{
  ℕ, suc, ◌≤◌, ◌≡◌, ◌≢◌, ◌⊎◌, inl, inr, sym, ◌&&◌, String, Option, none, some, arith, str_eq,
  eq_iff, if◌then◌else◌, Bool-cases, Option-cases,
}
use go_basics.Common.Int.{ℤ, pos, leb_ℤ}
use go_basics.Common.Dict.{string_comparable, lookup, lookup-insert}
use go_basics.Microservices.Orders.{
  OrderStatus, pending, confirmed, rejected, Order, Request, Service, new_service, Checked, credit,
  unchecked, is_down, new_order, persist, persist_rejected, settle,
}

module _ (order_id : ℕ → String) where
  -- Every order is stored under its id, which a number up to `seq` gives, and every idempotency key
  -- leads to an order.
  pub record IsSound (s : Service) : Type 0 where
    pub own_id : (id : String) (o : Order) → lookup id s.orders ≡ some o → o.id ≡ id
    pub numbered :
        (id : String) (o : Order)
        → lookup id s.orders ≡ some o
        → (n : ℕ) × (n ≤ s.seq) × (id ≡ order_id n)
    pub leads :
        (key id : String)
        → lookup key s.idem ≡ some id
        → (o : Order) × (lookup id s.orders ≡ some o)

  pub new_service-IsSound : IsSound new_service
  unfolding lookup
  new_service-IsSound = record {
    own_id = λ id o h. cc;
    numbered = λ id o h. cc;
    leads = λ key id h. cc;
  }

  module _ (inj : (m n : ℕ) → order_id m ≡ order_id n → m ≡ n) where
    -- The next id is not taken.
    pub fresh : (s : Service) → IsSound s → lookup (order_id (suc s.seq)) s.orders ≡ none
    fresh s h = elim (Option-cases (lookup (order_id (suc s.seq)) s.orders)) [
      | inl free ↦ free
      | inr (o, taken) ↦
          let (n, below, e) = h.numbered (order_id (suc s.seq)) o taken in
          absurd (omega (arith, inj (suc s.seq) n e))
    ]

    module _ (req : Request) (total : ℤ) (st : OrderStatus) (now : ℕ) (s : Service)
        (h : IsSound s) where
      abbrev pub stored : Service
      stored = (persist order_id req total st now s).1

      abbrev pub made : Order
      made = new_order order_id req total st now s

      pub persist-orders :
          (j : String)
          → lookup j stored.orders ≡ (if str_eq made.id j then some made else lookup j s.orders)
      unfolding persist
      persist-orders j = lookup-insert made.id j made s.orders

      -- No order that is there is lost or changed.
      pub persist_keeps :
          (j : String) (o : Order) → lookup j s.orders ≡ some o → lookup j stored.orders ≡ some o
      unfolding new_order
      persist_keeps j o there =
          ground (arith, persist-orders j, fresh s h, eq_iff (order_id (suc s.seq)) j)

      pub persist-idem :
          (key : String)
          → lookup key stored.idem ≡ (
              if str_eq req.idempotency_key ""
              then lookup key s.idem
              else if str_eq req.idempotency_key key
              then some (order_id (suc s.seq))
              else lookup key s.idem)
      unfolding persist new_order
      persist-idem key =
          ground (arith, lookup-insert req.idempotency_key key (order_id (suc s.seq)) s.idem)

      -- A key leads to the new order, or where it led before.
      leads_to :
          (key id : String)
          → lookup key stored.idem ≡ some id
          → (id ≡ order_id (suc s.seq)) ⊎ (lookup key s.idem ≡ some id)
      leads_to key id there = ground (arith, persist-idem key)

      pub persist-IsSound : IsSound stored
      unfolding new_order persist
      persist-IsSound = record {
        own_id = λ id o there.
            ground (arith, persist-orders id, h.own_id id o, eq_iff (order_id (suc s.seq)) id);
        numbered = λ id o there. elim (Bool-cases (str_eq (order_id (suc s.seq)) id)) [
          | inl e ↦ (suc s.seq, omega arith, sym ((eq_iff (order_id (suc s.seq)) id).0 e))
          | inr e ↦
              let old : lookup id s.orders ≡ some o = ground (arith, persist-orders id) in
              let (n, below, q) = h.numbered id o old in (n, omega arith, q)
        ];
        leads = λ key id there. elim (leads_to key id there) [
          | inl e ↦ (made, ground (arith, persist-orders id, eq_iff (order_id (suc s.seq)) id))
          | inr old ↦ let (o, found) = h.leads key id old in (o, persist_keeps id o found)
        ];
      }

-- The status of the order that `CreateOrder` stores, if it stores one.
pub kept_as : ℤ → Checked → Option OrderStatus
kept_as total (credit c) = some (if c.approved then confirmed else rejected)
kept_as total (unchecked e) = if is_down e && leb_ℤ total (pos 10_000) then some pending else none

-- After the credit check an order is stored exactly in these cases: CONFIRMED where the check
-- approves, REJECTED where it declines, and, while the user service is down, PENDING for a total of
-- at most 10,000 cents. The answer then holds that order. Otherwise nothing changes, and the
-- answer is an error without an order. A declined check gives the order and an error.
pub settle_lem :
    (order_id : ℕ → String) (req : Request) (total : ℤ) (ch : Checked) (now : ℕ) (s : Service)
    → let (a, s') = settle order_id req total ch now s in
      ((st : OrderStatus)
        → kept_as total ch ≡ some st
        → (s' ≡ (persist order_id req total st now s).1)
          × (a.order ≡ (persist order_id req total st now s).0.order)
          × ((a.err ≡ none) ⊎ (st ≡ rejected)))
      × (kept_as total ch ≡ none → (s' ≡ s) × (a.order ≡ none) × (a.err ≢ none))
unfolding settle kept_as persist_rejected
settle_lem order_id req total (credit c) now s = (λ st k. ground arith, λ k. cc)
settle_lem order_id req total (unchecked e) now s = (λ st k. ground arith, λ k. ground arith)
