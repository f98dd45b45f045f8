-- ===== src/Microservices/Users/Accounts.antt =====
-- What the credit check promises.
use mathlib.Core.Path.{subst, sym}
use go_basics.Common.{
  ◌≡◌, ◌≢◌, ◌⊎◌, inl, inr, refl, true, false, String, Option, none, some, arith, str_eq, eq_iff,
  if◌then◌else◌, Option-cases, Bool-cases,
}
use go_basics.Common.Int.{
  ℤ, pos, ◌+ℤ◌, ◌-ℤ◌, ◌≤ℤ◌, ◌<ℤ◌, int64, Fits64, int64_exact, +ℤ_parts, -ℤ_parts,
}
use go_basics.Common.Dict.{string_comparable, lookup, insert, lookup-insert}
use go_basics.Microservices.Platform.{Failure, status, not_found, failed_precondition}
use go_basics.Microservices.Users.{
  new_service, User, Service, Moment, chaos, replied, refused, spent_of, charge, validate_user,
  validate_credit,
}

-- A user's account: nothing negative spent, and no more than the limit.
pub record IsSoundAccount (u : User) (s : Service) : Type 0 where
  pub limit_fits : Fits64 u.credit_limit_cents
  pub spent_nonneg : pos 0 ≤ℤ spent_of s u.id
  pub spent-le-limit : spent_of s u.id ≤ℤ u.credit_limit_cents

spent_of-insert :
    (s : Service) (id j : String) (n : ℤ)
    → spent_of (record s { spent = insert id n s.spent }) j
      ≡ (if str_eq id j then n else spent_of s j)
unfolding spent_of
spent_of-insert s id j n = ground (arith, lookup-insert id j n s.spent)

-- In a sound account what is left of the limit is exact.
remaining_exact : (l n : ℤ) → Fits64 l → pos 0 ≤ℤ n → n ≤ℤ l → int64 (l -ℤ n) ≡ l -ℤ n
unfolding ◌-ℤ◌
remaining_exact l n fits nonneg below = int64_exact (l -ℤ n) (ground arith)

spend_exact :
    (l n a : ℤ) → Fits64 l → pos 0 ≤ℤ n → pos 0 ≤ℤ a → n +ℤ a ≤ℤ l → int64 (n +ℤ a) ≡ n +ℤ a
unfolding ◌+ℤ◌
spend_exact l n a fits nonneg some_amount below = int64_exact (n +ℤ a) (ground arith)

-- For a sound account and an amount that is not negative: the charge is approved exactly when the
-- amount is at most what is left of the limit; then it is added to what is spent, and to nothing
-- else; otherwise nothing changes. The account stays sound.
pub charge_lem :
    (u : User) (amount : ℤ) (s : Service)
    → IsSoundAccount u s
    → pos 0 ≤ℤ amount
    → let (credit, s') = charge u amount s in
      (credit.approved ≡ true
        → (spent_of s u.id +ℤ amount ≤ℤ u.credit_limit_cents)
          × (spent_of s' u.id ≡ spent_of s u.id +ℤ amount))
      × (credit.approved ≡ false → (u.credit_limit_cents <ℤ spent_of s u.id +ℤ amount) × (s' ≡ s))
      × ((j : String) → j ≢ u.id → spent_of s' j ≡ spent_of s j)
      × IsSoundAccount u s'
unfolding charge
charge_lem u amount s h nonneg =
    let l = u.credit_limit_cents in
    let n = spent_of s u.id in
    let exact = remaining_exact l n h.limit_fits h.spent_nonneg h.spent-le-limit in
    let sum = spend_exact l n amount h.limit_fits h.spent_nonneg nonneg in
    let left = -ℤ_parts l n in
    let total = +ℤ_parts n amount in
    let at = λ (j : String). spent_of-insert s u.id j (int64 (n +ℤ amount)) in
    rw exact (
      λ ok. ground (arith, sum, left, total, at u.id, eq_iff u.id u.id),
      λ ko. ground (arith, left, total),
      λ j ne. ground (arith, at j, eq_iff u.id j),
      record {
        limit_fits = h.limit_fits;
        spent_nonneg = ground (arith, sum, left, total, at u.id, eq_iff u.id u.id);
        spent-le-limit = ground (arith, sum, left, total, at u.id, eq_iff u.id u.id);
      },
    )

-- Every user is stored under its own id, with a sound account.
pub record IsSoundService (s : Service) : Type 0 where
  pub at_id : (id : String) (u : User) → lookup id s.users ≡ some u → u.id ≡ id
  pub account : (id : String) (u : User) → lookup id s.users ≡ some u → IsSoundAccount u s

users-charge : (u : User) (amount : ℤ) (s : Service) → (charge u amount s).1.users ≡ s.users
unfolding charge
users-charge u amount s = ground arith

validate_user_cases :
    (o : Option User) (amount : ℤ) (s : Service)
    → ((e : Failure) × (validate_user o amount s ≡ (refused e, s)))
      ⊎ ((u : User) × (o ≡ some u)
          × (validate_user o amount s ≡ (replied (charge u amount s).0, (charge u amount s).1)))
unfolding validate_user
validate_user_cases none amount s = inl (status not_found, refl)
validate_user_cases (some u) amount s = elim (Bool-cases u.active) [
  | inl on ↦ inr (u, refl, ground arith)
  | inr off ↦ inl (status failed_precondition, ground arith)
]

-- A request is refused and changes nothing, or it charges the user that it names.
pub validate_credit_cases :
    (m : Moment) (id : String) (amount : ℤ) (s : Service)
    → ((e : Failure) × (validate_credit m id amount s ≡ (refused e, s)))
      ⊎ ((u : User) × (lookup id s.users ≡ some u)
          × (validate_credit m id amount s
              ≡ (replied (charge u amount s).0, (charge u amount s).1)))
unfolding validate_credit
validate_credit_cases m id amount s = elim (Option-cases (chaos m s)) [
  | inl fine ↦ rw (fine, validate_credit) (validate_user_cases (lookup id s.users) amount s)
  | inr (e, bad) ↦ inl (e, ground arith)
]

-- An account keeps its soundness where what is spent on it does not change.
account_kept :
    (u : User) (s s' : Service)
    → spent_of s' u.id ≡ spent_of s u.id
    → IsSoundAccount u s
    → IsSoundAccount u s'
account_kept u s s' e h = record {
  limit_fits = h.limit_fits;
  spent_nonneg = rw e h.spent_nonneg;
  spent-le-limit = rw e h.spent-le-limit;
}

charge-account :
    (u v : User) (amount : ℤ) (s : Service)
    → IsSoundAccount u s
    → pos 0 ≤ℤ amount
    → IsSoundAccount v s
    → (v.id ≡ u.id → v ≡ u)
    → IsSoundAccount v (charge u amount s).1
charge-account u v amount s hu nonneg hv same =
    let c = charge_lem u amount s hu nonneg in
    elim (Bool-cases (str_eq v.id u.id)) [
      | inl e ↦
          subst (λ w. IsSoundAccount w (charge u amount s).1) (sym (same ((eq_iff v.id u.id).0 e)))
            c.3
      | inr ne ↦
          account_kept v s (charge u amount s).1 (c.2 v.id (λ q. ground (arith, eq_iff v.id u.id)))
            hv
    ]

one_user :
    (s : Service) (h : IsSoundService s) (j id : String) {v u : User}
    → lookup j s.users ≡ some v
    → lookup id s.users ≡ some u
    → v.id ≡ u.id
    → v ≡ u
one_user s h j id {v} {u} there found e = cc (h.at_id j v there, h.at_id id u found)

-- Whatever users there are: a request with an amount that is not negative keeps every account
-- sound, so that no user ever spends more than the limit.
pub validate_credit-IsSoundService :
    (m : Moment) (id : String) (amount : ℤ) (s : Service)
    → pos 0 ≤ℤ amount
    → IsSoundService s
    → IsSoundService (validate_credit m id amount s).1
validate_credit-IsSoundService m id amount s nonneg h = elim (validate_credit_cases m id amount s) [
  | inl (e, same) ↦ subst (λ r. IsSoundService r.1) (sym same) h
  | inr (u, found, same) ↦ subst (λ r. IsSoundService r.1) (sym same) (charged u found)
]
  where
    charged : (u : User) → lookup id s.users ≡ some u → IsSoundService (charge u amount s).1
    charged u found = record {
      at_id = λ j v there. h.at_id j v (rw users-charge at there);
      account = λ j v there.
          let there' : lookup j s.users ≡ some v = rw users-charge at there in
          charge-account u v amount s (h.account id u found) nonneg (h.account j v there')
            (one_user s h j id there' found);
    }

-- An amount below zero is never declined: with a sound account it is approved, and what the user
-- has spent goes down by it, for an exact difference that fits an `int64`.
pub charge_negative :
    (u : User) (amount : ℤ) (s : Service)
    → IsSoundAccount u s
    → amount <ℤ pos 0
    → Fits64 (spent_of s u.id +ℤ amount)
    → let (credit, s') = charge u amount s in
      (credit.approved ≡ true) × (spent_of s' u.id <ℤ spent_of s u.id)
unfolding charge
charge_negative u amount s h below fits =
    let n = spent_of s u.id in
    let exact =
      remaining_exact u.credit_limit_cents n h.limit_fits h.spent_nonneg h.spent-le-limit in
    let left = -ℤ_parts u.credit_limit_cents n in
    let total = +ℤ_parts n amount in
    let at = spent_of-insert s u.id u.id (int64 (n +ℤ amount)) in
    rw exact (
      ground (arith, left),
      ground (arith, left, total, at, int64_exact (n +ℤ amount), eq_iff u.id u.id),
    )

-- The service that `New` makes is sound.
pub new_service-IsSoundService : IsSoundService new_service
unfolding new_service lookup spent_of
new_service-IsSoundService = record {
  at_id = λ id u found. ground (arith, eq_iff "u1" id, eq_iff "u2" id, eq_iff "u3" id);
  account = λ id u found. ground (arith, eq_iff "u1" id, eq_iff "u2" id, eq_iff "u3" id);
}
