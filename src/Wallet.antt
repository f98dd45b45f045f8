-- ===== src/Wallet.antt =====
-- 59_testify/wallet.go. The service has its accounts by pointers from a ledger that it is given: what it
-- writes through a pointer may or may not be what the ledger keeps.
pub mod FakeLedger
pub mod Withdrawals
mod Tests
use go_basics.Common.{ℕ, String, List, [], ◌∷◌, ◌++◌, ◌≡◌, if◌then◌else◌}
use go_basics.Common.Int.{ℤ, pos, ◌-ℤ◌, leb_ℤ, ltb_ℤ, int64}

-- `Account`.
pub record Account : Type 0 where
  pub id : String
  pub balance : ℤ

pub data Result (E : Type 0) (A : Type 0) : Type 0 where
  ok : A → Result E A
  err : E → Result E A

-- `Ledger`, on a state, with what its pointers show there and what is written through them.
pub record Ledger (S : Type 0) (P : Type 0) (E : Type 0) : Type 0 where
  pub get : String → S → Result E P × S
  pub save : P → S → Result E Unit × S
  pub read : P → S → Account
  pub write : P → Account → S → S

-- How a withdrawal fails; the error of the ledger is wrapped.
pub data Failure (E : Type 0) : Type 0 where
  not_positive : Failure E
  ledger_failed : E → Failure E
  insufficient_funds : Failure E

-- The ledger's state, and what the notifier was asked to send; its error is ignored.
pub record State (S : Type 0) : Type 0 where
  pub ledger : S
  pub notified : List (String × ℤ)

module _ {S P E : Type 0} (l : Ledger S P E) where
  -- `Withdraw` from `Save` on, with the account's pointer.
  unfoldable pub settle : String → ℤ → P → State S → Result (Failure E) P × State S
  settle id amount p s = elim (l.save p s.ledger).0 [
    | err e ↦ (err (ledger_failed e), record s { ledger = (l.save p s.ledger).1 })
    | ok u ↦ (
      ok p,
      record { ledger = (l.save p s.ledger).1; notified = s.notified ++ (id, amount) ∷ [] },
    )
  ]

  -- `Withdraw` from the account's balance on.
  unfoldable pub debit : String → ℤ → P → State S → Result (Failure E) P × State S
  unfolding settle
  debit id amount p s =
      let acc = l.read p s.ledger in
      if ltb_ℤ acc.balance amount
      then (err insufficient_funds, s)
      else settle id amount p (record s {
        ledger = l.write p (record acc { balance = int64 (acc.balance -ℤ amount) }) s.ledger;
      })

  -- `Withdraw`.
  unfoldable pub withdraw : String → ℤ → State S → Result (Failure E) P × State S
  unfolding debit
  withdraw id amount s =
      if leb_ℤ amount (pos 0) then (err not_positive, s) else elim (l.get id s.ledger).0 [
        | err e ↦ (err (ledger_failed e), record s { ledger = (l.get id s.ledger).1 })
        | ok p ↦ debit id amount p (record s { ledger = (l.get id s.ledger).1 })
      ]
