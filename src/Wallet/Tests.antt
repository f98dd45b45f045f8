-- ===== src/Wallet/Tests.antt =====
-- Withdrawals from ledgers of one account, and the theorem at a concrete input.
use go_basics.Common.{◌≡◌, refl, some, [], ◌∷◌, arith}
use go_basics.Common.Int.{pos, ◌+ℤ◌, ◌-ℤ◌, int64, Fits64}
use go_basics.Common.Dict.{lookup, insert, string_comparable, nat_comparable}
use go_basics.Wallet.{Account, ok, err, Ledger, ledger_failed, State, withdraw}
use go_basics.Wallet.FakeLedger.{
  FakeLedger, new_fake_ledger, new_fake_ledger-IsSound, deref, assign, get, save, fake_ledger, kept,
  IsSound,
}
use go_basics.Wallet.Withdrawals.{Settled, withdraw-Settled}

abbrev ann : Account
ann = record { id = "ann"; balance = pos 50 }

abbrev start : State FakeLedger
start = record { ledger = new_fake_ledger (ann ∷ []); notified = [] }

takes_thirty :
    kept "ann" (withdraw fake_ledger "ann" (pos 30) start).1.ledger
    ≡ some (record ann { balance = pos 20 })
unfolding withdraw get save deref assign kept new_fake_ledger lookup insert int64 ◌-ℤ◌ ◌+ℤ◌
takes_thirty = refl

start-Fits64 : (a : Account) → kept "ann" start.ledger ≡ some a → Fits64 a.balance
unfolding lookup insert kept new_fake_ledger deref
start-Fits64 a h = ground arith

withdraw-Settled_example :
    Settled "ann" (pos 30) start (withdraw fake_ledger "ann" (pos 30) start)
    × IsSound (withdraw fake_ledger "ann" (pos 30) start).1.ledger
withdraw-Settled_example =
    withdraw-Settled "ann" (pos 30) start (new_fake_ledger-IsSound (ann ∷ [])) start-Fits64

-- What is written through the pointer that a withdrawal answers is what the ledger keeps.
kept_through_pointer :
    kept "ann" (
      assign 1
        (record ann { balance = pos 0 })
        (withdraw fake_ledger "ann" (pos 30) start).1.ledger)
    ≡ some (record ann { balance = pos 0 })
unfolding withdraw get save deref assign kept new_fake_ledger lookup insert int64 ◌-ℤ◌ ◌+ℤ◌
kept_through_pointer = refl

data Trouble : Type 0 where
  disk_full : Trouble

-- A ledger that hands out the account that it keeps, and cannot save.
abbrev sharing : Ledger Account Unit Trouble
sharing = record {
  get = λ id a. (ok tt, a);
  save = λ p a. (err disk_full, a);
  read = λ p a. a;
  write = λ p a b. a;
}

abbrev fifty : State Account
fifty = record { ledger = ann; notified = [] }

-- There a withdrawal that fails has taken the money.
failed_but_taken : withdraw sharing "ann" (pos 30) fifty ≡ (
  err (ledger_failed disk_full),
  record { ledger = record { id = "ann"; balance = pos 20 }; notified = [] },
)
unfolding withdraw int64 ◌-ℤ◌
failed_but_taken = refl
