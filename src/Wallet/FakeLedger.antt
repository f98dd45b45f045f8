-- ===== src/Wallet/FakeLedger.antt =====
-- The ledger of 59_testify/wallet_test.go, with its accounts on a heap: `Get` hands out a new account that is a
-- copy, and `Save` keeps the account that its pointer names, not a copy of it.
use go_basics.Common.{
  ℕ, ◌+◌, ◌≡◌, ◌<◌, refl, ap, Option, none, some, List, [], ◌∷◌, inl, inr, arith, String, ◌==◌,
  if◌then◌else◌,
}
use go_basics.Common.Int.{ℤ, pos, ◌+ℤ◌, int64}
use go_basics.Common.Dict.{
  Dict, nat_comparable, string_comparable, lookup, insert, lookup-insert, insert_cases,
}
use go_basics.Wallet.{Account, Result, ok, err, Ledger}

-- `fakeLedger`, and the heap that its pointers name.
pub record FakeLedger : Type 0 where
  pub heap : Dict ℕ Account
  pub next : ℕ
  pub accounts : Dict String ℕ
  pub saves : ℤ

-- Its only error.
pub data LedgerError : Type 0 where
  account_not_found : LedgerError

-- The account that a pointer names.
unfoldable pub deref : ℕ → FakeLedger → Account
deref p s = elim (lookup p s.heap) [ none ↦ record { id = ""; balance = pos 0 } | some a ↦ a ]

-- The heap with an account where a pointer names it.
unfoldable pub assign : ℕ → Account → FakeLedger → FakeLedger
assign p a s = record s { heap = insert p a s.heap }

-- `Get`.
unfoldable pub get : String → FakeLedger → Result LedgerError ℕ × FakeLedger
unfolding deref
get id s = elim (lookup id s.accounts) [
  | none ↦ (err account_not_found, s)
  | some p ↦ (ok s.next, record s { heap = insert s.next (deref p s) s.heap; next = s.next + 1 })
]

-- `Save`.
unfoldable pub save : ℕ → FakeLedger → Result LedgerError Unit × FakeLedger
unfolding deref
save p s = (
  ok tt,
  record s { accounts = insert (deref p s).id p s.accounts; saves = int64 (s.saves +ℤ pos 1) },
)

abbrev pub fake_ledger : Ledger FakeLedger ℕ LedgerError
fake_ledger = record { get = get; save = save; read = deref; write = assign }

-- `newFakeLedger`, of the accounts that its caller makes for it.
unfoldable pub new_fake_ledger : List Account → FakeLedger
new_fake_ledger [] = record { heap = []; next = 0; accounts = []; saves = pos 0 }
new_fake_ledger (a ∷ seed) =
    let s = new_fake_ledger seed in
    record s {
      heap = insert s.next a s.heap;
      next = s.next + 1;
      accounts = insert a.id s.next s.accounts;
    }

-- What the ledger keeps of an account.
unfoldable pub kept : String → FakeLedger → Option Account
kept id s = elim (lookup id s.accounts) [ none ↦ none | some p ↦ some (deref p s) ]

-- Each account that is kept has been made, and stands under its id.
pub record IsPlaced (s : FakeLedger) (id : String) (p : ℕ) : Type 0 where
  pub made : p < s.next
  pub named : (deref p s).id ≡ id

abbrev pub IsSound : FakeLedger → Type 0
IsSound s = (id : String) (p : ℕ) → lookup id s.accounts ≡ some p → IsPlaced s id p

pub deref-insert :
    (p q : ℕ) (a : Account) (s s' : FakeLedger)
    → s'.heap ≡ insert p a s.heap
    → deref q s' ≡ (if p == q then a else deref q s)
unfolding deref
deref-insert p q a s s' same = ground (arith, lookup-insert p q a s.heap, ap (lookup q) same)

pub new_fake_ledger-IsSound : (seed : List Account) → IsSound (new_fake_ledger seed)
unfolding new_fake_ledger lookup
new_fake_ledger-IsSound [] id p found = absurd (ground arith)
new_fake_ledger-IsSound (a ∷ seed) id p found =
    let s = new_fake_ledger seed in
    let s' = new_fake_ledger (a ∷ seed) in
    let at = deref-insert s.next p a s s' refl in
    elim (insert_cases a.id id s.next p s.accounts found) [
      | inl (here, same) ↦ record { made = omega (arith, same); named = ground (arith, here) }
      | inr old ↦
          let q = new_fake_ledger-IsSound seed id p old in
          record { made = omega (arith, q.made); named = ground (arith, q.made, q.named) }
    ]
