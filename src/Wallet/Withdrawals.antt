-- ===== src/Wallet/Withdrawals.antt =====
-- What withdrawals do over the ledger of wallet_test.go.
use mathlib.Core.Path.{subst}
use go_basics.Common.{
  ℕ, ◌+◌, ◌<◌, ◌≡◌, ◌≢◌, ◌⊎◌, inl, inr, refl, sym, ap, ◌∙◌, true, false, String, none, some, [],
  ◌∷◌, ◌++◌, arith, str_eq, eq_iff, ◌==◌, Bool-cases, Option-cases, if◌then◌else◌,
}
use go_basics.Common.Int.{ℤ, pos, ◌+ℤ◌, ◌-ℤ◌, ◌≤ℤ◌, ◌<ℤ◌, leb_ℤ, ltb_ℤ, int64, int64_exact, Fits64}
use go_basics.Common.Dict.{
  nat_comparable, string_comparable, lookup, insert, lookup-insert, insert_cases,
}
use go_basics.Wallet.{
  Account, Result, ok, err, Failure, not_positive, ledger_failed, insufficient_funds, State, settle,
  debit, withdraw,
}
use go_basics.Wallet.FakeLedger.{
  FakeLedger, LedgerError, account_not_found, deref, assign, get, save, fake_ledger, kept, IsSound,
  deref-insert,
}

exact_debit :
    (b amount : ℤ)
    → Fits64 b
    → pos 0 <ℤ amount
    → amount ≤ℤ b
    → (int64 (b -ℤ amount) ≡ b -ℤ amount) × (pos 0 ≤ℤ b -ℤ amount)
unfolding ◌-ℤ◌
exact_debit b amount fits positive enough =
    (int64_exact (b -ℤ amount) (ground arith, ground arith), ground arith)

-- What a withdrawal may do to what is kept and to the notifications.
pub data Settled (id : String) (amount : ℤ) (s : State FakeLedger)
    : Result (Failure LedgerError) ℕ × State FakeLedger → Type 0 where
  refused :
      {e : Failure LedgerError} {s' : State FakeLedger}
      → (amount ≤ℤ pos 0)
        ⊎ (kept id s.ledger ≡ none)
        ⊎ ((a : Account) × (kept id s.ledger ≡ some a) × (a.balance <ℤ amount))
      → ((j : String) → kept j s'.ledger ≡ kept j s.ledger)
      → s'.notified ≡ s.notified
      → Settled id amount s (err e, s')
  debited :
      {p : ℕ} {s' : State FakeLedger} (a : Account)
      → kept id s.ledger ≡ some a
      → pos 0 <ℤ amount
      → amount ≤ℤ a.balance
      → kept id s'.ledger ≡ some (record a { balance = a.balance -ℤ amount })
      → ((j : String) → j ≢ id → kept j s'.ledger ≡ kept j s.ledger)
      → lookup id s'.ledger.accounts ≡ some p
      → s'.notified ≡ s.notified ++ (id, amount) ∷ []
      → Settled id amount s (ok p, s')

-- The ledger after `Get` has made its copy of what a pointer names, and after that copy has been debited and saved.
copied : ℕ → FakeLedger → FakeLedger
copied q s = record s { heap = insert s.next (deref q s) s.heap; next = s.next + 1 }

less : ℤ → Account → Account
less amount a = record a { balance = int64 (a.balance -ℤ amount) }

lowered : String → ℤ → ℕ → FakeLedger → FakeLedger
unfolding copied less
lowered id amount q s = record (copied q s) {
  heap = insert s.next (less amount (deref q s)) (copied q s).heap;
  accounts = insert id s.next s.accounts;
  saves = int64 (s.saves +ℤ pos 1);
}

-- A new account leaves what is kept.
kept_older :
    (s s' : FakeLedger) (j : String)
    → IsSound s
    → lookup j s'.accounts ≡ lookup j s.accounts
    → ((q : ℕ) → q < s.next → deref q s' ≡ deref q s)
    → kept j s' ≡ kept j s
unfolding kept
kept_older s s' j sound same old = elim (Option-cases (lookup j s.accounts)) [
  | inl missing ↦ ground arith
  | inr (q, found) ↦ ground (arith, old q (sound j q found).made)
]

copied-deref :
    (q r : ℕ) (s : FakeLedger)
    → deref r (copied q s) ≡ (if s.next == r then deref q s else deref r s)
unfolding copied
copied-deref q r s = deref-insert s.next r (deref q s) s (copied q s) refl

lowered-deref :
    (id : String) (amount : ℤ) (q r : ℕ) (s : FakeLedger)
    → deref r (lowered id amount q s) ≡ (if s.next == r then less amount (deref q s) else deref r s)
unfolding lowered
lowered-deref id amount q r s =
    deref-insert s.next r (less amount (deref q s)) (copied q s) (lowered id amount q s) refl
    ∙ ground (arith, copied-deref q r s)

copied-accounts : (q : ℕ) (s : FakeLedger) → (copied q s).accounts ≡ s.accounts
unfolding copied
copied-accounts q s = refl

copied-kept : (q : ℕ) (s : FakeLedger) (j : String) → IsSound s → kept j (copied q s) ≡ kept j s
copied-kept q s j sound =
    kept_older s (copied q s) j sound (ap (lookup j) (copied-accounts q s))
      (λ r old. ground (arith, copied-deref q r s))

lowered-accounts :
    (id : String) (amount : ℤ) (q : ℕ) (s : FakeLedger)
    → ((lowered id amount q s).accounts ≡ insert id s.next s.accounts)
      × ((lowered id amount q s).next ≡ s.next + 1)
unfolding lowered copied
lowered-accounts id amount q s = (refl, refl)

copied-IsSound : (q : ℕ) (s : FakeLedger) → IsSound s → IsSound (copied q s)
unfolding copied
copied-IsSound q s sound id p found =
    let h = sound id p found in
    record {
      made = omega (arith, h.made);
      named = ground (arith, copied-deref q p s, h.made, h.named);
    }

less-id : (amount : ℤ) (a : Account) → (less amount a).id ≡ a.id
unfolding less
less-id amount a = refl

lowered-IsSound :
    (id : String) (amount : ℤ) (q : ℕ) (s : FakeLedger)
    → (deref q s).id ≡ id
    → IsSound s
    → IsSound (lowered id amount q s)
lowered-IsSound id amount q s same sound j p found =
    let (there, more) = lowered-accounts id amount q s in
    let at = lowered-deref id amount q p s in
    elim (insert_cases id j s.next p s.accounts (ap (lookup j) (sym there) ∙ found)) [
      | inl (here, new) ↦ record {
        made = omega (arith, more, new);
        named = ground (arith, at, less-id amount (deref q s), here, new);
      }
      | inr old ↦
          let h = sound j p old in
          record { made = omega (arith, more, h.made); named = ground (arith, at, h.made, h.named) }
    ]

-- The two ends of a withdrawal of an account that there is.
withdraw-poor :
    (id : String) (amount : ℤ) (q : ℕ) (s : State FakeLedger)
    → leb_ℤ amount (pos 0) ≡ false
    → lookup id s.ledger.accounts ≡ some q
    → ltb_ℤ (deref q s.ledger).balance amount ≡ true
    → withdraw fake_ledger id amount s
      ≡ (err insufficient_funds, record s { ledger = copied q s.ledger })
unfolding withdraw debit get copied
withdraw-poor id amount q s high found poor = ground (arith, copied-deref q s.ledger.next s.ledger)

withdraw-got :
    (id : String) (amount : ℤ) (q : ℕ) (s : State FakeLedger)
    → leb_ℤ amount (pos 0) ≡ false
    → lookup id s.ledger.accounts ≡ some q
    → withdraw fake_ledger id amount s
      ≡ debit fake_ledger id amount s.ledger.next (record s { ledger = copied q s.ledger })
unfolding withdraw get copied
withdraw-got id amount q s high found = ground arith

-- The copy's debit, written to the heap.
written : ℤ → ℕ → FakeLedger → FakeLedger
unfolding assign
written amount q s = assign s.next (less amount (deref q s)) (copied q s)

debit-enough :
    (id : String) (amount : ℤ) (q : ℕ) (s : State FakeLedger)
    → ltb_ℤ (deref q s.ledger).balance amount ≡ false
    → debit fake_ledger id amount s.ledger.next (record s { ledger = copied q s.ledger })
      ≡ settle fake_ledger id amount s.ledger.next (record s { ledger = written amount q s.ledger })
unfolding debit written less
debit-enough id amount q s rich =
    let shown : deref s.ledger.next (copied q s.ledger) ≡ deref q s.ledger =
      ground (arith, copied-deref q s.ledger.next s.ledger) in
    ap
      (λ a.
        if ltb_ℤ a.balance amount
        then (err insufficient_funds, record s { ledger = copied q s.ledger })
        else settle fake_ledger id amount s.ledger.next (record s {
          ledger =
              assign s.ledger.next (record a { balance = int64 (a.balance -ℤ amount) })
                (copied q s.ledger);
        }))
      shown
    ∙ ap
        (λ b.
          if b
          then (err insufficient_funds, record s { ledger = copied q s.ledger })
          else settle fake_ledger id amount s.ledger.next
              (record s { ledger = written amount q s.ledger }))
        rich

settle-written :
    (id : String) (amount : ℤ) (q : ℕ) (s : State FakeLedger)
    → (deref q s.ledger).id ≡ id
    → settle fake_ledger id amount s.ledger.next (record s { ledger = written amount q s.ledger })
      ≡ (
        ok s.ledger.next,
        record {
          ledger = lowered id amount q s.ledger;
          notified = s.notified ++ (id, amount) ∷ [];
        },
      )
unfolding settle save written assign lowered copied
settle-written id amount q s same =
    let n = s.ledger.next in
    let shown : deref n (written amount q s.ledger) ≡ less amount (deref q s.ledger) = ground (
      arith,
      deref-insert n n (less amount (deref q s.ledger)) (copied q s.ledger)
          (written amount q s.ledger) refl,
    ) in
    ap
      (λ i. (
        ok n,
        record {
          ledger = record (written amount q s.ledger) {
            accounts = insert i n s.ledger.accounts;
            saves = int64 (s.ledger.saves +ℤ pos 1);
          };
          notified = s.notified ++ (id, amount) ∷ [];
        },
      ))
      (ap (λ a. a.id) shown ∙ less-id amount (deref q s.ledger) ∙ same)

-- What `lowered` keeps.
lowered-kept :
    (id : String) (amount : ℤ) (q : ℕ) (s : FakeLedger)
    → IsSound s
    → (kept id (lowered id amount q s) ≡ some (less amount (deref q s)))
      × ((j : String) → j ≢ id → kept j (lowered id amount q s) ≡ kept j s)
      × (lookup id (lowered id amount q s).accounts ≡ some s.next)
unfolding kept
lowered-kept id amount q s sound =
    let (there, more) = lowered-accounts id amount q s in
    let at : (j : String)
        → lookup j (lowered id amount q s).accounts
          ≡ (if str_eq id j then some s.next else lookup j s.accounts) =
      λ j. ap (lookup j) there ∙ lookup-insert id j s.next s.accounts in
    (
      ground (arith, at id, eq_iff id id, lowered-deref id amount q s.next s),
      λ j other.
          let apart : id ≢ j = λ e. other (sym e) in
          kept_older s (lowered id amount q s) j sound (at j ∙ ground (arith, eq_iff id j, apart))
            (λ r old. ground (arith, lowered-deref id amount q r s)),
      at id ∙ ground (arith, eq_iff id id),
    )

kept-found :
    (id : String) (q : ℕ) (s : FakeLedger)
    → lookup id s.accounts ≡ some q
    → kept id s ≡ some (deref q s)
unfolding kept
kept-found id q s found = ground arith

kept-missing : (id : String) (s : FakeLedger) → lookup id s.accounts ≡ none → kept id s ≡ none
unfolding kept
kept-missing id s missing = ground arith

withdraw-low :
    (id : String) (amount : ℤ) (s : State FakeLedger)
    → leb_ℤ amount (pos 0) ≡ true
    → withdraw fake_ledger id amount s ≡ (err not_positive, s)
unfolding withdraw
withdraw-low id amount s low = ground arith

withdraw-missing :
    (id : String) (amount : ℤ) (s : State FakeLedger)
    → leb_ℤ amount (pos 0) ≡ false
    → lookup id s.ledger.accounts ≡ none
    → withdraw fake_ledger id amount s ≡ (err (ledger_failed account_not_found), s)
unfolding withdraw get
withdraw-missing id amount s high missing = ground arith

-- A result of a withdrawal that leaves the ledger sound.
abbrev pub IsGood :
    String → ℤ → State FakeLedger → Result (Failure LedgerError) ℕ × State FakeLedger → Type 0
IsGood id amount s r = Settled id amount s r × IsSound r.1.ledger

withdraw-IsGood :
    (id : String) (amount : ℤ) (q : ℕ) (s : State FakeLedger)
    → IsSound s.ledger
    → Fits64 (deref q s.ledger).balance
    → leb_ℤ amount (pos 0) ≡ false
    → lookup id s.ledger.accounts ≡ some q
    → ltb_ℤ (deref q s.ledger).balance amount ≡ false
    → IsGood id amount s (withdraw fake_ledger id amount s)
unfolding less
withdraw-IsGood id amount q s sound fits high found rich =
    let a = deref q s.ledger in
    let named = (sound id q found).named in
    let whole =
      withdraw-got id amount q s high found
      ∙ debit-enough id amount q s rich
      ∙ settle-written id amount q s named in
    let (now, others, by) = lowered-kept id amount q s.ledger sound in
    let positive : pos 0 <ℤ amount = ground arith in
    let enough : amount ≤ℤ a.balance = ground arith in
    let exact = (exact_debit a.balance amount fits positive enough).0 in
    subst (IsGood id amount s) (sym whole) (
      Settled.debited a (kept-found id q s.ledger found) positive enough
          (now ∙ ap (λ b. some (record a { balance = b })) exact) others by refl,
      lowered-IsSound id amount q s.ledger named sound,
    )

-- Over the ledger of the tests, whose accounts stand under their ids and have a balance in the range of an int64:
-- a withdrawal is refused only where its amount is 0 or less, or there is no such account, or it has less than
-- the amount, and then every account is kept as it was and no notification is sent. A withdrawal that succeeds is
-- of an amount above 0 and at most the balance, takes exactly that off the account, leaves the others and
-- sends one notification, and its answer is the pointer by which the ledger keeps the account. The accounts
-- stand under their ids again.
pub withdraw-Settled :
    (id : String) (amount : ℤ) (s : State FakeLedger)
    → IsSound s.ledger
    → ((a : Account) → kept id s.ledger ≡ some a → Fits64 a.balance)
    → Settled id amount s (withdraw fake_ledger id amount s)
      × IsSound (withdraw fake_ledger id amount s).1.ledger
withdraw-Settled id amount s sound fits = elim (Bool-cases (leb_ℤ amount (pos 0))) [
  | inl low ↦
      subst (IsGood id amount s) (sym (withdraw-low id amount s low))
        (Settled.refused (inl (ground arith)) (λ j. refl) refl, sound)
  | inr high ↦ elim (Option-cases (lookup id s.ledger.accounts)) [
    | inl missing ↦
        subst (IsGood id amount s) (sym (withdraw-missing id amount s high missing))
          (Settled.refused (inr (inl (kept-missing id s.ledger missing))) (λ j. refl) refl, sound)
    | inr (q, found) ↦
        let here = kept-found id q s.ledger found in
        elim (Bool-cases (ltb_ℤ (deref q s.ledger).balance amount)) [
          | inl poor ↦
              subst (IsGood id amount s) (sym (withdraw-poor id amount q s high found poor)) (
                Settled.refused (inr (inr (deref q s.ledger, here, ground arith)))
                    (λ j. copied-kept q s.ledger j sound) refl,
                copied-IsSound q s.ledger sound,
              )
          | inr rich ↦
              withdraw-IsGood id amount q s sound (fits (deref q s.ledger) here) high found rich
        ]
  ]
]
