-- ===== src/Books/Totals.antt =====
-- What a transfer of pages does to their total.
use go_basics.Common.{
  ◌≡◌, ◌≢◌, refl, sym, ap, ◌∙◌, none, some, [], ◌∷◌, ◌⊎◌, inl, inr, arith, Bool-cases, Option-cases,
}
use go_basics.Common.Int.{ℤ, pos, ◌+ℤ◌, ◌-ℤ◌, int_laws}
use go_basics.Common.Dict.{Dict, int_comparable, lookup, insert}
use go_basics.Common.Database.{Commit, committed, rolled_back, reply_lost}
use go_basics.Books.{Book, ok, update_pages, Faults, close, credit, transfer_pages}

-- The sum of the pages.
abbrev pub total : Dict ℤ Book → ℤ
total [] = pos 0
total ((id, b) ∷ t) = b.pages +ℤ total t

total-insert :
    (id : ℤ) (b old : Book) (t : Dict ℤ Book)
    → lookup id t ≡ some old
    → total (insert id b t) +ℤ old.pages ≡ total t +ℤ b.pages
unfolding lookup insert
total-insert id b old [] h = absurd (cc)
total-insert id b old (x ∷ t) h = grind (int_laws, total-insert id b old t)

added_total : (new old b f d : ℤ) → new +ℤ b ≡ old +ℤ f → f ≡ b +ℤ d → new ≡ old +ℤ d
added_total new old b f d moved added = grind int_laws

update_pages-missing :
    (f : ℤ → ℤ) (id : ℤ) (t : Dict ℤ Book) → lookup id t ≡ none → update_pages f id t ≡ (0, t)
unfolding update_pages
update_pages-missing f id t missing = ground arith

update_pages-found :
    (f : ℤ → ℤ) (id : ℤ) (b : Book) (t : Dict ℤ Book)
    → lookup id t ≡ some b
    → update_pages f id t ≡ (1, insert id (record b { pages = f b.pages }) t)
unfolding update_pages
update_pages-found f id b t found = ground arith

-- An update that matches a row moves the total by what it adds to the row.
update_pages-total :
    (f : ℤ → ℤ) (d id : ℤ) (b : Book) (t : Dict ℤ Book)
    → f b.pages ≡ b.pages +ℤ d
    → lookup id t ≡ some b
    → total (update_pages f id t).1 ≡ total t +ℤ d
update_pages-total f d id b t added found =
    ap (λ r. total r.1) (update_pages-found f id b t found)
    ∙ added_total (total (insert id (record b { pages = f b.pages }) t)) (total t) b.pages
        (f b.pages) d (total-insert id (record b { pages = f b.pages }) b t found) added

Commit-cases : (c : Commit) → (c ≡ committed) ⊎ ((c ≡ rolled_back) ⊎ (c ≡ reply_lost))
Commit-cases committed = inl refl
Commit-cases rolled_back = inr (inl refl)
Commit-cases reply_lost = inr (inr refl)

credit-ok :
    (faults : Faults) (to_id pages : ℤ) (debited old : Dict ℤ Book)
    → (credit faults to_id pages debited old).0 ≡ ok tt
    → (b : Book) × (lookup to_id debited ≡ some b)
      × ((credit faults to_id pages debited old).1
          ≡ (update_pages (λ p. p +ℤ pages) to_id debited).1)
unfolding credit close update_pages
credit-ok faults to_id pages debited old h = elim (Option-cases (lookup to_id debited)) [
  | inl missing ↦ absurd (ground arith)
  | inr (b, found) ↦ (
    b,
    found,
    elim (Commit-cases faults.commit) [
      | inl done ↦ ground arith
      | inr (inl back) ↦ absurd (ground arith)
      | inr (inr lost) ↦ absurd (ground arith)
    ],
  )
]

credit-err :
    (faults : Faults) (to_id pages : ℤ) (debited old : Dict ℤ Book)
    → (credit faults to_id pages debited old).0 ≢ ok tt
    → faults.commit ≢ reply_lost
    → (credit faults to_id pages debited old).1 ≡ old
unfolding credit close update_pages
credit-err faults to_id pages debited old h kept = elim (Commit-cases faults.commit) [
  | inl done ↦ ground arith
  | inr (inl back) ↦ ground arith
  | inr (inr lost) ↦ absurd (kept lost)
]

taken : (a pages : ℤ) → (a +ℤ (pos 0 -ℤ pages)) +ℤ pages ≡ a
taken a pages = grind int_laws

less : (a pages : ℤ) → a -ℤ pages ≡ a +ℤ (pos 0 -ℤ pages)
less a pages = grind int_laws

debited-total :
    (from_id pages : ℤ) (t : Dict ℤ Book)
    → ((b : Book) × (lookup from_id t ≡ some b)
        × (total (update_pages (λ p. p -ℤ pages) from_id t).1 ≡ total t +ℤ (pos 0 -ℤ pages)))
      ⊎ ((lookup from_id t ≡ none) × (total (update_pages (λ p. p -ℤ pages) from_id t).1 ≡ total t))
debited-total from_id pages t = elim (Option-cases (lookup from_id t)) [
  | inl missing ↦
      inr (missing, ap (λ r. total r.1) (update_pages-missing (λ p. p -ℤ pages) from_id t missing))
  | inr (b, found) ↦ inl (
    b,
    found,
    update_pages-total (λ p. p -ℤ pages) (pos 0 -ℤ pages) from_id b t (less b.pages pages) found,
  )
]

-- A transfer that succeeds leaves the total of the pages where the book that is debited is there, and adds the
-- transferred pages to it where that book is not there; one that fails leaves the table, unless the
-- reply of its commit was lost.
pub transfer_pages-total :
    (faults : Faults) (from_id to_id pages : ℤ) (t : Dict ℤ Book)
    → let (r, t') = transfer_pages faults from_id to_id pages t in
      (r ≡ ok tt
        → ((b : Book) × (lookup from_id t ≡ some b) × (total t' ≡ total t))
          ⊎ ((lookup from_id t ≡ none) × (total t' ≡ total t +ℤ pages)))
      × (r ≢ ok tt → faults.commit ≢ reply_lost → t' ≡ t)
unfolding transfer_pages
transfer_pages-total faults from_id to_id pages t =
    let debited = (update_pages (λ p. p -ℤ pages) from_id t).1 in
    elim (Bool-cases faults.begin_fails) [
      | inl early ↦ (λ h. absurd (ground arith), λ h kept. ground arith)
      | inr begun ↦ elim (Bool-cases faults.debit_fails) [
        | inl refused ↦ (λ h. absurd (ground arith), λ h kept. ground arith)
        | inr ran ↦
            let eq : transfer_pages faults from_id to_id pages t
                ≡ credit faults to_id pages debited t =
              ground arith in
            (
              λ h.
                  let (c, there, now) =
                    credit-ok faults to_id pages debited t (sym (ap (λ r. r.0) eq) ∙ h) in
                  let grown =
                    update_pages-total (λ p. p +ℤ pages) pages to_id c debited refl there in
                  let whole = ap (λ r. total r.1) eq ∙ ap total now ∙ grown in
                  elim (debited-total from_id pages t) [
                    | inl (b, found, less') ↦
                        inl (b, found, whole ∙ ap (λ z. z +ℤ pages) less' ∙ taken (total t) pages)
                    | inr (missing, same) ↦ inr (missing, whole ∙ ap (λ z. z +ℤ pages) same)
                  ],
              λ h kept.
                  ap (λ r. r.1) eq
                  ∙ credit-err faults to_id pages debited t (λ good. h (ap (λ r. r.0) eq ∙ good))
                      kept,
            )
      ]
    ]
