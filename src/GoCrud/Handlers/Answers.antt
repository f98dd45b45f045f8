-- ===== src/GoCrud/Handlers/Answers.antt =====
-- What the answer to POST /orders of go-crud tells the client of the tables.
use go_basics.Common.{
  ℕ, Bool, true, false, some, List, ◌≡◌, refl, ◌⊎◌, inl, inr, sym, ap, ◌||◌, not, if◌then◌else◌,
}
use mathlib.Core.Path.{subst}
use go_basics.Common.Int.{ℤ, int_beq}
use go_basics.GoCrud.Products.{fits_integer, any_of}
use go_basics.GoCrud.{Pricing, Error, invalid_order, database, user_not_found, Result, err, Tables}
use go_basics.GoCrud.Orders
use go_basics.GoCrud.Orders.{ItemInput, Call, committed, reply_lost, Made, create_row, error_status}
use go_basics.GoCrud.Orders.Transactions.{Sells, Settled, create_row-Settled}
use go_basics.GoCrud.Handlers.{Response, json, error_json, post_order, created, respond}

-- One of three refusals, or the rest.
chosen :
    {A S : Type 0} (b c d : Bool) (e f g : Error) (rest : Result A × S) (s : S)
    → let a = if b then (err e, s) else if c then (err f, s) else if d then rest else (err g, s) in
      ((x : Error) × (a ≡ (err x, s))) ⊎ (a ≡ rest)
chosen true c d e f g rest s = inl (e, refl)
chosen false true d e f g rest s = inl (f, refl)
chosen false false true e f g rest s = inr refl
chosen false false false e f g rest s = inl (g, refl)

module _ (P : Pricing) where
  -- An answer to a request, where others commit `between` before its transaction.
  unfoldable pub Told :
      (Tables P.Price → Tables P.Price)
      → Call
      → ℤ
      → List ItemInput
      → Tables P.Price
      → Response (Made P) × Tables P.Price
      → Type 0
  Told between call user_id items ts (r, ts') =
      ((o : Made P) × (r ≡ json 201 o)
        × (call.commit ≡ committed)
        × Sells P call user_id items (between ts) ts')
      ⊎ ((n : ℕ) × (r ≡ error_json n)
          × ((ts' ≡ ts)
              ⊎ ((ts' ≡ between ts)
                  ⊎ ((n ≡ 500)
                      × (call.commit ≡ reply_lost)
                      × Sells P call user_id items (between ts) ts'))))

  row-Told :
      (between : Tables P.Price → Tables P.Price) (call : Call) (user_id : ℤ)
      (items : List ItemInput) (ts : Tables P.Price) (r : Result (Made P)) (ts' : Tables P.Price)
      → Settled P call user_id items (between ts) (r, ts')
      → Told between call user_id items ts (respond error_status 201 r, ts')
  unfolding Told Settled respond error_status
  row-Told between call user_id items ts r ts' (inl (o, made, kept, sells)) =
      inl (o, ap (respond error_status 201) made, kept, sells)
  row-Told between call user_id items ts r ts' (inr (e, failed, inl same)) =
      inr (error_status e, ap (respond error_status 201) failed, inr (inl same))
  row-Told between call user_id items ts r ts' (inr (e, failed, inr (lost, text, sells))) = inr (
    error_status e,
    ap (respond error_status 201) failed,
    inr (inr (ap error_status text, lost, sells)),
  )

  refused-Told :
      (between : Tables P.Price → Tables P.Price) (call : Call) (user_id : ℤ)
      (items : List ItemInput) (ts : Tables P.Price) (e : Error)
      → Told between call user_id items ts (respond error_status 201 (err e), ts)
  unfolding Told respond
  refused-Told between call user_id items ts e = inr (error_status e, refl, inl refl)

  create-cases :
      (user_fails : Bool) (between : Tables P.Price → Tables P.Price) (call : Call) (user_id : ℤ)
      (items : List ItemInput) (ts : Tables P.Price)
      → let a = Orders.create P user_fails between call user_id items ts in
        ((e : Error) × (a ≡ (err e, ts))) ⊎ (a ≡ create_row P call user_id items (between ts))
  unfolding Orders.create
  create-cases user_fails between call user_id items ts =
      chosen (Orders.is_invalid P user_id items) (user_fails || not (fits_integer user_id))
        (any_of (int_beq user_id) ts.users) invalid_order database user_not_found
        (create_row P call user_id items (between ts)) ts

  -- POST /orders is answered with 201 only for an order that is committed, its items sold and its row
  -- stored. With any other answer the tables are as they were, apart from what others did meanwhile,
  -- except that a status 500 may also hide an order that was committed with its reply lost.
  pub post_order-Told :
      (user_fails : Bool) (between : Tables P.Price → Tables P.Price) (call : Call) (user_id : ℤ)
      (items : List ItemInput) (ts : Tables P.Price)
      → Told between call user_id items ts
          (post_order P user_fails between call (some (user_id, items)) ts)
  unfolding post_order created
  post_order-Told user_fails between call user_id items ts =
      elim (create-cases user_fails between call user_id items ts) [
        | inl (e, same) ↦
            subst (λ a. Told between call user_id items ts (respond error_status 201 a.0, a.1))
              (sym same) (refused-Told between call user_id items ts e)
        | inr same ↦
            subst (λ a. Told between call user_id items ts (respond error_status 201 a.0, a.1))
              (sym same)
              (row-Told between call user_id items ts
                (create_row P call user_id items (between ts)).0
                (create_row P call user_id items (between ts)).1
                (create_row-Settled P call user_id items (between ts)))
      ]
