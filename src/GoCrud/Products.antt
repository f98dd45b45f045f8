-- ===== src/GoCrud/Products.antt =====
-- go-crud/internal/product: repository.go and service.go. A statement's argument `fails` says that the
-- database gives an error instead of running it.
use go_basics.Common.{
  ℕ, Bool, false, ◌||◌, ◌&&◌, not, String, none, some, List, [], ◌∷◌, str_eq, if◌then◌else◌,
}
use go_basics.Common.Int.{ℤ, pos, negsuc, ◌+ℤ◌, ltb_ℤ, leb_ℤ}
use go_basics.Common.Dict.{int_comparable, lookup, insert, erase}
use go_basics.GoCrud.{
  Pricing, invalid_product, product_not_found, insufficient_stock, database, Result, ok, err,
  Product, Tables,
}

-- Whether a number is in the range of INTEGER: a parameter outside it is an error.
unfoldable pub fits_integer : ℤ → Bool
fits_integer n = leb_ℤ (negsuc 2_147_483_647) n && leb_ℤ n (pos 2_147_483_647)

abbrev pub any_of {ℓ} : {A : Type ℓ} → (A → Bool) → List A → Bool
any_of p [] = false
any_of p (x ∷ xs) = p x || any_of p xs

module _ (P : Pricing) where
  -- A row as the columns take it, or an error of the checks.
  unfoldable pub row_of : String → P.Price → ℤ → ℕ → Result (Product P.Price)
  row_of name price stock at = elim (P.column price) [
    | none ↦ err database
    | some p ↦
        if fits_integer stock && leb_ℤ (pos 0) stock
        then ok (record { name = name; price = p; stock = stock; created_at = at })
        else err database
  ]

  -- The test of `Create` and `Update`.
  unfoldable pub is_invalid : String → P.Price → ℤ → Bool
  is_invalid name price stock = str_eq name "" || (P.is_negative price || ltb_ℤ stock (pos 0))

  -- `Service.Create`: the row's id.
  unfoldable pub create :
      Bool → ℤ → ℕ → String → P.Price → ℤ → Tables P.Price → Result ℤ × Tables P.Price
  unfolding row_of is_invalid
  create fails id at name price stock ts =
      if is_invalid name price stock
      then (err invalid_product, ts)
      else if fails
      then (err database, ts)
      else elim (row_of name price stock at) [
        | err e ↦ (err e, ts)
        | ok p ↦ (ok id, record ts { products = insert id p ts.products })
      ]

  -- `Service.Get`.
  unfoldable pub get : Bool → ℤ → Tables P.Price → Result (Product P.Price)
  get fails id ts =
      if fails || not (fits_integer id)
      then err database
      else elim (lookup id ts.products) [ none ↦ err product_not_found | some p ↦ ok p ]

  -- The statement of `Repository.Update`: the row keeps its instant.
  unfoldable pub update_row :
      ℤ → String → P.Price → ℤ → Tables P.Price → Result Unit × Tables P.Price
  unfolding row_of
  update_row id name price stock ts = elim (lookup id ts.products) [
    | none ↦ (err product_not_found, ts)
    | some old ↦ elim (row_of name price stock old.created_at) [
      | err e ↦ (err e, ts)
      | ok p ↦ (ok tt, record ts { products = insert id p ts.products })
    ]
  ]

  -- `Service.Update`, and the read that follows the write.
  unfoldable pub update :
      Bool
      → Bool
      → ℤ
      → String
      → P.Price
      → ℤ
      → Tables P.Price
      → Result (Product P.Price) × Tables P.Price
  unfolding update_row is_invalid get
  update fails get_fails id name price stock ts =
      if is_invalid name price stock
      then (err invalid_product, ts)
      else if fails || not (fits_integer id && fits_integer stock)
      then (err database, ts)
      else elim (update_row id name price stock ts).0 [
        | err e ↦ (err e, (update_row id name price stock ts).1)
        | ok u ↦ (
          get get_fails id (update_row id name price stock ts).1,
          (update_row id name price stock ts).1,
        )
      ]

  -- `Service.Delete`. A product of an order stays: the foreign key restricts.
  unfoldable pub delete : Bool → ℤ → Tables P.Price → Result Unit × Tables P.Price
  delete fails id ts =
      if fails || not (fits_integer id) then (err database, ts) else elim (lookup id ts.products) [
        | none ↦ (err product_not_found, ts)
        | some p ↦
            if any_of (λ i. int_comparable.beq i.1.product_id id) ts.items
            then (err database, ts)
            else (ok tt, record ts { products = erase id ts.products })
      ]

  -- `AdjustStock`, in the caller's transaction.
  unfoldable pub adjust_stock : Bool → ℤ → ℤ → Tables P.Price → Result (Tables P.Price)
  adjust_stock fails id delta ts =
      if fails || not (fits_integer delta && fits_integer id)
      then err database
      else elim (lookup id ts.products) [
        | none ↦ err insufficient_stock
        | some p ↦
            if not (fits_integer (p.stock +ℤ delta))
            then err database
            else if leb_ℤ (pos 0) (p.stock +ℤ delta)
            then ok (record ts {
              products = insert id (record p { stock = p.stock +ℤ delta }) ts.products;
            })
            else err insufficient_stock
      ]
