-- ===== src/GoCrud/Users.antt =====
-- go-crud/internal/user: repository.go and service.go. Of the columns the code depends on one rule, that
-- no two rows have one email.
use go_basics.Common.{
  ℕ, Bool, false, ◌||◌, ◌&&◌, not, String, none, some, [], ◌∷◌, str_eq, if◌then◌else◌,
}
use go_basics.Common.Int.{ℤ, int_beq}
use go_basics.Common.Dict.{Dict, int_comparable, lookup, insert, erase}
use go_basics.GoCrud.{invalid_user, user_not_found, database, Result, ok, err}
use go_basics.GoCrud.Products.{fits_integer}

-- `User`, without its id.
pub record User : Type 0 where
  pub name : String
  pub email : String
  pub created_at : ℕ

-- Whether a row of another id has this email.
unfoldable pub is_taken : ℤ → String → Dict ℤ User → Bool
is_taken id email [] = false
is_taken id email ((j, u) ∷ us) =
    let rest = is_taken id email us in (not (int_beq j id) && str_eq u.email email) || rest

-- The test of `Create` and `Update`.
unfoldable pub is_invalid : String → String → Bool
is_invalid name email = str_eq name "" || str_eq email ""

-- `Service.Create`: the row's id.
unfoldable pub create : Bool → ℤ → ℕ → String → String → Dict ℤ User → Result ℤ × Dict ℤ User
unfolding is_invalid
create fails id at name email us =
    if is_invalid name email
    then (err invalid_user, us)
    else if fails || is_taken id email us
    then (err database, us)
    else (ok id, insert id (record { name = name; email = email; created_at = at }) us)

-- `Service.Get`.
unfoldable pub get : Bool → ℤ → Dict ℤ User → Result User
get fails id us =
    if fails || not (fits_integer id)
    then err database
    else elim (lookup id us) [ none ↦ err user_not_found | some u ↦ ok u ]

-- `Service.Update`, and the read that follows the write.
unfoldable pub update : Bool → Bool → ℤ → String → String → Dict ℤ User → Result User × Dict ℤ User
unfolding is_invalid get
update fails get_fails id name email us =
    if is_invalid name email
    then (err invalid_user, us)
    else if fails || not (fits_integer id)
    then (err database, us)
    else elim (lookup id us) [
      | none ↦ (err user_not_found, us)
      | some old ↦
          if is_taken id email us
          then (err database, us)
          else (let us' =
                insert id (record { name = name; email = email; created_at = old.created_at }) us in
              (get get_fails id us', us'))
    ]

-- `Service.Delete`.
unfoldable pub delete : Bool → ℤ → Dict ℤ User → Result Unit × Dict ℤ User
delete fails id us =
    if fails || not (fits_integer id)
    then (err database, us)
    else elim (lookup id us) [ none ↦ (err user_not_found, us) | some u ↦ (ok tt, erase id us) ]
