-- ===== src/TinyCrud/Blank.antt =====
-- What tiny-crud/main.go checks of a user, and where.
use go_basics.Common.{◌≡◌, Bool, false, some, arith, eq_iff}
use go_basics.Common.Int.{ℤ}
use go_basics.Common.Dict.{int_comparable, lookup, lookup-insert_self}
use go_basics.TinyCrud.{User, Users, error, one, get_user, create_user, update_user}

-- A body with no name is refused by POST, whatever the database does, and stores nothing; PUT takes it
-- for any user that there is, if its statement does not fail, and GET then answers the user without a
-- name.
pub blank_name :
    (fails : Bool) (new id : ℤ) (body old : User) (us : Users)
    → body.name ≡ ""
    → lookup id us ≡ some old
    → (create_user fails new (some body) us ≡ (error 400, us))
      × ((update_user false (some id) (some body) us).0 ≡ one 200 (record body { id = id }))
      × (get_user false (some id) (update_user false (some id) (some body) us).1
          ≡ one 200 (record body { id = id }))
unfolding create_user update_user get_user
blank_name fails new id body old us blank found = (
  ground (arith, eq_iff body.name ""),
  ground arith,
  ground (arith, lookup-insert_self id (record body { id = id }) us),
)
