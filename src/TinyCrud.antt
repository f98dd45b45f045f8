-- ===== src/TinyCrud.antt =====
-- tiny-crud/main.go: the handlers over the table of users. An argument `fails` says that the statement
-- fails; a body is what it decodes to, if it does, and a path the number that it holds, if it does.
pub mod Blank
mod Tests
use go_basics.Common.{
  ℕ, Bool, ◌||◌, String, Option, none, some, List, [], ◌∷◌, map, str_eq, if◌then◌else◌,
}
use go_basics.Common.Int.{ℤ, pos, int_beq}
use go_basics.Common.Dict.{Dict, int_comparable, lookup, insert, erase}

-- `User`.
pub record User : Type 0 where
  pub id : ℤ
  pub name : String
  pub email : String

-- The table `users`, by id.
abbrev pub Users : Type 0
Users = Dict ℤ User

-- What a handler writes.
pub data Reply : Type 0 where
  error : ℕ → Reply
  one : ℕ → User → Reply
  many : List User → Reply
  no_content : Reply

-- `getUsers`.
unfoldable pub get_users : Bool → Users → Reply
get_users fails us = if fails then error 500 else many (map (λ p. p.1) us)

-- `getUser`.
unfoldable pub get_user : Bool → Option ℤ → Users → Reply
get_user fails path us = elim path [
  | none ↦ error 400
  | some id ↦
      if fails then error 500 else elim (lookup id us) [ none ↦ error 404 | some u ↦ one 200 u ]
]

-- `createUser`, with the id that the database gives.
unfoldable pub create_user : Bool → ℤ → Option User → Users → Reply × Users
create_user fails id body us = elim body [
  | none ↦ (error 400, us)
  | some u ↦
      let made : User = record u { id = id } in
      if str_eq u.name "" || str_eq u.email ""
      then (error 400, us)
      else if fails
      then (error 500, us)
      else (one 201 made, insert id made us)
]

-- `updateUser`.
unfoldable pub update_user : Bool → Option ℤ → Option User → Users → Reply × Users
update_user fails path body us = elim path [
  | none ↦ (error 400, us)
  | some id ↦ elim body [
    | none ↦ (error 400, us)
    | some u ↦
        let made : User = record u { id = id } in
        if fails then (error 500, us) else elim (lookup id us) [
          | none ↦ (error 404, us)
          | some old ↦ (one 200 made, insert id made us)
        ]
  ]
]

-- `deleteUser`.
unfoldable pub delete_user : Bool → Option ℤ → Users → Reply × Users
delete_user fails path us = elim path [
  | none ↦ (error 400, us)
  | some id ↦
      if fails
      then (error 500, us)
      else elim (lookup id us) [ none ↦ (error 404, us) | some u ↦ (no_content, erase id us) ]
]
