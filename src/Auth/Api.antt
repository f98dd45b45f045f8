-- ===== src/Auth/Api.antt =====
-- The users, the middleware and the handlers of 60_jwt_auth/main.go. The bcrypt library is a
-- parameter. A handler that panics gives no response.
pub mod Session
pub mod Access
use go_basics.Common.{
  ℕ, ◌/◌, Bool, true, false, not, ◌||◌, ◌&&◌, String, Option, none, some, List, [], ◌∷◌, map,
  str_eq, leb, ◌==◌, ◌+◌, ◌≡◌, if◌then◌else◌,
}
use Prim.Native.String
use go_basics.Common.Text.{cut_space, fold_eq}
use go_basics.Common.Dict.{Dict, string_comparable, lookup, insert}
use go_basics.Auth.Tokens.{
  AccessClaims, User, Jwt, Error, token_expired, Result, ok, err, TokenService, access_ttl, second,
  new_access_token, new_refresh_token, use_refresh_token, revoke_refresh_token, parse,
}

-- The bcrypt library: the hash of a password with the salt that it draws, and the comparison.
pub record Bcrypt : Type 0 where
  pub hash : String → String → String
  pub matches : String → String → Bool

-- `UserStore`, by email.
abbrev pub UserStore : Type 0
UserStore = Dict String User

-- `add`.
unfoldable pub add : Bcrypt → String → User → String → UserStore → UserStore
add bcrypt salt u password s = insert u.email (record u { pass_hash = bcrypt.hash salt password }) s

-- `Authenticate`.
unfoldable pub authenticate : Bcrypt → String → String → UserStore → Option User
authenticate bcrypt email password s = elim (lookup email s) [
  | none ↦ none
  | some u ↦ if bcrypt.matches u.pass_hash password then some u else none
]

-- What a response carries.
pub data Body : Type 0 where
  error_body : String → Body
  login_body : String → String → ℕ → Body
  refresh_body : String → String → Body
  me_body : String → String → String → ℕ → Body
  admin_body : String → Body
  no_body : Body

pub record Response : Type 0 where
  pub status : ℕ
  pub body : Body

-- `writeErr`.
unfoldable pub write_err : ℕ → String → Response
write_err code msg = record { status = code; body = error_body msg }

-- The header and the claims in the context of a request.
pub record Request : Type 0 where
  pub authorization : String
  pub claims : Option AccessClaims

abbrev pub Handler : Type 0
Handler = Request → Option Response

-- The token that `RequireAuth` reads in the header, where it has the right form.
unfoldable pub bearer : String → Option String
bearer raw = elim (cut_space raw) [
  | none ↦ none
  | some p ↦ if not (fold_eq p.0 "bearer") || str_eq p.1 "" then none else some p.1
]

-- `RequireAuth`.
unfoldable pub require_auth : Jwt → ℕ → TokenService → Handler → Handler
require_auth jwt now ts next r = elim (bearer r.authorization) [
  | none ↦ some (write_err 401 "missing bearer token")
  | some token ↦ elim (parse jwt now token ts) [
    | err (token_expired) ↦ some (write_err 401 "token_expired")
    | err _ ↦ some (write_err 401 "invalid_token")
    | ok claims ↦ next (record r { claims = some claims })
  ]
]

-- `RequireRole`.
unfoldable pub require_role : String → Handler → Handler
require_role role next r = elim r.claims [
  | none ↦ some (write_err 401 "not authenticated")
  | some c ↦
      if not (str_eq c.role role)
      then some (write_err 403 (String.◌++◌ "forbidden: requires role " role))
      else next r
]

-- `me`, which reads the end of the claims through a pointer: without one it panics.
unfoldable pub me : Handler
me r = elim r.claims [
  | none ↦ none
  | some c ↦ elim c.expires_at [
    | none ↦ none
    | some e ↦ some (record { status = 200; body = me_body c.subject c.email c.role e })
  ]
]

-- `admin`.
unfoldable pub admin : Handler
admin r = elim r.claims [
  | none ↦ none
  | some c ↦ some (record { status = 200; body = admin_body c.email })
]

-- The routes of `Routes` that the middleware protects.
unfoldable pub me_route : Jwt → ℕ → TokenService → Handler
me_route jwt now ts = require_auth jwt now ts me

unfoldable pub admin_route : Jwt → ℕ → TokenService → Handler
admin_route jwt now ts = require_auth jwt now ts (require_role "admin" admin)

-- `login`, of the email and password that the body decodes to, if it does, with the random texts of
-- the access and the refresh token.
unfoldable pub login :
    Jwt
    → Bcrypt
    → ℕ
    → String
    → String
    → Option (String × String)
    → UserStore
    → TokenService
    → Response × TokenService
login jwt bcrypt now jti random body s ts = elim body [
  | none ↦ (write_err 400 "bad json", ts)
  | some b ↦ elim (authenticate bcrypt b.0 b.1 s) [
    | none ↦ (write_err 401 "invalid credentials", ts)
    | some u ↦ elim (new_access_token jwt u access_ttl now jti ts) [
      | none ↦ (write_err 500 "could not sign token", ts)
      | some access ↦
          let made = new_refresh_token u.id random now ts in
          (record { status = 200; body = login_body access made.0 (access_ttl / second) }, made.1)
    ]
  ]
]

-- The zero `User`.
abbrev pub zero_user : User
zero_user = record { id = ""; email = ""; role = ""; pass_hash = "" }

-- The loop of `refresh` over the users, in the order in which they are visited: the last with the
-- id, or what it starts from.
unfoldable pub find_user : String → User → List User → User
find_user id u [] = u
find_user id u (c ∷ cs) = find_user id (if str_eq c.id id then c else u) cs

-- `refresh`, of the token that the body leaves in the field and the users in the order in which the
-- map gives them. Where signing fails, the access token is "".
unfoldable pub refresh :
    Jwt → ℕ → String → String → String → List User → TokenService → Response × TokenService
refresh jwt now jti random t users ts =
    let (used, ts') = use_refresh_token t random now ts in
    elim used [
      | err e ↦ (write_err 401 "invalid refresh token", ts')
      | ok (user_id, next) ↦
          let access =
            elim (new_access_token jwt (find_user user_id zero_user users) access_ttl now jti ts')
              as (λ x. String) [ none ↦ "" | some a ↦ a ] in
          (record { status = 200; body = refresh_body access next }, ts')
    ]

-- `logout`.
unfoldable pub logout : String → TokenService → Response × TokenService
logout t ts = (record { status = 204; body = no_body }, revoke_refresh_token t ts)
