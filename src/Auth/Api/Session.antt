-- ===== src/Auth/Api/Session.antt =====
-- Signing in and what a session gives, in 60_jwt_auth/main.go.
use Prim.Native.String.{◌++◌}
use go_basics.Common.{
  ℕ, ◌+◌, ◌≤◌, ◌≡◌, ◌≢◌, refl, ap, ◌∙◌, true, false, String, none, some, List, [], ◌∷◌, All, arith,
  eq_iff,
}
use go_basics.Common.Text.{fold_eq, cut_bearer}
use go_basics.Common.Dict.{string_comparable, lookup, lookup-insert_self}
use go_basics.Auth.Tokens.{
  AccessClaims, User, access_ttl, refresh_ttl, RefreshRecord, Jwt, ok, TokenService, claims_of,
  new_access_token, new_refresh_token, use_refresh_token, is_revoked, parse,
}
use go_basics.Auth.Tokens.Rotation.{Call}
use go_basics.Auth.Tokens.Signed.{IsJwt, after_calls, after_calls-secret, parse-new_access_token}
use go_basics.Auth.Api.{
  Bcrypt, UserStore, authenticate, login_body, me_body, refresh_body, write_err, Request, bearer,
  require_auth, me, me_route, login, zero_user, find_user, refresh,
}

-- A request with a token.
abbrev pub with_token : String → Request
with_token token = record { authorization = "Bearer " ++ token; claims = none }

bearer_token : (token : String) → token ≢ "" → bearer ("Bearer " ++ token) ≡ some token
unfolding bearer fold_eq
bearer_token token h = ground (arith, cut_bearer token, eq_iff token "", cut_bearer token)

login_ok :
    (jwt : Jwt) (bcrypt : Bcrypt) (s : UserStore) (ts : TokenService)
    (email password jti random token : String) (u : User) (now : ℕ)
    → lookup email s ≡ some u
    → bcrypt.matches u.pass_hash password ≡ true
    → new_access_token jwt u access_ttl now jti ts ≡ some token
    → login jwt bcrypt now jti random (some (email, password)) s ts ≡ (
      record { status = 200; body = login_body token random 900 },
      (new_refresh_token u.id random now ts).1,
    )
unfolding login authenticate new_refresh_token
login_ok jwt bcrypt s ts email password jti random token u now known right signs = ground arith

me_token :
    (jwt : Jwt) (now : ℕ) (ts : TokenService) (token : String) (c : AccessClaims) (e : ℕ)
    → c.expires_at ≡ some e
    → token ≢ ""
    → parse jwt now token ts ≡ ok c
    → me_route jwt now ts (with_token token)
      ≡ some (record { status = 200; body = me_body c.subject c.email c.role e })
unfolding me_route require_auth me
me_token jwt now ts token c e ends some_text parses = ground (arith, bearer_token token some_text)

module _ (jwt : Jwt) (laws : IsJwt jwt) (bcrypt : Bcrypt) (s : UserStore) (ts : TokenService) where
  -- With a jwt library that keeps what it documents: who gives the email and password of a user is
  -- answered 200 with a token, if it can be signed, and a stored refresh token; and whatever calls of
  -- the service follow, within 15 minutes `/me` answers that token 200 with the user's id, email and
  -- role and the token's end, if its id has not been revoked.
  pub login-me :
      (email password jti random token : String) (u : User) (now later : ℕ) (cs : List Call)
      → lookup email s ≡ some u
      → bcrypt.matches u.pass_hash password ≡ true
      → new_access_token jwt u access_ttl now jti ts ≡ some token
      → let signed_in = login jwt bcrypt now jti random (some (email, password)) s ts in
        is_revoked jti (after_calls cs signed_in.1) ≡ false
        → now ≤ later
        → later ≤ now + access_ttl
        → (signed_in.0 ≡ record { status = 200; body = login_body token random 900 })
          × (lookup random signed_in.1.refresh
              ≡ some (record { user_id = u.id; expires_at = now + refresh_ttl }))
          × (me_route jwt later (after_calls cs signed_in.1) (with_token token)
              ≡ some (record {
                status = 200;
                body = me_body u.id u.email u.role (jwt.numeric_date (now + access_ttl));
              }))
  unfolding new_refresh_token new_access_token claims_of
  login-me email password jti random token u now later cs known right signs fresh from until =
      let made : login jwt bcrypt now jti random (some (email, password)) s ts ≡ (
        record { status = 200; body = login_body token random 900 },
        (new_refresh_token u.id random now ts).1,
      ) =
        login_ok jwt bcrypt s ts email password jti random token u now known right signs in
      let same : (after_calls cs
            (login jwt bcrypt now jti random (some (email, password)) s ts).1).secret
          ≡ ts.secret =
        after_calls-secret cs (login jwt bcrypt now jti random (some (email, password)) s ts).1
        ∙ ap (λ p. p.1.secret) made in
      (
        ap (λ p. p.0) made,
        ap (λ p. lookup random p.1.refresh) made
            ∙ lookup-insert_self random (record { user_id = u.id; expires_at = now + refresh_ttl })
                ts.refresh,
        me_token jwt later
            (after_calls cs (login jwt bcrypt now jti random (some (email, password)) s ts).1) token
            (claims_of jwt u access_ttl now jti) (jwt.numeric_date (now + access_ttl)) refl
            (laws.signed_some ts.secret (claims_of jwt u access_ttl now jti) token signs)
            (parse-new_access_token jwt laws u now later jti token ts _ signs same fresh from
              until),
      )

-- An email that nobody has and a wrong password get the same answer, 401, and neither changes a token.
pub login_uniform :
    (jwt : Jwt) (bcrypt : Bcrypt) (s : UserStore) (ts : TokenService)
    (unknown email password tried jti random : String) (u : User) (now : ℕ)
    → lookup unknown s ≡ none
    → lookup email s ≡ some u
    → bcrypt.matches u.pass_hash password ≡ false
    → (login jwt bcrypt now jti random (some (unknown, tried)) s ts
        ≡ login jwt bcrypt now jti random (some (email, password)) s ts)
      × (login jwt bcrypt now jti random (some (email, password)) s ts
          ≡ (write_err 401 "invalid credentials", ts))
unfolding login authenticate write_err
login_uniform jwt bcrypt s ts unknown email password tried jti random u now none_such known wrong =
    ground arith

find_user_missing :
    (id : String) (u : User) (users : List User)
    → All (λ v. v.id ≢ id) users
    → find_user id u users ≡ u
unfolding find_user
find_user_missing id u [] h = refl
find_user_missing id u (c ∷ cs) h =
    ground (arith, find_user_missing id u cs h.1, eq_iff c.id id, h.0)

-- A refresh token that is stored and not past its end is answered 200 also where no user has its user's
-- id any more, if the token can be signed: with the next refresh token, and with an access token of the
-- empty user.
pub refresh_missing_user :
    (jwt : Jwt) (ts : TokenService) (users : List User) (t jti random token : String) (now : ℕ)
    (r : RefreshRecord)
    → lookup t ts.refresh ≡ some r
    → now ≤ r.expires_at
    → All (λ v. v.id ≢ r.user_id) users
    → jwt.signed_string ts.secret (claims_of jwt zero_user access_ttl now jti) ≡ some token
    → (refresh jwt now jti random t users ts).0
      ≡ record { status = 200; body = refresh_body token random }
unfolding refresh use_refresh_token new_access_token
refresh_missing_user jwt ts users t jti random token now r found live gone signs =
    ground (arith, find_user_missing r.user_id zero_user users gone)
