-- ===== src/Auth/Tokens/Signed.antt =====
-- What 60_jwt_auth/main.go relies on of the jwt library, and the tokens that `NewAccessToken` signs.
use go_basics.Common.{
  ℕ, ◌+◌, ◌≤◌, ◌<◌, ◌≡◌, ◌≢◌, refl, ap, ◌∙◌, Bool, true, false, ◌||◌, String, Option, some, List,
  [], ◌∷◌, arith, str_eq,
}
use go_basics.Common.Dict.{string_comparable}
use go_basics.Auth.Tokens.{
  AccessClaims, User, second, access_ttl, Method, hmac, ParserOptions, parsed, Jwt, ok,
  TokenService, claims_of, new_access_token, parser_options, key_of, is_revoked, parse,
  new_refresh_token, use_refresh_token, revoke_refresh_token, revoke_access_token,
}
use go_basics.Auth.Tokens.Rotation.{Call, issues, uses, revokes, revokes_access, after_call}

abbrev pub has : String → List String → Bool
has s [] = false
has s (x ∷ xs) = str_eq x s || has s xs

-- Dates are in whole seconds, as an encoded token keeps them.
abbrev pub IsWhole : Jwt → AccessClaims → Type 0
IsWhole jwt c =
    (jwt.numeric_date c.issued_at ≡ c.issued_at)
    × (jwt.numeric_date c.not_before ≡ c.not_before)
    × ((e : ℕ) → c.expires_at ≡ some e → jwt.numeric_date e ≡ e)

-- What the jwt library documents: an instant is rounded down to the second; a signed token is not
-- empty; it parses to its claims under the key that signed it, if HS256, the issuer and the audience are
-- allowed and the time is within the dates that it has.
pub record IsJwt (jwt : Jwt) : Type 0 where
  pub rounds_down : (t : ℕ) → jwt.numeric_date t ≤ t
  pub rounds_closely : (t : ℕ) → t < jwt.numeric_date t + second
  pub rounds_once : (t : ℕ) → jwt.numeric_date (jwt.numeric_date t) ≡ jwt.numeric_date t
  pub signed_some :
      (secret : String) (c : AccessClaims) (token : String)
      → jwt.signed_string secret c ≡ some token
      → token ≢ ""
  pub accepts :
      (secret : String) (c : AccessClaims) (token : String) (opts : ParserOptions)
      (key : Method → Option String) (now : ℕ)
      → IsWhole jwt c
      → jwt.signed_string secret c ≡ some token
      → key hmac ≡ some secret
      → has "HS256" opts.valid_methods ≡ true
      → c.issuer ≡ opts.issuer
      → has opts.audience c.audience ≡ true
      → c.not_before ≤ now + opts.leeway
      → ((e : ℕ) → c.expires_at ≡ some e → now < e + opts.leeway)
      → jwt.parse_with_claims opts key now token ≡ parsed c

-- The service after calls.
unfoldable pub after_calls : List Call → TokenService → TokenService
after_calls [] ts = ts
after_calls (c ∷ cs) ts = after_calls cs (after_call c ts)

module _ (jwt : Jwt) (laws : IsJwt jwt) where
  -- A signed token parses, from its making until its life is over.
  pub parse-new_access_token :
      (u : User) (now later : ℕ) (jti token : String) (ts ts' : TokenService)
      → new_access_token jwt u access_ttl now jti ts ≡ some token
      → ts'.secret ≡ ts.secret
      → is_revoked jti ts' ≡ false
      → now ≤ later
      → later ≤ now + access_ttl
      → parse jwt later token ts' ≡ ok (claims_of jwt u access_ttl now jti)
  unfolding parse new_access_token claims_of parser_options key_of
  parse-new_access_token u now later jti token ts ts' signs same fresh from until =
      ground (arith, accepted, fresh)
    where
      accepted :
          jwt.parse_with_claims parser_options (key_of ts') later token
          ≡ parsed (claims_of jwt u access_ttl now jti)
      accepted =
          laws.accepts ts.secret (claims_of jwt u access_ttl now jti) token parser_options
            (key_of ts') later
            (
              laws.rounds_once now,
              laws.rounds_once now,
              λ e is. ground (arith, laws.rounds_once (now + access_ttl)),
            )
            signs (ap some same) refl refl refl (omega (arith, laws.rounds_down now, from))
            (λ e is. ground (arith, laws.rounds_closely (now + access_ttl), until))

after_call-secret : (c : Call) (ts : TokenService) → (after_call c ts).secret ≡ ts.secret
unfolding after_call new_refresh_token use_refresh_token revoke_refresh_token revoke_access_token
after_call-secret (issues user random now) ts = refl
after_call-secret (uses t random now) ts = ground arith
after_call-secret (revokes t) ts = refl
after_call-secret (revokes_access jti) ts = refl

pub after_calls-secret :
    (cs : List Call) (ts : TokenService) → (after_calls cs ts).secret ≡ ts.secret
unfolding after_calls
after_calls-secret [] ts = refl
after_calls-secret (c ∷ cs) ts = after_calls-secret cs (after_call c ts) ∙ after_call-secret c ts
