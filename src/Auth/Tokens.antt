-- ===== src/Auth/Tokens.antt =====
-- The token service of 60_jwt_auth/main.go. Instants and durations are nanoseconds. The jwt
-- library is a parameter, and a random text is an argument of what draws it.
pub mod Rotation
pub mod Signed
use go_basics.Common.{
  ℕ, ◌+◌, ◌*◌, ◌^◌, Bool, true, false, not, String, Option, none, some, List, [], ◌∷◌, ltb,
  if◌then◌else◌,
}
use go_basics.Common.Dict.{Dict, string_comparable, lookup, insert, erase}

-- `AccessClaims`, with the registered claims that it embeds. A token may have no end, which leaves `ExpiresAt`
-- nil.
pub record AccessClaims : Type 0 where
  pub role : String
  pub email : String
  pub subject : String
  pub issuer : String
  pub audience : List String
  pub issued_at : ℕ
  pub not_before : ℕ
  pub expires_at : Option ℕ
  pub id : String

-- `User`.
pub record User : Type 0 where
  pub id : String
  pub email : String
  pub role : String
  pub pass_hash : String

abbrev pub second : ℕ
second = 10 ^ 9

abbrev pub access_ttl : ℕ
access_ttl = 15 * 60 * second

abbrev pub refresh_ttl : ℕ
refresh_ttl = 7 * 24 * 60 * 60 * second

abbrev pub issuer : String
issuer = "go-basics.auth"

abbrev pub audience : String
audience = "go-basics.api"

-- How a token says that it is signed: by a shared secret, or otherwise ("none" included).
pub data Method : Type 0 where
  hmac other_method : Method

-- The options of a parse.
pub record ParserOptions : Type 0 where
  pub valid_methods : List String
  pub issuer : String
  pub audience : String
  pub leeway : ℕ

-- What ParseWithClaims returns, by the error that it wraps.
pub data Parsed : Type 0 where
  parsed : AccessClaims → Parsed
  expired signature_invalid malformed : Parsed

-- The jwt library: how it rounds an instant, signs claims by HS256, and parses a text at an
-- instant with the key that a function of the method gives.
pub record Jwt : Type 0 where
  pub numeric_date : ℕ → ℕ
  pub signed_string : String → AccessClaims → Option String
  pub parse_with_claims : ParserOptions → (Method → Option String) → ℕ → String → Parsed

-- `ErrTokenExpired`, `ErrTokenInvalid`, `ErrTokenRevoked`.
pub data Error : Type 0 where
  token_expired token_invalid token_revoked : Error

pub data Result (A : Type 0) : Type 0 where
  ok : A → Result A
  err : Error → Result A

-- `refreshRecord`.
pub record RefreshRecord : Type 0 where
  pub user_id : String
  pub expires_at : ℕ

-- `TokenService`.
pub record TokenService : Type 0 where
  pub secret : String
  pub refresh : Dict String RefreshRecord
  pub revoked : Dict String Bool

-- `NewTokenService`.
unfoldable pub new_token_service : String → TokenService
new_token_service secret = record { secret = secret; refresh = []; revoked = [] }

-- The claims of `NewAccessToken`; `jti` is the random text.
unfoldable pub claims_of : Jwt → User → ℕ → ℕ → String → AccessClaims
claims_of jwt u ttl now jti = record {
  role = u.role;
  email = u.email;
  subject = u.id;
  issuer = issuer;
  audience = audience ∷ [];
  issued_at = jwt.numeric_date now;
  not_before = jwt.numeric_date now;
  expires_at = some (jwt.numeric_date (now + ttl));
  id = jti;
}

-- `NewAccessToken`.
unfoldable pub new_access_token : Jwt → User → ℕ → ℕ → String → TokenService → Option String
new_access_token jwt u ttl now jti ts = jwt.signed_string ts.secret (claims_of jwt u ttl now jti)

-- The options that `Parse` passes.
unfoldable pub parser_options : ParserOptions
parser_options = record {
  valid_methods = "HS256" ∷ [];
  issuer = issuer;
  audience = audience;
  leeway = 30 * second;
}

-- The function of `Parse` that gives the key.
unfoldable pub key_of : TokenService → Method → Option String
key_of ts hmac = some ts.secret
key_of ts other_method = none

-- Whether `revoked` holds the id.
unfoldable pub is_revoked : String → TokenService → Bool
is_revoked jti ts = elim (lookup jti ts.revoked) [ none ↦ false | some b ↦ b ]

-- `Parse`.
unfoldable pub parse : Jwt → ℕ → String → TokenService → Result AccessClaims
parse jwt now token ts = elim (jwt.parse_with_claims parser_options (key_of ts) now token) [
  | parsed claims ↦ if is_revoked claims.id ts then err token_revoked else ok claims
  | expired ↦ err token_expired
  | signature_invalid ↦ err token_invalid
  | malformed ↦ err token_invalid
]

-- `NewRefreshToken`.
unfoldable pub new_refresh_token : String → String → ℕ → TokenService → String × TokenService
new_refresh_token user_id random now ts = (
  random,
  record ts {
    refresh =
        insert random (record { user_id = user_id; expires_at = now + refresh_ttl }) ts.refresh;
  },
)

-- `UseRefreshToken`: the user and the next token.
unfoldable pub use_refresh_token :
    String → String → ℕ → TokenService → Result (String × String) × TokenService
use_refresh_token t random now ts = elim (lookup t ts.refresh) [
  | none ↦ (err token_invalid, ts)
  | some rec ↦
      let rest = erase t ts.refresh in
      if ltb rec.expires_at now then (err token_expired, record ts { refresh = rest }) else (
        ok (rec.user_id, random),
        record ts {
          refresh =
              insert random (record { user_id = rec.user_id; expires_at = now + refresh_ttl }) rest;
        },
      )
]

-- `RevokeRefreshToken`.
unfoldable pub revoke_refresh_token : String → TokenService → TokenService
revoke_refresh_token t ts = record ts { refresh = erase t ts.refresh }

-- `RevokeAccessToken`.
unfoldable pub revoke_access_token : String → TokenService → TokenService
revoke_access_token jti ts = record ts { revoked = insert jti true ts.revoked }
