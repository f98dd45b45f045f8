-- ===== src/Auth/Tests.antt =====
-- A small jwt library and runs of the service of 60_jwt_auth/main.go.
use mathlib.Core.Path.{subst}
use Prim.Native.String.{◌++◌}
use go_basics.Common.{
  ℕ, ◌+◌, ◌-◌, ◌%◌, ◌≤◌, ◌<◌, ◌≡◌, ◌≢◌, ◌⊎◌, refl, ap, sym, ◌∙◌, Bool, true, false, ◌&&◌, String,
  Option, none, some, List, [], ◌∷◌, arith, str_eq, eq_iff, if◌then◌else◌, ltb, leb, ◌==◌,
}
use go_basics.Common.Dict.{string_comparable, lookup, insert, erase}
use go_basics.Common.Text.{fold_eq, cut_space}
use go_basics.Auth.Tokens.{
  AccessClaims, User, access_ttl, refresh_ttl, Method, hmac, ParserOptions, Parsed, parsed,
  malformed, Jwt, TokenService, claims_of, new_access_token, new_token_service, new_refresh_token,
  use_refresh_token, is_revoked, parse, revoke_refresh_token, revoke_access_token,
}
use go_basics.Auth.Tokens.Rotation.{
  issues, uses, revokes, revokes_access, after_call, admissions-hand_outs, admissions, hand_outs,
  admitted,
}
use go_basics.Auth.Tokens.Signed.{has, IsJwt, after_calls}
use go_basics.Auth.Api.{
  Bcrypt, UserStore, Response, login_body, me_body, login, me_route, admin_route, authenticate,
  require_auth, me, bearer,
}
use go_basics.Auth.Api.Session.{with_token, login-me}
use go_basics.Auth.Api.Access.{IsAdmitted, IsAnswered, routes-agree}

-- A library that can sign one set of claims.
abbrev round : ℕ → ℕ
round t = t - t % 1000000000

abbrev same_audience : List String → List String → Bool
same_audience (a ∷ []) (b ∷ []) = str_eq a b
same_audience [] _ = false
same_audience (a ∷ b) _ = false

abbrev same_end : Option ℕ → Option ℕ → Bool
same_end (some a) (some b) = a == b
same_end none b = false
same_end (some a) none = false

abbrev same : AccessClaims → AccessClaims → Bool
same c d =
    str_eq c.role d.role
    && str_eq c.email d.email
    && str_eq c.subject d.subject
    && str_eq c.issuer d.issuer
    && same_audience c.audience d.audience
    && c.issued_at == d.issued_at
    && c.not_before == d.not_before
    && same_end c.expires_at d.expires_at
    && str_eq c.id d.id

same_audience-eq : (a b : List String) → same_audience a b ≡ true → a ≡ b
same_audience-eq (a ∷ []) (b ∷ []) h = ap (λ s. s ∷ []) ((eq_iff a b).0 h)
same_audience-eq (a ∷ []) [] h = cc
same_audience-eq (a ∷ []) (b ∷ c ∷ l) h = cc
same_audience-eq [] b h = cc
same_audience-eq (a ∷ c ∷ l) b h = cc

same_end-eq : (a b : Option ℕ) → same_end a b ≡ true → a ≡ b
same_end-eq (some a) (some b) h = ap some (ground arith)
same_end-eq none b h = cc
same_end-eq (some a) none h = cc

claims_path :
    (c d : AccessClaims)
    → c.role ≡ d.role
    → c.email ≡ d.email
    → c.subject ≡ d.subject
    → c.issuer ≡ d.issuer
    → c.audience ≡ d.audience
    → c.issued_at ≡ d.issued_at
    → c.not_before ≡ d.not_before
    → c.expires_at ≡ d.expires_at
    → c.id ≡ d.id
    → c ≡ d
claims_path c d p q r s t u v w x = λ i. record {
  role = p i;
  email = q i;
  subject = r i;
  issuer = s i;
  audience = t i;
  issued_at = u i;
  not_before = v i;
  expires_at = w i;
  id = x i;
}

same-eq : (c d : AccessClaims) → same c d ≡ true → c ≡ d
same-eq c d h =
    claims_path c d (ground (arith, eq_iff c.role d.role)) (ground (arith, eq_iff c.email d.email))
      (ground (arith, eq_iff c.subject d.subject)) (ground (arith, eq_iff c.issuer d.issuer))
      (same_audience-eq c.audience d.audience (ground arith)) (ground arith) (ground arith)
      (same_end-eq c.expires_at d.expires_at (ground arith)) (ground (arith, eq_iff c.id d.id))

abbrev user : User
user = record { id = "u2"; email = "boss@example.com"; role = "admin"; pass_hash = "salt:s3cret" }

abbrev end_0 : ℕ
end_0 = 905000000000

-- Claims made in the fifth second.
abbrev claims_0 : AccessClaims
claims_0 = record {
  role = "admin";
  email = "boss@example.com";
  subject = "u2";
  issuer = "go-basics.auth";
  audience = "go-basics.api" ∷ [];
  issued_at = 5000000000;
  not_before = 5000000000;
  expires_at = some end_0;
  id = "j1";
}

abbrev is_key : Option String → Bool
is_key none = false
is_key (some s) = str_eq s "key"

sign : String → AccessClaims → Option String
sign secret c = if str_eq secret "key" && same c claims_0 then some "h.p.s" else none

parses : ParserOptions → (Method → Option String) → ℕ → String → Parsed
parses opts key now token =
    if str_eq token "h.p.s"
      && is_key (key hmac)
      && has "HS256" opts.valid_methods
      && str_eq claims_0.issuer opts.issuer
      && has opts.audience claims_0.audience
      && leb claims_0.not_before (now + opts.leeway)
      && ltb now (end_0 + opts.leeway)
    then parsed claims_0
    else malformed

abbrev jwt : Jwt
jwt = record { numeric_date = round; signed_string = sign; parse_with_claims = parses }

sign-some :
    (secret : String) (c : AccessClaims) (token : String)
    → sign secret c ≡ some token
    → (secret ≡ "key") × (c ≡ claims_0) × (token ≡ "h.p.s")
unfolding sign
sign-some secret c token h =
    (ground (arith, eq_iff secret "key"), same-eq c claims_0 (ground arith), ground arith)

parses_signed :
    (opts : ParserOptions) (key : Method → Option String) (now : ℕ)
    → key hmac ≡ some "key"
    → has "HS256" opts.valid_methods ≡ true
    → claims_0.issuer ≡ opts.issuer
    → has opts.audience claims_0.audience ≡ true
    → claims_0.not_before ≤ now + opts.leeway
    → now < end_0 + opts.leeway
    → parses opts key now "h.p.s" ≡ parsed claims_0
unfolding parses
parses_signed opts key now k m i a from until =
    ground (arith, eq_iff "h.p.s" "h.p.s", eq_iff "key" "key", eq_iff "go-basics.auth" opts.issuer)

not_empty :
    (secret : String) (c : AccessClaims) (token : String) → sign secret c ≡ some token → token ≢ ""
not_empty secret c token h e =
    let (same_key, same_claims, same_token) = sign-some secret c token h in
    ground (arith, eq_iff "h.p.s" "")

accepts_signed :
    (secret : String) (c : AccessClaims) (token : String) (opts : ParserOptions)
    (key : Method → Option String) (now : ℕ)
    → sign secret c ≡ some token
    → key hmac ≡ some secret
    → has "HS256" opts.valid_methods ≡ true
    → c.issuer ≡ opts.issuer
    → has opts.audience c.audience ≡ true
    → c.not_before ≤ now + opts.leeway
    → ((e : ℕ) → c.expires_at ≡ some e → now < e + opts.leeway)
    → parses opts key now token ≡ parsed c
accepts_signed secret c token opts key now signs k m i a from until =
    let (same_key, same_claims, same_token) = sign-some secret c token signs in
    subst (λ d. parses opts key now token ≡ parsed d) (sym same_claims)
      (subst (λ t. parses opts key now t ≡ parsed claims_0) (sym same_token)
        (parses_signed opts key now (k ∙ ap some same_key) m
          (ap (λ d. d.issuer) (sym same_claims) ∙ i)
          (subst (λ d. has opts.audience d.audience ≡ true) same_claims a)
          (subst (λ d. d.not_before ≤ now + opts.leeway) same_claims from)
          (until end_0 (ap (λ d. d.expires_at) same_claims))))

jwt-IsJwt : IsJwt jwt
jwt-IsJwt = record {
  rounds_down = λ t. omega arith;
  rounds_closely = λ t. omega arith;
  rounds_once = λ t. omega arith;
  signed_some = λ secret c token h. not_empty secret c token h;
  accepts = λ secret c token opts key now whole. accepts_signed secret c token opts key now;
}

abbrev bcrypt : Bcrypt
bcrypt = record {
  hash = λ salt password. salt ++ password;
  matches = λ hash password. str_eq hash ("salt:" ++ password);
}

abbrev users : UserStore
users = ("boss@example.com", user) ∷ []

abbrev service : TokenService
service = record { secret = "key"; refresh = []; revoked = [] }

admissions-hand_outs_example :
    admissions "r1"
      (issues "u2" "r1" 0 ∷ uses "r1" "r2" 5 ∷ uses "r1" "r3" 6 ∷ uses "r2" "r4" 7 ∷ [])
      (new_token_service "key")
    ≤ hand_outs "r1"
        (issues "u2" "r1" 0 ∷ uses "r1" "r2" 5 ∷ uses "r1" "r3" 6 ∷ uses "r2" "r4" 7 ∷ [])
        (new_token_service "key")
admissions-hand_outs_example =
    admissions-hand_outs "r1" "key"
      (issues "u2" "r1" 0 ∷ uses "r1" "r2" 5 ∷ uses "r1" "r3" 6 ∷ uses "r2" "r4" 7 ∷ [])

rotation_counts :
    admissions "r1"
      (issues "u2" "r1" 0 ∷ uses "r1" "r2" 5 ∷ uses "r1" "r3" 6 ∷ [])
      (new_token_service "key")
    ≡ 1
unfolding admissions admitted after_call new_refresh_token use_refresh_token new_token_service
    lookup insert erase
rotation_counts = refl

signs_user : new_access_token jwt user access_ttl 5300000000 "j1" service ≡ some "h.p.s"
unfolding new_access_token claims_of sign
signs_user = refl

not_revoked :
    is_revoked "j1" (
      after_calls
        (revokes_access "j2" ∷ revokes "r" ∷ [])
        (login jwt bcrypt 5300000000 "j1" "r"
          (some ("boss@example.com", "s3cret"))
          users
          service).1)
    ≡ false
unfolding is_revoked after_calls after_call login authenticate new_access_token claims_of sign
    new_refresh_token revoke_refresh_token revoke_access_token lookup insert erase
not_revoked = refl

login-me_example :
    let signed_in =
      login jwt bcrypt 5300000000 "j1" "r" (some ("boss@example.com", "s3cret")) users service in
    (signed_in.0 ≡ record { status = 200; body = login_body "h.p.s" "r" 900 })
    × (lookup "r" signed_in.1.refresh
        ≡ some (record { user_id = "u2"; expires_at = 5300000000 + refresh_ttl }))
    × (me_route jwt 6000000000
          (after_calls (revokes_access "j2" ∷ revokes "r" ∷ []) signed_in.1)
          (with_token "h.p.s")
        ≡ some (record {
          status = 200;
          body =
              me_body "u2" "boss@example.com" "admin" (jwt.numeric_date (5300000000 + access_ttl));
        }))
unfolding lookup
login-me_example =
    login-me jwt jwt-IsJwt bcrypt users service "boss@example.com" "s3cret" "j1" "r" "h.p.s" user
      5300000000 6000000000 (revokes_access "j2" ∷ revokes "r" ∷ []) refl refl signs_user
      not_revoked (omega arith) (omega arith)

abbrev service_with_gone : TokenService
service_with_gone = record {
  secret = "key";
  refresh = ("r0", record { user_id = "u9"; expires_at = 100 }) ∷ [];
  revoked = [];
}

-- A library that signs everything.
abbrev eager : Jwt
eager = record {
  numeric_date = round;
  signed_string = λ s c. some "h.p.s";
  parse_with_claims = parses;
}

other_user : user.id ≢ "u9"
other_user h = ground (arith, eq_iff "u2" "u9")

-- A library that takes a token with no end, which the library allows, signed with the service's key.
abbrev claims_forever : AccessClaims
claims_forever = record claims_0 { expires_at = none }

abbrev lasting : Jwt
lasting = record {
  numeric_date = round;
  signed_string = λ s c. some "h.p.s";
  parse_with_claims = λ opts key now token. parsed claims_forever;
}

me_panics : me_route lasting 6 service (with_token "h.p.s") ≡ none
unfolding me_route require_auth me parse is_revoked bearer fold_eq cut_space lookup
me_panics = refl

routes-agree_example :
    ((a : Response) × (me_route lasting 6 service (with_token "h.p.s") ≡ some a)
      × (admin_route lasting 6 service (with_token "h.p.s") ≡ some a)
      × (a.status ≡ 401)
      × ((c : AccessClaims) → IsAdmitted lasting 6 service (with_token "h.p.s") c → ⊥))
    ⊎ ((c : AccessClaims) × IsAdmitted lasting 6 service (with_token "h.p.s") c
        × IsAnswered lasting 6 service (with_token "h.p.s") c)
routes-agree_example = routes-agree lasting 6 service (with_token "h.p.s")
