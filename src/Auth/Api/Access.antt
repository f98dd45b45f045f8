-- ===== src/Auth/Api/Access.antt =====
-- What the protected routes of 60_jwt_auth/main.go let through.
use go_basics.Common.{
  ℕ, ◌≡◌, ◌≢◌, refl, true, false, ◌⊎◌, inl, inr, String, none, some, eq_iff, arith, Option-cases,
  Bool-cases,
}
use go_basics.Auth.Tokens.{
  AccessClaims, Jwt, Parsed, parsed, expired, signature_invalid, malformed, ok, err, token_expired,
  token_invalid, token_revoked, TokenService, is_revoked, parse, parser_options, key_of,
}
use go_basics.Auth.Api.{
  Body, error_body, Response, me_body, admin_body, write_err, Request, bearer, require_auth,
  require_role, me, admin, me_route, admin_route,
}

-- The header has a token that the library parses to claims, with the service's options and key, which are not
-- revoked.
abbrev pub IsAdmitted : Jwt → ℕ → TokenService → Request → AccessClaims → Type 0
IsAdmitted jwt now ts r c =
    ((token : String) × (bearer r.authorization ≡ some token)
      × (jwt.parse_with_claims parser_options (key_of ts) now token ≡ parsed c))
    × (is_revoked c.id ts ≡ false)

-- What the routes answer for claims: 200 with what they say, or 403 where the role is another; and `/me` panics
-- where the claims have no end.
abbrev pub IsAnswered : Jwt → ℕ → TokenService → Request → AccessClaims → Type 0
IsAnswered jwt now ts r c =
    ((e : ℕ)
      → c.expires_at ≡ some e
      → me_route jwt now ts r
        ≡ some (record { status = 200; body = me_body c.subject c.email c.role e }))
    × (c.expires_at ≡ none → me_route jwt now ts r ≡ none)
    × (c.role ≡ "admin"
        → admin_route jwt now ts r ≡ some (record { status = 200; body = admin_body c.email }))
    × (c.role ≢ "admin"
        → (body : Body) × (admin_route jwt now ts r ≡ some (record { status = 403; body = body })))

Parsed-cases :
    (p : Parsed)
    → ((c : AccessClaims) × (p ≡ parsed c))
      ⊎ (p ≡ expired)
      ⊎ (p ≡ signature_invalid)
      ⊎ (p ≡ malformed)
Parsed-cases (parsed c) = inl (c, refl)
Parsed-cases expired = inr (inl refl)
Parsed-cases signature_invalid = inr (inr (inl refl))
Parsed-cases malformed = inr (inr (inr refl))

parse_cases :
    (jwt : Jwt) (now : ℕ) (token : String) (ts : TokenService)
    → (((parse jwt now token ts ≡ err token_expired)
          ⊎ (parse jwt now token ts ≡ err token_invalid)
          ⊎ (parse jwt now token ts ≡ err token_revoked))
        × ((c : AccessClaims)
            → jwt.parse_with_claims parser_options (key_of ts) now token ≡ parsed c
            → is_revoked c.id ts ≡ true))
      ⊎ ((c : AccessClaims) × (parse jwt now token ts ≡ ok c)
          × (jwt.parse_with_claims parser_options (key_of ts) now token ≡ parsed c)
          × (is_revoked c.id ts ≡ false))
unfolding parse
parse_cases jwt now token ts =
    elim (Parsed-cases (jwt.parse_with_claims parser_options (key_of ts) now token)) [
      | inl (c, e) ↦ elim (Bool-cases (is_revoked c.id ts)) [
        | inl out ↦ inl (inr (inr (ground arith)), λ d same. ground arith)
        | inr live ↦ inr (c, ground arith, e, live)
      ]
      | inr (inl e) ↦ inl (inl (ground arith), λ d same. absurd (ground arith))
      | inr (inr (inl e)) ↦ inl (inr (inl (ground arith)), λ d same. absurd (ground arith))
      | inr (inr (inr e)) ↦ inl (inr (inl (ground arith)), λ d same. absurd (ground arith))
    ]

-- The two protected routes give every request the same verdict. Where the header has no token, or the library
-- does not parse it with the service's options and key, or its claims are revoked, both answer with the same
-- 401. Otherwise `/admin` answers 200 if the role of the claims is "admin" and 403 if not, and `/me` answers
-- 200 with what they say, if they have an end, and panics if they have none.
pub routes-agree :
    (jwt : Jwt) (now : ℕ) (ts : TokenService) (r : Request)
    → ((a : Response) × (me_route jwt now ts r ≡ some a)
        × (admin_route jwt now ts r ≡ some a)
        × (a.status ≡ 401)
        × ((c : AccessClaims) → IsAdmitted jwt now ts r c → ⊥))
      ⊎ ((c : AccessClaims) × IsAdmitted jwt now ts r c × IsAnswered jwt now ts r c)
unfolding me_route admin_route require_auth require_role me admin write_err
routes-agree jwt now ts r = elim (Option-cases (bearer r.authorization)) [
  | inl missing ↦ inl (
    write_err 401 "missing bearer token",
    ground arith,
    ground arith,
    refl,
    λ c ((t, there, p), live). absurd (ground arith),
  )
  | inr (token, read) ↦ elim (parse_cases jwt now token ts) [
    | inl (fails, out) ↦
        let shut : (c : AccessClaims) → IsAdmitted jwt now ts r c → ⊥ =
          λ c ((t, there, p), live). absurd (ground (arith, out c)) in
        elim fails [
          | inl e ↦ inl (write_err 401 "token_expired", ground arith, ground arith, refl, shut)
          | inr (inl e) ↦
              inl (write_err 401 "invalid_token", ground arith, ground arith, refl, shut)
          | inr (inr e) ↦
              inl (write_err 401 "invalid_token", ground arith, ground arith, refl, shut)
        ]
    | inr (c, parses, raw, live) ↦ inr (
      c,
      ((token, read, raw), live),
      (
        λ e ends. ground arith,
        λ endless. ground arith,
        λ yes. ground (arith, eq_iff c.role "admin"),
        λ no. (error_body "forbidden: requires role admin", ground (arith, eq_iff c.role "admin")),
      ),
    )
  ]
]
