-- ===== src/Auth/Tokens/Rotation.antt =====
-- Histories of the refresh tokens of 60_jwt_auth/main.go.
use go_basics.Common.{
  ℕ, ◌+◌, ◌≤◌, ◌≡◌, String, none, some, List, [], ◌∷◌, arith, str_eq, eq_iff, if◌then◌else◌,
  Option-cases, inl, inr,
}
use go_basics.Common.Dict.{string_comparable, lookup, erase, lookup-insert, lookup-erase}
use go_basics.Auth.Tokens.{
  TokenService, ok, err, new_token_service, new_refresh_token, use_refresh_token,
  revoke_refresh_token, revoke_access_token, refresh_ttl,
}

-- A call of the service that changes its state, with the instant and the random text it draws.
pub data Call : Type 0 where
  issues : String → String → ℕ → Call
  uses : String → String → ℕ → Call
  revokes : String → Call
  revokes_access : String → Call

unfoldable pub after_call : Call → TokenService → TokenService
after_call (issues user random now) ts = (new_refresh_token user random now ts).1
after_call (uses t random now) ts = (use_refresh_token t random now ts).1
after_call (revokes t) ts = revoke_refresh_token t ts
after_call (revokes_access jti) ts = revoke_access_token jti ts

-- 1 where a call is let in with the token, 0 otherwise.
unfoldable pub admitted : String → Call → TokenService → ℕ
admitted t (uses u random now) ts = elim (use_refresh_token u random now ts).0 [
  | ok a ↦ if str_eq u t then 1 else 0
  | err e ↦ 0
]
admitted t (issues user random now) ts = 0
admitted t (revokes u) ts = 0
admitted t (revokes_access jti) ts = 0

-- 1 where a call hands out the token, 0 otherwise.
unfoldable pub handed_out : String → Call → TokenService → ℕ
handed_out t (issues user random now) ts = if str_eq random t then 1 else 0
handed_out t (uses u random now) ts = elim (use_refresh_token u random now ts).0 [
  | ok a ↦ if str_eq random t then 1 else 0
  | err e ↦ 0
]
handed_out t (revokes u) ts = 0
handed_out t (revokes_access jti) ts = 0

-- How often a history lets in a token, and how often it hands it out.
unfoldable pub admissions : String → List Call → TokenService → ℕ
admissions t [] ts = 0
admissions t (c ∷ cs) ts = admitted t c ts + admissions t cs (after_call c ts)

unfoldable pub hand_outs : String → List Call → TokenService → ℕ
hand_outs t [] ts = 0
hand_outs t (c ∷ cs) ts = handed_out t c ts + hand_outs t cs (after_call c ts)

-- 1 where the token is stored.
stored : String → TokenService → ℕ
stored t ts = elim (lookup t ts.refresh) [ none ↦ 0 | some r ↦ 1 ]

module _ (t : String) where
  uses_bound :
      (u random : String) (now : ℕ) (ts : TokenService)
      → admitted t (uses u random now) ts + stored t (after_call (uses u random now) ts)
        ≤ handed_out t (uses u random now) ts + stored t ts
  unfolding admitted stored after_call handed_out use_refresh_token
  uses_bound u random now ts = elim (Option-cases (lookup u ts.refresh)) [
    | inl missing ↦ ground arith
    | inr (r, found) ↦ ground (
      arith,
      lookup-erase u t ts.refresh,
      eq_iff u t,
      eq_iff random t,
      lookup-insert random t (record { user_id = r.user_id; expires_at = now + refresh_ttl })
          (erase u ts.refresh),
    )
  ]

  call_bound :
      (c : Call) (ts : TokenService)
      → admitted t c ts + stored t (after_call c ts) ≤ handed_out t c ts + stored t ts
  unfolding admitted stored after_call handed_out use_refresh_token new_refresh_token
      revoke_refresh_token revoke_access_token
  call_bound (issues user random now) ts = ground (
    arith,
    lookup-insert random t (record { user_id = user; expires_at = now + refresh_ttl }) ts.refresh,
  )
  call_bound (uses u random now) ts = uses_bound u random now ts
  call_bound (revokes u) ts = ground (arith, lookup-erase u t ts.refresh)
  call_bound (revokes_access jti) ts = omega arith

  admissions_bound :
      (cs : List Call) (ts : TokenService) → admissions t cs ts ≤ hand_outs t cs ts + stored t ts
  unfolding admissions hand_outs
  admissions_bound [] ts = omega arith
  admissions_bound (c ∷ cs) ts =
      omega (arith, call_bound c ts, admissions_bound cs (after_call c ts))

none_stored : (t secret : String) → stored t (new_token_service secret) ≡ 0
unfolding stored new_token_service lookup
none_stored t secret = omega arith

-- Along any history of calls of a new service, a refresh token is let in at most as often as it was
-- handed out: so once at most where the random texts differ, and never where it was never handed out.
pub admissions-hand_outs :
    (t secret : String) (cs : List Call)
    → admissions t cs (new_token_service secret) ≤ hand_outs t cs (new_token_service secret)
admissions-hand_outs t secret cs =
    omega (arith, admissions_bound t cs (new_token_service secret), none_stored t secret)
