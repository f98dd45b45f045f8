-- ===== src/Capstone/Config/Accepted.antt =====
-- What an accepted configuration of 47_capstone means for its API.
use Prim.Native.String.{◌++◌}
use go_basics.Common.{
  ◌≡◌, ◌≢◌, refl, sym, ap, ◌∙◌, true, String, Option, some, ◌⊎◌, inl, inr, arith, str_eq, eq_iff,
  Option-cases, Bool-cases,
}
use go_basics.Common.Int.{pos, ◌≤ℤ◌}
use go_basics.Common.Dict.{Dict, string_comparable, lookup}
use go_basics.Common.Text.{strip_prefix, trim_prefix, trim_prefix-append}
use go_basics.Capstone.Api.{Request, Reply, write_error, api_key_auth}
use go_basics.Capstone.Config.{
  Config, Parsers, Flags, validate, env_str, env_read, configured, load,
}

env_str-some :
    (e : Dict String String) (key default : String) → default ≢ "" → env_str e key default ≢ ""
unfolding env_str
env_str-some e key default some_default empty = elim (Option-cases (lookup key e)) [
  | inl missing ↦ some_default (ground arith)
  | inr (v, found) ↦ elim (Bool-cases (str_eq v "")) [
    | inl blank ↦ some_default (ground arith)
    | inr solid ↦ ground (arith, eq_iff v "")
  ]
]

accepted :
    (p : Parsers) (e : Dict String String) (flags : Option Flags) (c : Config)
    → load p e flags ≡ some c
    → (validate c ≡ true) × (c.api_key ≡ env_str e "APP_API_KEY" "dev-key")
unfolding load configured
accepted p e flags c h = elim (Option-cases (env_read p.atoi e "APP_DB_MAX_CONNS" (pos 10))) [
  | inl bad ↦ absurd (ground arith)
  | inr (conns, a) ↦
      elim (Option-cases (env_read p.parse_duration e "APP_REQUEST_TIMEOUT" (pos 5000000000))) [
        | inl bad ↦ absurd (ground arith)
        | inr (request, b) ↦
            elim (Option-cases
              (env_read p.parse_duration e "APP_SHUTDOWN_TIMEOUT" (pos 15000000000))) [
                | inl bad ↦ absurd (ground arith)
                | inr (shutdown, d) ↦ elim (Option-cases flags) [
                  | inl bad ↦ absurd (ground arith)
                  | inr (f, given) ↦
                      elim (Bool-cases (validate (configured e f conns request shutdown))) [
                        | inr refused ↦ absurd (ground arith)
                        | inl fine ↦
                            let same : configured e f conns request shutdown ≡ c = ground arith in
                            (ap validate (sym same) ∙ fine, ap (λ k. k.api_key) (sym same))
                      ]
                ]
              ]
      ]
]

dev_key : String
dev_key = "dev-key"

dev_key-some : dev_key ≢ ""
unfolding dev_key
dev_key-some h = ground (arith, eq_iff "dev-key" "")

bare_key : trim_prefix "Bearer " "dev-key" ≡ "dev-key"
unfolding trim_prefix strip_prefix
bare_key = refl

no_key : trim_prefix "Bearer " "" ≡ ""
unfolding trim_prefix strip_prefix
no_key = refl

refuses_header :
    {S : Type 0} (key : String) (next : Request → S → Reply × S) (r : Request) (s : S)
    → key ≢ "dev-key"
    → (r.authorization ≡ "dev-key")
      ⊎ (r.authorization ≡ "Bearer " ++ "dev-key")
      ⊎ (r.authorization ≡ "")
    → api_key_auth key next r s ≡ (write_error 401 "unauthorized", s)
unfolding api_key_auth
refuses_header key next r s other (inl same) = ground (
  arith,
  ap (trim_prefix "Bearer ") same ∙ bare_key,
  eq_iff (trim_prefix "Bearer " r.authorization) key,
)
refuses_header key next r s other (inr (inl same)) = ground (
  arith,
  ap (trim_prefix "Bearer ") same ∙ trim_prefix-append "Bearer " "dev-key",
  eq_iff (trim_prefix "Bearer " r.authorization) key,
)
refuses_header key next r s other (inr (inr same)) = ground (
  arith,
  ap (trim_prefix "Bearer ") same ∙ no_key,
  eq_iff (trim_prefix "Bearer " r.authorization) "",
)

-- Where `Load` accepts a configuration for prod, its key is not empty and its pool has at least one
-- connection; and the API with that key answers 401 to a request that has no header or the default key in
-- it, with or without "Bearer " before it, and runs no handler.
pub load-default_key :
    {S : Type 0} (p : Parsers) (e : Dict String String) (flags : Option Flags) (c : Config)
    (next : Request → S → Reply × S) (r : Request) (s : S)
    → load p e flags ≡ some c
    → c.env ≡ "prod"
    → (r.authorization ≡ "dev-key")
      ⊎ (r.authorization ≡ "Bearer " ++ "dev-key")
      ⊎ (r.authorization ≡ "")
    → (c.api_key ≢ "")
      × (pos 1 ≤ℤ c.max_open_conns)
      × (api_key_auth c.api_key next r s ≡ (write_error 401 "unauthorized", s))
unfolding validate dev_key
load-default_key p e flags c next r s h prod header =
    let (fine, key) = accepted p e flags c h in
    let other : c.api_key ≢ "dev-key" =
      λ same. ground (arith, eq_iff c.env "prod", eq_iff c.api_key "dev-key") in
    (
      λ empty. env_str-some e "APP_API_KEY" "dev-key" dev_key-some (sym key ∙ empty),
      ground arith,
      refuses_header c.api_key next r s other header,
    )
