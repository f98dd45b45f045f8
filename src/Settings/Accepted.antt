-- ===== src/Settings/Accepted.antt =====
-- What `Load` accepts and reports.
use go_basics.Common.{
  ◌≡◌, ◌≢◌, ◌⊎◌, inl, inr, refl, ap, subst, ◌∙◌, Bool, true, false, not, ◌&&◌, ◌||◌, String, Option,
  some, List, [], ◌∷◌, ◌++◌, All, arith, str_eq, eq_iff, Bool-cases, Option-cases,
}
use go_basics.Common.Int.{pos, ◌≤ℤ◌, ltb_ℤ}
use go_basics.Common.Dict.{Dict, string_comparable, lookup}
use go_basics.Common.Text.{trim_space, trim_space_twice, trim_left, trim_right, is_space}
use go_basics.Settings.{
  Config, Parsers, Flags, Problem, accepted, one_of, trimmed, env_csv, check, validate,
  read_environment, override, load,
}

-- The rules, each by itself.
pub record IsSound (c : Config) : Type 0 where
  pub env_known : (c.env ≡ "dev") ⊎ ((c.env ≡ "staging") ⊎ (c.env ≡ "prod"))
  pub level_known :
      (c.log_level ≡ "debug")
      ⊎ ((c.log_level ≡ "info") ⊎ ((c.log_level ≡ "warn") ⊎ (c.log_level ≡ "error")))
  pub port_low : pos 1 ≤ℤ c.port
  pub port_high : c.port ≤ℤ pos 65535
  pub conns : pos 1 ≤ℤ c.max_open_conns
  pub dsn_in_prod : c.env ≡ "prod" → c.dsn ≢ ""
  pub host_in_prod : c.env ≡ "prod" → c.host ≢ "127.0.0.1"

List-cases : {A : Type 0} (l : List A) → (l ≡ []) ⊎ ((x : A) × (xs : List A) × (l ≡ x ∷ xs))
List-cases [] = inl refl
List-cases (x ∷ xs) = inr (x, xs, refl)

check-nil : (b : Bool) (key : String) → check b key ≡ [] → b ≡ false
check-nil true key h = absurd (cc)
check-nil false key h = refl

rule-nil :
    (b : Bool) (key : String) (rest : List Problem)
    → check b key ++ rest ≡ []
    → (b ≡ false) × (rest ≡ [])
rule-nil true key rest h = absurd (cc)
rule-nil false key rest h = (refl, h)

-- Every rule holds where none is broken.
rules-hold :
    (a b c d e f : Bool) (k₁ k₂ k₃ k₄ k₅ k₆ : String)
    → check a k₁ ++ (check b k₂ ++ (check c k₃ ++ (check d k₄ ++ (check e k₅ ++ check f k₆)))) ≡ []
    → (a ≡ false) × (b ≡ false) × (c ≡ false) × (d ≡ false) × (e ≡ false) × (f ≡ false)
rules-hold a b c d e f k₁ k₂ k₃ k₄ k₅ k₆ h =
    let (h₁, r₁) =
      rule-nil a k₁ (check b k₂ ++ (check c k₃ ++ (check d k₄ ++ (check e k₅ ++ check f k₆)))) h in
    let (h₂, r₂) = rule-nil b k₂ (check c k₃ ++ (check d k₄ ++ (check e k₅ ++ check f k₆))) r₁ in
    let (h₃, r₃) = rule-nil c k₃ (check d k₄ ++ (check e k₅ ++ check f k₆)) r₂ in
    let (h₄, r₄) = rule-nil d k₄ (check e k₅ ++ check f k₆) r₃ in
    let (h₅, r₅) = rule-nil e k₅ (check f k₆) r₄ in (h₁, h₂, h₃, h₄, h₅, check-nil f k₆ r₅)

validate-IsSound : (c : Config) → validate c ≡ [] → IsSound c
unfolding validate one_of
validate-IsSound c h =
    let (e₁, e₂, e₃, e₄, e₅, e₆) =
      rules-hold (not (one_of c.env ("dev" ∷ "staging" ∷ "prod" ∷ [])))
        (not (one_of c.log_level ("debug" ∷ "info" ∷ "warn" ∷ "error" ∷ [])))
        (ltb_ℤ c.port (pos 1) || ltb_ℤ (pos 65535) c.port) (ltb_ℤ c.max_open_conns (pos 1))
        (str_eq c.env "prod" && str_eq c.dsn "") (str_eq c.env "prod" && str_eq c.host "127.0.0.1")
        "APP_ENV" "APP_LOG_LEVEL" "APP_PORT" "APP_DB_MAX_CONNS" "APP_DB_DSN" "APP_HOST" h in
    record {
      env_known = ground (arith, eq_iff c.env "dev", eq_iff c.env "staging", eq_iff c.env "prod");
      level_known = ground (
        arith,
        eq_iff c.log_level "debug",
        eq_iff c.log_level "info",
        eq_iff c.log_level "warn",
        eq_iff c.log_level "error",
      );
      port_low = ground arith;
      port_high = ground arith;
      conns = ground arith;
      dsn_in_prod = λ p q. ground (arith, eq_iff c.env "prod", eq_iff c.dsn "");
      host_in_prod = λ p q. ground (arith, eq_iff c.env "prod", eq_iff c.host "127.0.0.1");
    }

-- What a list of hosts that is read has: texts that are not empty and have no space around them.
abbrev pub IsHost : String → Type 0
IsHost host = (host ≢ "") × (trim_space host ≡ host)

trimmed-IsHost : (ps : List String) → All IsHost (trimmed ps)
unfolding trimmed
trimmed-IsHost [] = tt
trimmed-IsHost (p ∷ ps) = elim (Bool-cases (str_eq (trim_space p) "")) [
  | inl blank ↦ rw blank (trimmed-IsHost ps)
  | inr solid ↦
      rw solid
        ((λ empty. ground (arith, eq_iff (trim_space p) ""), trim_space_twice p), trimmed-IsHost ps)
]

localhost-IsHost : IsHost "localhost"
unfolding trim_space trim_left trim_right is_space
localhost-IsHost = ((λ h. ground (arith, eq_iff "localhost" "")), refl)

env_csv-IsHost :
    (split : String → List String) (e : Dict String String) (key : String) (default : List String)
    → All IsHost default
    → All IsHost (env_csv split e key default)
unfolding env_csv
env_csv-IsHost split e key default h = elim (Option-cases (lookup key e)) [
  | inl missing ↦ subst (All IsHost) (ground arith) h
  | inr (v, found) ↦ elim (Bool-cases (str_eq v "")) [
    | inl blank ↦ subst (All IsHost) (ground arith) h
    | inr solid ↦ subst (All IsHost) (ground arith) (trimmed-IsHost (split v))
  ]
]

hosts-IsHost :
    (p : Parsers) (e : Dict String String) (f : Flags)
    → All IsHost (override f (read_environment p e).0).allowed_hosts
unfolding override read_environment
hosts-IsHost p e f =
    env_csv-IsHost p.split e "APP_ALLOWED_HOSTS" ("localhost" ∷ []) (localhost-IsHost, tt)

-- A configuration that `Load` accepts keeps all rules, and has only hosts that are not empty and have no space
-- around them; and it is the environment's with the flags that are set, with nothing that could not be read.
pub load-IsSound :
    (p : Parsers) (e : Dict String String) (flags : Option Flags) (c : Config)
    → load p e flags ≡ accepted c
    → IsSound c
      × All IsHost c.allowed_hosts
      × ((f : Flags) × (flags ≡ some f)
          × (c ≡ override f (read_environment p e).0)
          × ((read_environment p e).1 ≡ []))
unfolding load
load-IsSound p e flags c h = elim (List-cases (read_environment p e).1) [
  | inr (x, xs, some') ↦ absurd (ground arith)
  | inl readable ↦ elim (Option-cases flags) [
    | inl bad ↦ absurd (ground arith)
    | inr (f, given) ↦ elim (List-cases (validate (override f (read_environment p e).0))) [
      | inr (x, xs, some') ↦ absurd (ground arith)
      | inl fine ↦
          let same : c ≡ override f (read_environment p e).0 = ground arith in
          (
            validate-IsSound c (ap validate same ∙ fine),
            rw same (hosts-IsHost p e f),
            (f, given, same, readable),
          )
    ]
  ]
]
