-- ===== src/RateLimit/Config.antt =====
-- system-design/fixed-window-counter/internal/config/config.go. The environment and the parsers of
-- strconv and time are parameters; an `int` and a `time.Duration` are integers. `validate` walks a
-- Go map of the rules, in no fixed order: here they go in the order in which the source writes them.
pub mod Accepted
use go_basics.Common.{
  ℕ, Bool, true, false, String, Option, none, some, List, [], ◌∷◌, ◌++◌, concat, not, str_eq,
  if◌then◌else◌,
}
use go_basics.Common.Int.{ℤ, pos, pos_part, ltb_ℤ, leb_ℤ}
use go_basics.RateLimit.Service
use go_basics.RateLimit.Service.{Options}

-- `Rule`.
pub record Rule : Type 0 where
  pub limit : ℤ
  pub window : ℤ

-- `Config`.
pub record Config : Type 0 where
  pub http_addr : String
  pub database_url : String
  pub fail_open : Bool
  pub tenant : Rule
  pub api_key : Rule
  pub user : Rule
  pub db_timeout : ℤ
  pub retry_attempts : ℤ
  pub retry_backoff : ℤ
  pub breaker_threshold : ℤ
  pub breaker_cooldown : ℤ

-- The errors, by what their texts say.
pub data ConfigError : Type 0 where
  not_an_integer not_a_boolean not_a_duration : String → String → ConfigError
  url_required : ConfigError
  out_of_range : String → ℤ → ConfigError

-- What the program takes from outside: os.Getenv, strconv.Atoi, strconv.ParseBool and
-- time.ParseDuration.
pub record Environment : Type 0 where
  pub getenv : String → String
  pub atoi : String → Option ℤ
  pub parse_bool : String → Option Bool
  pub parse_duration : String → Option ℤ

module _ (env : Environment) where
  -- `stringEnv`.
  unfoldable pub string_env : String → String → String
  string_env key def = let v = env.getenv key in if str_eq v "" then def else v

  -- `intEnv`: the value, and the error if there is one.
  unfoldable pub int_env : String → ℤ → ℤ × Option ConfigError
  int_env key def =
      let v = env.getenv key in
      if str_eq v ""
      then (def, none)
      else elim (env.atoi v) [ some n ↦ (n, none) | none ↦ (pos 0, some (not_an_integer key v)) ]

  -- `boolEnv`.
  unfoldable pub bool_env : String → Bool → Bool × Option ConfigError
  bool_env key def =
      let v = env.getenv key in
      if str_eq v "" then (def, none) else elim (env.parse_bool v) [
        | some b ↦ (b, none)
        | none ↦ (false, some (not_a_boolean key v))
      ]

  -- `durationEnv`.
  unfoldable pub duration_env : String → ℤ → ℤ × Option ConfigError
  duration_env key def =
      let v = env.getenv key in
      if str_eq v "" then (def, none) else elim (env.parse_duration v) [
        | some d ↦ (d, none)
        | none ↦ (pos 0, some (not_a_duration key v))
      ]

-- An error where a test fails.
abbrev check_that : Bool → ConfigError → List ConfigError
check_that true e = []
check_that false e = e ∷ []

unfoldable pub check_rule : String → Rule → List ConfigError
check_rule name r =
    check_that (ltb_ℤ (pos 0) r.limit) (out_of_range name r.limit)
    ++ check_that (leb_ℤ (pos 1_000_000_000) r.window) (out_of_range name r.window)

-- The checks of `validate`, each with the errors that it adds.
unfoldable pub checks : Config → List (List ConfigError)
checks c =
    check_that (not (str_eq c.database_url "")) url_required
    ∷ check_that (ltb_ℤ (pos 0) c.db_timeout) (out_of_range "DB_TIMEOUT" c.db_timeout)
    ∷ check_that (leb_ℤ (pos 1) c.retry_attempts)
        (out_of_range "DB_RETRY_ATTEMPTS" c.retry_attempts)
    ∷ check_that (leb_ℤ (pos 0) c.retry_backoff) (out_of_range "DB_RETRY_BACKOFF" c.retry_backoff)
    ∷ check_that (leb_ℤ (pos 1) c.breaker_threshold)
        (out_of_range "BREAKER_THRESHOLD" c.breaker_threshold)
    ∷ check_that (ltb_ℤ (pos 0) c.breaker_cooldown)
        (out_of_range "BREAKER_COOLDOWN" c.breaker_cooldown)
    ∷ check_rule "tenant" c.tenant
    ∷ check_rule "api_key" c.api_key
    ∷ check_rule "user" c.user
    ∷ []

-- `validate`: what it joins.
unfoldable pub validate : Config → List ConfigError
validate c = concat (checks c)

-- `errors.Join`: the errors that are not nil.
abbrev join : List (Option ConfigError) → List ConfigError
join [] = []
join (none ∷ es) = join es
join (some e ∷ es) = e ∷ join es

pub data Loaded : Type 0 where
  loaded : Config → Loaded
  refused : List ConfigError → Loaded

-- The two checks at the end of `Load`.
unfoldable pub finish : List ConfigError → Config → Loaded
finish [] cfg = elim (validate cfg) [ [] ↦ loaded cfg | e ∷ es ↦ refused (e ∷ es) ]
finish (e ∷ es) cfg = refused (e ∷ es)

-- The variables that `Load` reads, each with its default, and the errors of reading them.
module _ (env : Environment) where
  abbrev pub window : ℤ × Option ConfigError
  window = duration_env env "RATE_LIMIT_WINDOW" (pos 60_000_000_000)

  abbrev tenant_limit : ℤ × Option ConfigError
  tenant_limit = int_env env "RATE_LIMIT_TENANT" (pos 100)

  abbrev api_key_limit : ℤ × Option ConfigError
  api_key_limit = int_env env "RATE_LIMIT_API_KEY" (pos 40)

  abbrev user_limit : ℤ × Option ConfigError
  user_limit = int_env env "RATE_LIMIT_USER" (pos 20)

  abbrev fail_open : Bool × Option ConfigError
  fail_open = bool_env env "RATE_LIMIT_FAIL_OPEN" true

  abbrev db_timeout : ℤ × Option ConfigError
  db_timeout = duration_env env "DB_TIMEOUT" (pos 200_000_000)

  abbrev retry_attempts : ℤ × Option ConfigError
  retry_attempts = int_env env "DB_RETRY_ATTEMPTS" (pos 3)

  abbrev retry_backoff : ℤ × Option ConfigError
  retry_backoff = duration_env env "DB_RETRY_BACKOFF" (pos 20_000_000)

  abbrev breaker_threshold : ℤ × Option ConfigError
  breaker_threshold = int_env env "BREAKER_THRESHOLD" (pos 5)

  abbrev breaker_cooldown : ℤ × Option ConfigError
  breaker_cooldown = duration_env env "BREAKER_COOLDOWN" (pos 10_000_000_000)

  -- `cfg` before the checks.
  unfoldable pub read_config : Config
  unfolding string_env
  read_config = record {
    http_addr = string_env env "HTTP_ADDR" ":8080";
    database_url = env.getenv "DATABASE_URL";
    fail_open = fail_open.0;
    tenant = record { limit = tenant_limit.0; window = window.0 };
    api_key = record { limit = api_key_limit.0; window = window.0 };
    user = record { limit = user_limit.0; window = window.0 };
    db_timeout = db_timeout.0;
    retry_attempts = retry_attempts.0;
    retry_backoff = retry_backoff.0;
    breaker_threshold = breaker_threshold.0;
    breaker_cooldown = breaker_cooldown.0;
  }

  -- `errs` before the checks.
  unfoldable pub read_errors : List (Option ConfigError)
  read_errors =
      tenant_limit.1 ∷ api_key_limit.1 ∷ user_limit.1 ∷ fail_open.1 ∷ db_timeout.1
      ∷ retry_attempts.1 ∷ retry_backoff.1 ∷ breaker_threshold.1 ∷ breaker_cooldown.1 ∷ []

-- `Load`.
unfoldable pub load : Environment → Loaded
load env = elim (window env).1 [
  | some e ↦ refused (e ∷ [])
  | none ↦ finish (join (read_errors env)) (read_config env)
]

-- `OptionsFromConfig`, into the natural numbers of the service.
unfoldable pub options_from_config : Config → Options
options_from_config c = record {
  fail_open = c.fail_open;
  call_timeout = pos_part c.db_timeout;
  max_attempts = pos_part c.retry_attempts;
  base_backoff = pos_part c.retry_backoff;
  breaker_threshold = pos_part c.breaker_threshold;
  breaker_cooldown = pos_part c.breaker_cooldown;
}

-- A rule, into the natural numbers of the service.
unfoldable pub service_rule : Rule → Service.Rule
service_rule r = record { limit = pos_part r.limit; window = pos_part r.window }
