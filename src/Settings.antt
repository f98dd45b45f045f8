-- ===== src/Settings.antt =====
-- 41_config_and_env/main.go. The parsers of strconv, time, flag and strings are parameters; the flags are what
-- parsing gives, if it gives something. Durations are nanoseconds.
pub mod Accepted
pub mod Reports
mod Tests
use go_basics.Common.{
  ℕ, ◌*◌, ◌≡◌, Bool, true, false, ◌&&◌, ◌||◌, not, String, Option, none, some, List, [], ◌∷◌, ◌++◌,
  str_eq, if◌then◌else◌,
}
use go_basics.Common.Int.{ℤ, pos, ltb_ℤ}
use go_basics.Common.Dict.{Dict, string_comparable, lookup}
use go_basics.Common.Text.{trim_space}

-- `Config`, with its three groups.
pub record Config : Type 0 where
  pub env : String
  pub log_level : String
  pub host : String
  pub port : ℤ
  pub read_timeout : ℤ
  pub write_timeout : ℤ
  pub shutdown_timeout : ℤ
  pub dsn : String
  pub max_open_conns : ℤ
  pub enable_signup : Bool
  pub allowed_hosts : List String

-- `Atoi`, `ParseBool`, `ParseDuration`, and `Split` at commas.
pub record Parsers : Type 0 where
  pub atoi : String → Option ℤ
  pub parse_bool : String → Option Bool
  pub parse_duration : String → Option ℤ
  pub split : String → List String

-- The flags that are set.
pub record Flags : Type 0 where
  pub env : Option String
  pub port : Option ℤ
  pub log_level : Option String

-- What is reported: a variable that cannot be read, the flags, or a rule that is broken.
pub data Problem : Type 0 where
  unreadable : String → Problem
  bad_flags : Problem
  broken : String → Problem

pub data Loaded : Type 0 where
  accepted : Config → Loaded
  rejected : List Problem → Loaded

-- `Secret.String`.
unfoldable pub shown : String → String
shown secret = if str_eq secret "" then "" else "[REDACTED]"

-- `oneOf`.
unfoldable pub one_of : String → List String → Bool
one_of v [] = false
one_of v (a ∷ as') = let rest = one_of v as' in str_eq v a || rest

-- `envStr`.
unfoldable pub env_str : Dict String String → String → String → String
env_str e key default = elim (lookup key e) [
  | none ↦ default
  | some v ↦ if str_eq v "" then default else v
]

-- `envInt`, `envBool` and `envDur`, with the parser: the value, and the problem if there is one.
unfoldable pub env_read :
    {A : Type 0} → (String → Option A) → Dict String String → String → A → A × List Problem
env_read parse e key default = elim (lookup key e) [
  | none ↦ (default, [])
  | some v ↦
      if str_eq v ""
      then (default, [])
      else elim (parse v) [ none ↦ (default, unreadable key ∷ []) | some a ↦ (a, []) ]
]

-- The loop of `envCSV`.
unfoldable pub trimmed : List String → List String
trimmed [] = []
trimmed (p ∷ ps) =
    let rest = trimmed ps in if str_eq (trim_space p) "" then rest else trim_space p ∷ rest

-- `envCSV`.
unfoldable pub env_csv :
    (String → List String) → Dict String String → String → List String → List String
unfolding trimmed
env_csv split e key default = elim (lookup key e) [
  | none ↦ default
  | some v ↦ if str_eq v "" then default else trimmed (split v)
]

-- A rule of `Validate`.
abbrev pub check : Bool → String → List Problem
check breaks key = if breaks then broken key ∷ [] else []

-- `Validate`.
unfoldable pub validate : Config → List Problem
unfolding one_of
validate c =
    check (not (one_of c.env ("dev" ∷ "staging" ∷ "prod" ∷ []))) "APP_ENV"
    ++ (check (not (one_of c.log_level ("debug" ∷ "info" ∷ "warn" ∷ "error" ∷ []))) "APP_LOG_LEVEL"
        ++ (check (ltb_ℤ c.port (pos 1) || ltb_ℤ (pos 65535) c.port) "APP_PORT"
            ++ (check (ltb_ℤ c.max_open_conns (pos 1)) "APP_DB_MAX_CONNS"
                ++ (check (str_eq c.env "prod" && str_eq c.dsn "") "APP_DB_DSN"
                    ++ check (str_eq c.env "prod" && str_eq c.host "127.0.0.1") "APP_HOST"))))

abbrev second : ℕ
second = 1000000000

-- The first two layers of `Load`: the defaults, overridden by the environment, with the problems.
unfoldable pub read_environment : Parsers → Dict String String → Config × List Problem
unfolding env_str env_csv env_read
read_environment p e =
    let port = env_read p.atoi e "APP_PORT" (pos 8080) in
    let conns = env_read p.atoi e "APP_DB_MAX_CONNS" (pos 25) in
    let read_timeout = env_read p.parse_duration e "APP_READ_TIMEOUT" (pos (10 * second)) in
    let signup = env_read p.parse_bool e "APP_ENABLE_SIGNUP" true in
    (
      record {
        env = env_str e "APP_ENV" "dev";
        log_level = env_str e "APP_LOG_LEVEL" "info";
        host = env_str e "APP_HOST" "127.0.0.1";
        port = port.0;
        read_timeout = read_timeout.0;
        write_timeout = pos (15 * second);
        shutdown_timeout = pos (20 * second);
        dsn = env_str e "APP_DB_DSN" "";
        max_open_conns = conns.0;
        enable_signup = signup.0;
        allowed_hosts = env_csv p.split e "APP_ALLOWED_HOSTS" ("localhost" ∷ []);
      },
      port.1 ++ (conns.1 ++ (read_timeout.1 ++ signup.1)),
    )

-- The third layer: the flags that are set.
unfoldable pub override : Flags → Config → Config
override f c = record c {
  env = elim f.env [ none ↦ c.env | some v ↦ v ];
  port = elim f.port [ none ↦ c.port | some v ↦ v ];
  log_level = elim f.log_level [ none ↦ c.log_level | some v ↦ v ];
}

-- `Load`.
unfoldable pub load : Parsers → Dict String String → Option Flags → Loaded
unfolding read_environment override validate
load p e flags = elim (read_environment p e).1 [
  | x ∷ xs ↦ rejected (read_environment p e).1
  | [] ↦ elim flags [
    | none ↦ rejected (bad_flags ∷ [])
    | some f ↦
        let c = override f (read_environment p e).0 in
        elim (validate c) [ [] ↦ accepted c | y ∷ ys ↦ rejected (validate c) ]
  ]
]
