-- ===== src/Capstone/Config.antt =====
-- 47_capstone/internal/config/config.go. The parsers of numbers and durations and of the command line
-- are libraries: the flags are what parsing gives, if it gives something. Durations are nanoseconds.
pub mod Accepted
use go_basics.Common.{
  ℕ, ◌*◌, Bool, true, false, not, ◌||◌, ◌&&◌, String, Option, none, some, List, [], ◌∷◌, str_eq,
  if◌then◌else◌,
}
use go_basics.Common.Int.{ℤ, pos, ltb_ℤ}
use go_basics.Common.Dict.{Dict, string_comparable, lookup}

-- `Config`.
pub record Config : Type 0 where
  pub env : String
  pub log_level : String
  pub addr : String
  pub read_timeout : ℤ
  pub write_timeout : ℤ
  pub idle_timeout : ℤ
  pub shutdown_timeout : ℤ
  pub request_timeout : ℤ
  pub db_path : String
  pub max_open_conns : ℤ
  pub api_key : String

abbrev second : ℕ
second = 1000000000

-- The parsers that the helpers use.
pub record Parsers : Type 0 where
  pub atoi : String → Option ℤ
  pub parse_duration : String → Option ℤ

-- The flags that are set.
pub record Flags : Type 0 where
  pub env : Option String
  pub addr : Option String
  pub log_level : Option String
  pub db : Option String

-- `oneOf`.
unfoldable pub one_of : String → List String → Bool
one_of v [] = false
one_of v (a ∷ as') = let rest = one_of v as' in str_eq v a || rest

-- `SlogLevel`: whether there is no error.
unfoldable pub is_level : String → Bool
is_level l = str_eq l "debug" || str_eq l "info" || str_eq l "warn" || str_eq l "error"

-- `Validate`: whether there is no error.
unfoldable pub validate : Config → Bool
validate c =
    one_of c.env ("dev" ∷ "staging" ∷ "prod" ∷ [])
    && is_level c.log_level
    && not (str_eq c.addr "")
    && not (str_eq c.db_path "")
    && not (ltb_ℤ c.max_open_conns (pos 1))
    && not (str_eq c.env "prod" && str_eq c.api_key "dev-key")

-- `envStr`.
unfoldable pub env_str : Dict String String → String → String → String
env_str e key default = elim (lookup key e) [
  | none ↦ default
  | some v ↦ if str_eq v "" then default else v
]

-- `envInt` and `envDur`, with the parser.
unfoldable pub env_read : (String → Option ℤ) → Dict String String → String → ℤ → Option ℤ
env_read read e key default = elim (lookup key e) [
  | none ↦ some default
  | some v ↦ if str_eq v "" then some default else read v
]

-- What `Load` has after the flags, from the three values that it reads.
unfoldable pub configured : Dict String String → Flags → ℤ → ℤ → ℤ → Config
configured e f conns request shutdown = record {
  env = elim f.env [ none ↦ env_str e "APP_ENV" "dev" | some v ↦ v ];
  log_level = elim f.log_level [ none ↦ env_str e "APP_LOG_LEVEL" "info" | some v ↦ v ];
  addr = elim f.addr [ none ↦ env_str e "APP_ADDR" "127.0.0.1:8080" | some v ↦ v ];
  read_timeout = pos (10 * second);
  write_timeout = pos (15 * second);
  idle_timeout = pos (60 * second);
  shutdown_timeout = shutdown;
  request_timeout = request;
  db_path = elim f.db [ none ↦ env_str e "APP_DB_PATH" "tasks.db" | some v ↦ v ];
  max_open_conns = conns;
  api_key = env_str e "APP_API_KEY" "dev-key";
}

-- `Load`.
unfoldable pub load : Parsers → Dict String String → Option Flags → Option Config
load p e flags = elim (env_read p.atoi e "APP_DB_MAX_CONNS" (pos 10)) [
  | none ↦ none
  | some conns ↦ elim (env_read p.parse_duration e "APP_REQUEST_TIMEOUT" (pos (5 * second))) [
    | none ↦ none
    | some request ↦ elim (env_read p.parse_duration e "APP_SHUTDOWN_TIMEOUT" (pos (15 * second))) [
      | none ↦ none
      | some shutdown ↦ elim flags [
        | none ↦ none
        | some f ↦
            let c = configured e f conns request shutdown in if validate c then some c else none
      ]
    ]
  ]
]
