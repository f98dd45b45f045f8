-- ===== src/Settings/Tests.antt =====
-- Configurations that 41_config_and_env loads, and the theorems at concrete inputs.
use go_basics.Common.{◌≡◌, refl, true, none, some, String, [], ◌∷◌, All, str_eq, if◌then◌else◌}
use go_basics.Common.Int.{pos}
use go_basics.Common.Dict.{Dict, lookup, string_comparable}
use go_basics.Settings.{
  Config, Parsers, Flags, accepted, load, read_environment, override, shown, validate, one_of,
}
use go_basics.Settings.Accepted.{IsSound, IsHost, load-IsSound}

abbrev parsers : Parsers
parsers = record {
  atoi = λ s. if str_eq s "9090" then some (pos 9090) else none;
  parse_bool = λ s. if str_eq s "true" then some true else none;
  parse_duration = λ s. none;
  split = λ s. s ∷ [];
}

abbrev flags : Flags
flags = record { env = some "staging"; port = none; log_level = none }

abbrev environment : Dict String String
environment = ("APP_PORT", "9090") ∷ ("APP_ENV", "prod") ∷ []

abbrev staging_config : Config
staging_config = override flags (read_environment parsers environment).0

secrets_masked : shown "postgres://ann:pw@db" ≡ "[REDACTED]"
unfolding shown
secrets_masked = refl

staging_config-accepted : load parsers environment (some flags) ≡ accepted staging_config
unfolding load validate one_of lookup
staging_config-accepted = refl

load-IsSound_example :
    IsSound staging_config
    × All IsHost staging_config.allowed_hosts
    × ((f : Flags) × (some flags ≡ some f)
        × (staging_config ≡ override f (read_environment parsers environment).0)
        × ((read_environment parsers environment).1 ≡ []))
load-IsSound_example =
    load-IsSound parsers environment (some flags) staging_config staging_config-accepted

abbrev misspelt : Dict String String
misspelt = ("APP_PORT", "8O80") ∷ ("APP_READ_TIMEOUT", "30") ∷ []
