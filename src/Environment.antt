-- ===== src/Environment.antt =====
-- The functions getEnvString, getEnvInt and getEnvDuration of benchmark/main.go, of which
-- bootstrap/main.go declares the last two as well. `env` is os.Getenv, which gives "" for a
-- variable that is not set.
use scalability_engineering.Prelude.{none, some, String, str_eq, if◌then◌else◌, ℤ}
use scalability_engineering.Handlers.{Parsers}

module _ (env : String → String) where
  unfoldable pub get_env_string : String → String → String
  get_env_string key default_value = if str_eq (env key) "" then default_value else env key

  module _ (P : Parsers) where
    unfoldable pub get_env_int : String → ℤ → ℤ
    get_env_int key default_value =
        if str_eq (env key) ""
        then default_value
        else elim (P.atoi (env key)) [ none ↦ default_value | some n ↦ n ]

    unfoldable pub get_env_duration : String → ℤ → ℤ
    get_env_duration key default_value =
        if str_eq (env key) ""
        then default_value
        else elim (P.parse_duration (env key)) [ none ↦ default_value | some d ↦ d ]
