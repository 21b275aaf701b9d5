-- ===== src/Tests/ConfigTests.antt =====
-- The theorems on config/ at concrete inputs.
use gamifykit.Prelude.{◌≡◌, ◌≢◌, ◌↔◌, refl, none, some, [], Option, ok, err}
use gamifykit.Prelude.Text.{Text, text}
use gamifykit.Config.Types.{Config, default_config, env_production}
use gamifykit.Config.Checks.{validate}
use gamifykit.Config.Checks.Exact.{IsSound, validate-IsSound}
use gamifykit.Config.Profiles.{load_profile, load_profile-validate, profile_testing}
use gamifykit.Config.Secrets.{
  SecretStore, load_secrets, validate_secrets, load_secrets_lem, with_dsn, with_password, dsn_key,
  dsn_required,
}

validate-IsSound_example : (validate default_config ≡ none) ↔ IsSound default_config
validate-IsSound_example = validate-IsSound default_config

abbrev no_variables : Text → Text
no_variables name = []

load_profile-validate_example : validate profile_testing ≡ none
unfolding load_profile gamifykit.Prelude.Text.Text-discrete
load_profile-validate_example =
    load_profile-validate no_variables (text "testing") profile_testing refl

abbrev one_secret : SecretStore
one_secret name = some (text "postgres://db")

abbrev sql_config : Config
sql_config = record default_config {
  environment = env_production;
  storage = record default_config.storage { adapter = text "sql" };
}

abbrev with_secret : Config
with_secret = with_dsn (text "postgres://db") sql_config

load_secrets_lem_example :
    ((validate_secrets one_secret sql_config ≡ none)
      ↔ (load_secrets one_secret sql_config ≢ err dsn_required))
    × ((c' : Config)
        → load_secrets one_secret sql_config ≡ ok c'
        → (with_password [] (with_dsn [] c') ≡ with_password [] (with_dsn [] sql_config))
          × (sql_config.storage.adapter ≡ text "sql"
              → sql_config.environment ≡ env_production
              → one_secret dsn_key ≡ some c'.storage.sql.dsn))
load_secrets_lem_example = load_secrets_lem one_secret sql_config
