-- ===== src/Config/Secrets.antt =====
-- config/secrets.go, over a secret store that finds the value of a key or not, and the redaction
-- of `String` in config/config.go.
use gamifykit.Prelude.{
  ◌≡◌, ◌≢◌, ◌↔◌, refl, arith, ◌&&◌, [], ◌∷◌, Option, none, some, Result, ok, err, if◌then◌else◌,
}
use gamifykit.Prelude.Text.{Text, text}
use gamifykit.Config.Types.{Config, env_production}
use gamifykit.Config.Checks.{same, is_empty}

-- `SecretStore.Get`: `none` is its error.
abbrev pub SecretStore : Type 0
SecretStore = Text → Option Text

-- `EnvironmentSecretStore` on the environment of the process.
unfoldable pub environment_secret_store : (Text → Text) → SecretStore
environment_secret_store getenv key = if is_empty (getenv key) then none else some (getenv key)

abbrev pub dsn_key : Text
dsn_key = text "GAMIFYKIT_DATABASE_DSN"

abbrev pub password_key : Text
password_key = text "GAMIFYKIT_REDIS_PASSWORD"

-- `GetWithDefault`
unfoldable pub get_with_default : (Text → Text) → Text → Text → Text
get_with_default getenv key default_value =
    if is_empty (getenv key) then default_value else getenv key

pub data SecretError : Type 0 where
  dsn_required : SecretError

abbrev pub with_dsn : Text → Config → Config
with_dsn dsn c = record c {
  storage = record c.storage { sql = record c.storage.sql { dsn = dsn } };
}

abbrev pub with_password : Text → Config → Config
with_password password c = record c {
  storage = record c.storage { redis = record c.storage.redis { password = password } };
}

-- The first step of `LoadSecrets`.
abbrev load_dsn : SecretStore → Config → Result SecretError Config
load_dsn store c =
    if same c.storage.adapter (text "sql")
    then (elim (store dsn_key) [
      | some dsn ↦ ok (with_dsn dsn c)
      | none ↦ if same c.environment env_production then err dsn_required else ok c
    ])
    else ok c

abbrev load_password : SecretStore → Config → Config
load_password store c =
    if same c.storage.adapter (text "redis")
    then (elim (store password_key) [ some password ↦ with_password password c | none ↦ c ])
    else c

unfoldable pub load_secrets : SecretStore → Config → Result SecretError Config
load_secrets store c = elim (load_dsn store c) [
  | err e ↦ err e
  | ok c' ↦ ok (load_password store c')
]

unfoldable pub validate_secrets : SecretStore → Config → Option SecretError
validate_secrets store c =
    if same c.storage.adapter (text "sql") && same c.environment env_production
    then (elim (store dsn_key) [ some _ ↦ none | none ↦ some dsn_required ])
    else none

abbrev pub redacted_text : Text
redacted_text = text "[REDACTED]"

abbrev redact : Text → Text
redact s = if is_empty s then s else redacted_text

-- `RedactSecrets`, and the copy that `String` prints.
unfoldable pub redact_secrets : Config → Config
redact_secrets c =
    with_password (redact c.storage.redis.password) (with_dsn (redact c.storage.sql.dsn) c)

load_password_keeps :
    (store : SecretStore) (c : Config)
    → (with_password [] (load_password store c) ≡ with_password [] c)
      × ((load_password store c).storage.sql ≡ c.storage.sql)
load_password_keeps store c = ground arith

-- `ValidateSecrets` refuses exactly the configurations that `LoadSecrets` fails on. Where it
-- loads, only the DSN and the password can change, and in production the sql adapter gets the DSN
-- of the store, never the default one.
pub load_secrets_lem :
    (store : SecretStore) (c : Config)
    → ((validate_secrets store c ≡ none) ↔ (load_secrets store c ≢ err dsn_required))
      × ((c' : Config)
          → load_secrets store c ≡ ok c'
          → (with_password [] (with_dsn [] c') ≡ with_password [] (with_dsn [] c))
            × (c.storage.adapter ≡ text "sql"
                → c.environment ≡ env_production
                → store dsn_key ≡ some c'.storage.sql.dsn))
unfolding validate_secrets load_secrets
load_secrets_lem store c = (
  (λ h. ground arith, λ h. ground arith),
  λ c' h.
      (ground (arith, load_password_keeps store), λ p q. ground (arith, load_password_keeps store)),
)

redact_cong : (s t : Text) → is_empty s ≡ is_empty t → redact s ≡ redact t
unfolding is_empty
redact_cong [] [] h = refl
redact_cong [] (_ ∷ _) h = ground arith
redact_cong (_ ∷ _) [] h = ground arith
redact_cong (_ ∷ _) (_ ∷ _) h = refl

-- Redaction hides the two secrets that it knows of: what the result tells of the DSN and of the
-- password is whether they are set. It hides nothing else: the API keys stay readable.
pub redact_secrets_lem :
    (c : Config) (dsn dsn' password password' : Text)
    → is_empty dsn ≡ is_empty dsn'
    → is_empty password ≡ is_empty password'
    → (redact_secrets (with_password password (with_dsn dsn c))
        ≡ redact_secrets (with_password password' (with_dsn dsn' c)))
      × ((redact_secrets c).security.api_keys ≡ c.security.api_keys)
unfolding redact_secrets
redact_secrets_lem c dsn dsn' password password' p q =
    (rw (redact_cong dsn dsn' p, redact_cong password password' q), refl)
