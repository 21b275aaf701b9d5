-- ===== src/Config/Checks/Exact.antt =====
-- When a configuration is accepted: what each `Validate` asks for, without the texts.
use gamifykit.Prelude.{ℕ, ◌+◌, ◌≡◌, ◌≢◌, ◌↔◌, ◌⊎◌, refl, arith, true, List, [], ◌∷◌, none}
use gamifykit.Prelude.Int.{pos, ◌<ℤ◌}
use gamifykit.Prelude.Text.{Text, text}
use gamifykit.Core.UserName.{trim_space}
use gamifykit.Config.Types.{
  Config, ServerConfig, StorageConfig, LoggingConfig, MetricsConfig, SecurityConfig,
}
use gamifykit.Config.Checks.{
  joined, validate_server, validate_storage, validate_logging, validate_metrics, check_keys,
  validate_security, validate,
}

pub record ServerIsSound (s : ServerConfig) : Type 0 where
  pub has_address : s.address ≢ []
  pub read : pos 0 <ℤ s.read_timeout
  pub write : pos 0 <ℤ s.write_timeout
  pub idle : pos 0 <ℤ s.idle_timeout
  pub header : pos 0 <ℤ s.read_header_timeout
  pub shutdown : pos 0 <ℤ s.shutdown_timeout

abbrev pub KnownAdapter : Text → Type 0
KnownAdapter a = (a ≡ text "memory") ⊎ (a ≡ text "redis") ⊎ (a ≡ text "sql") ⊎ (a ≡ text "file")

pub record StorageIsSound (s : StorageConfig) : Type 0 where
  pub adapter_known : KnownAdapter s.adapter
  pub has_path : s.adapter ≡ text "file" → s.file.path ≢ []

pub record LoggingIsSound (l : LoggingConfig) : Type 0 where
  pub level_known :
      (l.level ≡ text "debug")
      ⊎ (l.level ≡ text "info")
      ⊎ (l.level ≡ text "warn")
      ⊎ (l.level ≡ text "error")
  pub format_known : (l.format ≡ text "json") ⊎ (l.format ≡ text "text")
  pub output_known : (l.output ≡ text "stdout") ⊎ (l.output ≡ text "stderr")

pub record MetricsIsSound (m : MetricsConfig) : Type 0 where
  pub has_address : m.enabled ≡ true → m.address ≢ []
  pub has_path : m.enabled ≡ true → m.path ≢ []

abbrev pub NotBlank : List Text → Type 0
NotBlank [] = Unit {0}
NotBlank (key ∷ keys) = (trim_space key ≢ []) × NotBlank keys

pub record SecurityIsSound (s : SecurityConfig) : Type 0 where
  pub rate : s.enable_rate_limit ≡ true → pos 0 <ℤ s.rate_limit.requests_per_minute
  pub burst : s.enable_rate_limit ≡ true → pos 0 <ℤ s.rate_limit.burst_size
  pub keys : NotBlank s.api_keys

pub record IsSound (c : Config) : Type 0 where
  pub has_environment : c.environment ≢ []
  pub server : ServerIsSound c.server
  pub storage : StorageIsSound c.storage
  pub logging : LoggingIsSound c.logging
  pub metrics : MetricsIsSound c.metrics
  pub security : SecurityIsSound c.security

validate_server_lem : (s : ServerConfig) → (validate_server s ≡ none) ↔ ServerIsSound s
unfolding validate_server joined
validate_server_lem s = (λ h. ground arith, λ h. ground arith)

validate_storage_lem : (s : StorageConfig) → (validate_storage s ≡ none) ↔ StorageIsSound s
unfolding validate_storage joined
validate_storage_lem s = (λ h. ground arith, λ h. ground arith)

validate_logging_lem : (l : LoggingConfig) → (validate_logging l ≡ none) ↔ LoggingIsSound l
unfolding validate_logging joined
validate_logging_lem l = (λ h. ground arith, λ h. ground arith)

validate_metrics_lem : (m : MetricsConfig) → (validate_metrics m ≡ none) ↔ MetricsIsSound m
unfolding validate_metrics joined
validate_metrics_lem m = (λ h. ground arith, λ h. ground arith)

check_keys-NotBlank : (i : ℕ) (keys : List Text) → (check_keys i keys ≡ []) ↔ NotBlank keys
unfolding check_keys
check_keys-NotBlank i [] = (λ h. tt, λ h. refl)
check_keys-NotBlank i (key ∷ keys) =
    let (to, from) = check_keys-NotBlank (i + 1) keys in
    (λ h. ground (arith, to), λ h. ground (arith, from))

validate_security_lem : (s : SecurityConfig) → (validate_security s ≡ none) ↔ SecurityIsSound s
unfolding validate_security joined
validate_security_lem s =
    let (to, from) = check_keys-NotBlank 0 s.api_keys in
    (λ h. ground (arith, to), λ h. ground (arith, from))

-- The parts of a configuration are sound exactly when none of them complains.
parts-IsSound :
    (c : Config)
    → (c.environment ≢ [])
    → validate_server c.server ≡ none
    → validate_storage c.storage ≡ none
    → validate_logging c.logging ≡ none
    → validate_metrics c.metrics ≡ none
    → validate_security c.security ≡ none
    → IsSound c
parts-IsSound c e s t l m k = record {
  has_environment = e;
  server = (validate_server_lem c.server).0 s;
  storage = (validate_storage_lem c.storage).0 t;
  logging = (validate_logging_lem c.logging).0 l;
  metrics = (validate_metrics_lem c.metrics).0 m;
  security = (validate_security_lem c.security).0 k;
}

quiet_parts :
    (c : Config)
    → validate c ≡ none
    → (c.environment ≢ [])
      × (validate_server c.server ≡ none)
      × (validate_storage c.storage ≡ none)
      × (validate_logging c.logging ≡ none)
      × (validate_metrics c.metrics ≡ none)
      × (validate_security c.security ≡ none)
unfolding validate joined
quiet_parts c h = ground arith

quiet_of_parts :
    (c : Config)
    → (c.environment ≢ [])
    → validate_server c.server ≡ none
    → validate_storage c.storage ≡ none
    → validate_logging c.logging ≡ none
    → validate_metrics c.metrics ≡ none
    → validate_security c.security ≡ none
    → validate c ≡ none
unfolding validate joined
quiet_of_parts c e s t l m k = ground arith

-- A configuration is accepted exactly when it is sound: an environment and an address; positive
-- timeouts; a known adapter, and for the file adapter a path; a known log level, format and
-- output; address and path for enabled metrics; a positive rate and burst for an enabled limit;
-- no blank API key.
pub validate-IsSound : (c : Config) → (validate c ≡ none) ↔ IsSound c
validate-IsSound c = (
  λ h. let (e, s, t, l, m, k) = quiet_parts c h in parts-IsSound c e s t l m k,
  λ h.
      quiet_of_parts c h.has_environment ((validate_server_lem c.server).1 h.server)
        ((validate_storage_lem c.storage).1 h.storage)
        ((validate_logging_lem c.logging).1 h.logging)
        ((validate_metrics_lem c.metrics).1 h.metrics)
        ((validate_security_lem c.security).1 h.security),
)
