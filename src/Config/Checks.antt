-- ===== src/Config/Checks.antt =====
-- The methods `Validate` of config/validation.go and config/config.go. A method collects the
-- texts of its complaints and joins them to one error; `none` is the nil error.
pub mod Exact
use gamifykit.Prelude.{
  ℕ, zero, suc, ◌+◌, ◌/◌, ◌%◌, Bool, true, false, ◌||◌, List, [], ◌∷◌, ◌++◌, Option, none, some,
  ltb, if◌then◌else◌, ite,
}
use gamifykit.Prelude.Int.{ℤ, pos, leb_ℤ}
use gamifykit.Prelude.Text.{Text, text, Text-discrete}
use gamifykit.Core.UserName.{trim_space}
use gamifykit.Config.Types.{
  Config, ServerConfig, StorageConfig, FileConfig, LoggingConfig, MetricsConfig, SecurityConfig,
}

abbrev pub complain : Bool → Text → List Text
complain b message = if b then message ∷ [] else []

abbrev pub is_empty : Text → Bool
is_empty [] = true
is_empty (c ∷ s) = false

-- `strings.Join`
unfoldable pub join : Text → List Text → Text
join sep [] = []
join sep (s ∷ []) = s
join sep (s ∷ t ∷ rest) = s ++ sep ++ join sep (t ∷ rest)

-- `if len(errs) > 0 { return errors.New(strings.Join(errs, "; ")) }; return nil`
unfoldable pub joined : List Text → Option Text
joined [] = none
joined (e ∷ errs) = some (join (text "; ") (e ∷ errs))

-- The complaint about a part, with its name in front: `fmt.Sprintf("server config: %v", err)`.
abbrev pub under : Text → Option Text → List Text
under name none = []
under name (some message) = (name ++ message) ∷ []

abbrev pub same : Text → Text → Bool
same s t = ite (Text-discrete s t) true false

unfoldable pub one_of : Text → List Text → Bool
one_of s [] = false
one_of s (t ∷ rest) = same s t || one_of s rest

unfoldable pub validate_server : ServerConfig → Option Text
validate_server s = joined (
    complain (is_empty s.address) (text "address cannot be empty")
    ++ (complain (leb_ℤ s.read_timeout (pos 0)) (text "read_timeout must be positive")
        ++ (complain (leb_ℤ s.write_timeout (pos 0)) (text "write_timeout must be positive")
            ++ (complain (leb_ℤ s.idle_timeout (pos 0)) (text "idle_timeout must be positive")
                ++ (complain (leb_ℤ s.read_header_timeout (pos 0))
                      (text "read_header_timeout must be positive")
                    ++ complain (leb_ℤ s.shutdown_timeout (pos 0))
                        (text "shutdown_timeout must be positive"))))))

unfoldable pub validate_file : FileConfig → Option Text
validate_file f = if is_empty f.path then some (text "path cannot be empty") else none

abbrev pub valid_adapters : List Text
valid_adapters = text "memory" ∷ text "redis" ∷ text "sql" ∷ text "file" ∷ []

abbrev must_be_one_of : Text → Text → List Text → List Text
must_be_one_of field value choices =
    if one_of value choices
    then []
    else (field ++ text " must be one of: " ++ join (text ", ") choices) ∷ []

unfoldable pub validate_storage : StorageConfig → Option Text
unfolding one_of validate_file join
validate_storage s = joined (
    must_be_one_of (text "adapter") s.adapter valid_adapters
    ++ (if same s.adapter (text "file")
        then under (text "file config: ") (validate_file s.file)
        else []))

abbrev pub valid_levels : List Text
valid_levels = text "debug" ∷ text "info" ∷ text "warn" ∷ text "error" ∷ []

abbrev pub valid_formats : List Text
valid_formats = text "json" ∷ text "text" ∷ []

abbrev pub valid_outputs : List Text
valid_outputs = text "stdout" ∷ text "stderr" ∷ []

unfoldable pub validate_logging : LoggingConfig → Option Text
unfolding one_of join
validate_logging l = joined (
    must_be_one_of (text "level") l.level valid_levels
    ++ (must_be_one_of (text "format") l.format valid_formats
        ++ must_be_one_of (text "output") l.output valid_outputs))

unfoldable pub validate_metrics : MetricsConfig → Option Text
validate_metrics m = joined (
    if m.enabled
    then complain (is_empty m.address) (text "address cannot be empty when metrics are enabled")
      ++ complain (is_empty m.path) (text "path cannot be empty when metrics are enabled")
    else [])

-- `%d`; `n` rounds are enough for the digits of `n`.
unfoldable pub decimal_on : ℕ → ℕ → Text
decimal_on zero n = (48 + n % 10) ∷ []
decimal_on (suc f) n =
    let front = decimal_on f (n / 10) in
    if ltb n 10 then (48 + n) ∷ [] else front ++ (48 + n % 10) ∷ []

-- The loop over the API keys, from the key with index `i`.
unfoldable pub check_keys : ℕ → List Text → List Text
check_keys i [] = []
check_keys i (key ∷ keys) =
    complain (is_empty (trim_space key)) (text "api_keys[" ++ decimal_on i i ++ text "] is empty")
    ++ check_keys (i + 1) keys

unfoldable pub validate_security : SecurityConfig → Option Text
unfolding check_keys
validate_security s = joined (
    (if s.enable_rate_limit
      then complain (leb_ℤ s.rate_limit.requests_per_minute (pos 0))
          (text "rate_limit.requests_per_minute must be > 0 when rate limiting is enabled")
        ++ complain (leb_ℤ s.rate_limit.burst_size (pos 0))
            (text "rate_limit.burst_size must be > 0 when rate limiting is enabled")
      else [])
    ++ check_keys 0 s.api_keys)

unfoldable pub validate : Config → Option Text
validate c = joined (
    complain (is_empty c.environment) (text "environment cannot be empty")
    ++ (under (text "server config: ") (validate_server c.server)
        ++ (under (text "storage config: ") (validate_storage c.storage)
            ++ (under (text "logging config: ") (validate_logging c.logging)
                ++ (under (text "metrics config: ") (validate_metrics c.metrics)
                    ++ under (text "security config: ") (validate_security c.security))))))
