-- ===== src/Llm/Config.antt =====
-- crates/avix-core/src/config/llm.rs: the configuration of the providers of language models. The parser of
-- YAML is a parameter, and fills in the defaults of serde, which are listed at the end.
pub mod Routes
use avix.Base.{
  ℕ, String, string_eq, Bool, true, not, if◌then◌else◌, ◌==◌, ◌+++◌, List, [], ◌∷◌, contains,
  Option, none, some,
}
use avix.Errors.{AvixError, config_parse, Result, ok, err, ok_or, map_err, ◌>>=◌}
use avix.Llm.Routing.{
  Modality, text, image, speech, transcription, embedding, modality_eq, modality_str,
  ProviderConfig, DefaultProviders,
}

pub record ModelConfig : Type 0 where
  pub id : String
  pub modality : Modality
  pub context_window : Option ℕ
  pub tier : String
  pub dimensions : Option ℕ

pub record ProviderLimits : Type 0 where
  pub requests_per_minute : ℕ
  pub tokens_per_minute : ℕ

pub record ProviderTimeout : Type 0 where
  pub connect_ms : ℕ
  pub read_ms : ℕ

pub record RetryPolicy : Type 0 where
  pub max_attempts : ℕ
  pub backoff_ms : ℕ
  pub retry_on : List ℕ

pub record HealthCheckConfig : Type 0 where
  pub enabled : Bool
  pub interval_sec : ℕ
  pub endpoint : String

pub data ProviderAuth : Type 0 where
  api_key : (secret_name header : String) (prefix : Option String) → ProviderAuth
  oauth2 :
      (secret_name token_url client_id client_secret_name : String) (scopes : List String)
      (refresh_before_expiry_min : ℕ)
      → ProviderAuth
  no_auth : ProviderAuth

-- The fields of a provider that routing does not read
pub record ProviderDetails : Type 0 where
  pub base_url : String
  pub auth : ProviderAuth
  pub models : List ModelConfig
  pub limits : Option ProviderLimits
  pub timeout : Option ProviderTimeout
  pub retry_policy : Option RetryPolicy
  pub health_check : Option HealthCheckConfig

abbrev pub Provider : Type 0
Provider = ProviderConfig ProviderDetails

pub record LlmSpec : Type 0 where
  pub default_providers : DefaultProviders
  pub providers : List Provider

pub record LlmConfig : Type 0 where
  pub api_version : String
  pub kind : String
  pub spec : LlmSpec

unfoldable pub find_provider : String → List Provider → Option Provider
find_provider name [] = none
find_provider name (p ∷ ps) =
    let rest = find_provider name ps in if p.name == name then some p else rest

abbrev pub check_supports : Modality → String → Provider → Result AvixError (Unit {0})
check_supports modality name provider =
    if not (contains provider.modalities modality)
    then err (
        config_parse (
          "defaultProvider for "
          +++ modality_str modality
          +++ " is '"
          +++ name
          +++ "' but that provider does not support that modality"))
    else ok tt

unfoldable pub check_default : Modality → String → List Provider → Result AvixError (Unit {0})
unfolding find_provider
check_default modality name providers =
    ok_or (find_provider name providers) (
      config_parse (
        "defaultProvider for "
        +++ modality_str modality
        +++ ": '"
        +++ name
        +++ "' not found in providers list"))
    >>= check_supports modality name

unfoldable pub validate_llm_config : LlmConfig → Result AvixError (Unit {0})
unfolding check_default
validate_llm_config cfg =
    let dp = cfg.spec.default_providers in
    let ps = cfg.spec.providers in
    do
      _ ← check_default text dp.text_name ps
      _ ← check_default image dp.image_name ps
      _ ← check_default speech dp.speech_name ps
      _ ← check_default transcription dp.transcription_name ps
      _ ← check_default embedding dp.embedding_name ps
      ok tt

unfoldable pub parse_llm_config :
    (String → Result String LlmConfig) → String → Result AvixError LlmConfig
unfolding validate_llm_config
parse_llm_config from_yaml s = do
  cfg ← map_err config_parse (from_yaml s)
  _ ← validate_llm_config cfg
  ok cfg

abbrev pub default_name : Modality → DefaultProviders → String
default_name text dp = dp.text_name
default_name image dp = dp.image_name
default_name speech dp = dp.speech_name
default_name transcription dp = dp.transcription_name
default_name embedding dp = dp.embedding_name

unfoldable pub default_provider_for : Modality → LlmConfig → Option Provider
unfolding find_provider
default_provider_for modality cfg =
    find_provider (default_name modality cfg.spec.default_providers) cfg.spec.providers

-- What serde fills in
abbrev pub default_connect_ms : ℕ
default_connect_ms = 3000

abbrev pub default_read_ms : ℕ
default_read_ms = 120000

abbrev pub default_max_attempts : ℕ
default_max_attempts = 3

abbrev pub default_true : Bool
default_true = true

abbrev pub default_interval : ℕ
default_interval = 60
