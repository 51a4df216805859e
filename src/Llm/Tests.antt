-- ===== src/Llm/Tests.antt =====
-- Tests and witnesses of routing.
use avix.Base.{ℕ, ◌+◌, String, ◌≡◌, refl, List, [], ◌∷◌, none, some, string_eq}
use avix.Base.Dict.{get, insert}
use avix.Errors.{config_parse, ok, err}
use avix.Llm.Routing.{
  text, image, speech, transcription, embedding, ProviderConfig, RoutingEngine, from_config,
  with_text_fallback, update_status, unavailable, resolve_provider, add_providers, choose,
  pick_name, try_fallback, is_provider_down, modality_str,
}
use avix.Llm.Config.{
  ProviderDetails, Provider, LlmConfig, no_auth, find_provider, check_default, validate_llm_config,
  default_provider_for,
}
use avix.Llm.Config.Routes.{resolve_provider-from_config}
use avix.Llm.Usage.{Seconds, or_default, UsageEvent, text_used, text_failed, image_used}
use avix.Llm.Usage.Totals.{wrap, usage_after, text_total, text_total-usage_after}

abbrev talker : ProviderConfig String
talker = record { name = "talker"; modalities = text ∷ []; rest = "" }

abbrev painter : ProviderConfig String
painter = record { name = "painter"; modalities = image ∷ []; rest = "" }

-- The provider of texts is down, and the fallback is one that only makes images.
abbrev engine : RoutingEngine String
engine = update_status "talker" (unavailable "down") (
    with_text_fallback "painter" (
      from_config
        (record {
          text_name = "talker";
          image_name = "painter";
          speech_name = "talker";
          transcription_name = "talker";
          embedding_name = "talker";
        })
        (talker ∷ painter ∷ [])))

gives_painter : resolve_provider text none engine ≡ ok painter
unfolding resolve_provider update_status with_text_fallback from_config add_providers choose
    pick_name try_fallback is_provider_down modality_str get insert
gives_painter = refl

abbrev details : ProviderDetails
details = record {
  base_url = "https://example.org";
  auth = no_auth;
  models = [];
  limits = none;
  timeout = none;
  retry_policy = none;
  health_check = none;
}

abbrev for_all : Provider
for_all = record {
  name = "all";
  modalities = text ∷ image ∷ speech ∷ transcription ∷ embedding ∷ [];
  rest = details;
}

abbrev config_of : List Provider → LlmConfig
config_of ps = record {
  api_version = "avix/v1";
  kind = "LlmConfig";
  spec = record {
    default_providers = record {
      text_name = "all";
      image_name = "all";
      speech_name = "all";
      transcription_name = "all";
      embedding_name = "all";
    };
    providers = ps;
  };
}

is_valid : validate_llm_config (config_of (for_all ∷ [])) ≡ ok tt
unfolding validate_llm_config check_default find_provider
is_valid = refl

resolve_provider-from_config_example :
    let cfg = config_of (for_all ∷ []) in
    (p : Provider) × (default_provider_for speech cfg ≡ some p)
    × (resolve_provider speech none (from_config cfg.spec.default_providers cfg.spec.providers)
        ≡ ok p)
unfolding find_provider
resolve_provider-from_config_example =
    resolve_provider-from_config (config_of (for_all ∷ [])) speech is_valid (refl, tt)

-- The check looks at the first provider of a name, and routing at the last.
abbrev no_speech : Provider
no_speech = record for_all { modalities = text ∷ [] }

twins_are_valid : validate_llm_config (config_of (for_all ∷ no_speech ∷ [])) ≡ ok tt
unfolding validate_llm_config check_default find_provider
twins_are_valid = refl

twins_do_not_speak :
    let cfg = config_of (for_all ∷ no_speech ∷ []) in
    resolve_provider speech none (from_config cfg.spec.default_providers cfg.spec.providers)
    ≡ err (config_parse "provider 'all' does not support modality 'speech'")
unfolding resolve_provider from_config add_providers choose pick_name modality_str get insert
twins_do_not_speak = refl

-- Seconds as whole numbers
abbrev seconds : Seconds
seconds = record { Float = ℕ; zero = 0; add = λ a b. a + b }

abbrev spent : List (String × UsageEvent seconds)
spent =
    ("talker", text_used 100 50)
    ∷ ("painter", image_used)
    ∷ ("talker", text_failed)
    ∷ ("talker", text_used 18_446_744_073_709_551_615 7)
    ∷ []

text_total-usage_after_example :
    (or_default seconds (get "talker" (usage_after seconds spent))).text
    ≡ wrap (text_total seconds "talker" spent)
text_total-usage_after_example = text_total-usage_after seconds "talker" spent
