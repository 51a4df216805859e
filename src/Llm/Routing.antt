-- ===== src/Llm/Routing.antt =====
-- crates/avix-core/src/llm_svc/routing.rs, with Modality of types/modality.rs and the configuration of
-- config/llm.rs. Of a provider's configuration routing reads the name and the modalities; the rest, as
-- it stands there, is `rest`.
pub mod Choice
use avix.Base.{
  String, Bool, true, false, not, ◌&&◌, if◌then◌else◌, ◌==◌, Keyed, string_eq, List, [], ◌∷◌,
  contains, Option, none, some, ◌+++◌, ◌≡◌, ◌↔◌, arith, refl,
}
use avix.Base.Dict.{Dict, get, insert}
use avix.Errors.{AvixError, config_parse, no_provider_available, Result, ok, err, ok_or, ◌>>=◌}

pub data Modality : Type 0 where
  text image speech transcription embedding : Modality

unfoldable pub modality_str : Modality → String
modality_str text = "text"
modality_str image = "image"
modality_str speech = "speech"
modality_str transcription = "transcription"
modality_str embedding = "embedding"

abbrev pub parse_modality : String → Result AvixError Modality
parse_modality s =
    if s == "text"
    then ok text
    else if s == "image"
    then ok image
    else if s == "speech"
    then ok speech
    else if s == "transcription"
    then ok transcription
    else if s == "embedding"
    then ok embedding
    else err (config_parse ("unknown modality: " +++ s))

abbrev pub same_modality : Modality → Modality → Bool
same_modality text text = true
same_modality image image = true
same_modality speech speech = true
same_modality transcription transcription = true
same_modality embedding embedding = true
same_modality _ _ = false

pub same_modality_iff : (m n : Modality) → (same_modality m n ≡ true) ↔ (m ≡ n)
same_modality_iff m n = ground arith

instance abbrev pub modality_eq : Keyed Modality
modality_eq = record { equal = same_modality; equal_iff = same_modality_iff }

pub data ProviderStatus : Type 0 where
  available : ProviderStatus
  degraded unavailable : String → ProviderStatus

pub record ProviderConfig (Rest : Type 0) : Type 0 where
  pub name : String
  pub modalities : List Modality
  pub rest : Rest

pub record DefaultProviders : Type 0 where
  pub text_name : String
  pub image_name : String
  pub speech_name : String
  pub transcription_name : String
  pub embedding_name : String

pub record RoutingEngine (Rest : Type 0) : Type 0 where
  pub defaults : Dict String String
  pub providers : Dict String (ProviderConfig Rest)
  pub status : Dict String ProviderStatus
  pub fallback_text : Option String

abbrev pub default_names : DefaultProviders → Dict String String
default_names names =
    ("text", names.text_name)
    ∷ ("image", names.image_name)
    ∷ ("speech", names.speech_name)
    ∷ ("transcription", names.transcription_name)
    ∷ ("embedding", names.embedding_name)
    ∷ []

abbrev pub is_down : Option ProviderStatus → Bool
is_down none = false
is_down (some available) = false
is_down (some (degraded reason)) = false
is_down (some (unavailable reason)) = true

module _ {Rest : Type 0} where
  -- `collect` into a map: a later provider of the same name replaces an earlier one.
  unfoldable pub add_providers :
      List (ProviderConfig Rest) → RoutingEngine Rest → RoutingEngine Rest
  add_providers [] engine = engine
  add_providers (p ∷ ps) engine = add_providers ps (record engine {
    providers = insert p.name p engine.providers;
    status = insert p.name available engine.status;
  })

  unfoldable pub from_config : DefaultProviders → List (ProviderConfig Rest) → RoutingEngine Rest
  unfolding add_providers
  from_config names ps =
      add_providers ps (record {
        defaults = default_names names;
        providers = [];
        status = [];
        fallback_text = none;
      })

  unfoldable pub with_text_fallback : String → RoutingEngine Rest → RoutingEngine Rest
  with_text_fallback fallback engine = record engine { fallback_text = some fallback }

  unfoldable pub update_status : String → ProviderStatus → RoutingEngine Rest → RoutingEngine Rest
  update_status provider status engine = record engine {
    status = insert provider status engine.status;
  }

  unfoldable pub is_provider_down : String → RoutingEngine Rest → Bool
  is_provider_down name engine = is_down (get name engine.status)

  unfoldable pub pick_name : Modality → Option String → RoutingEngine Rest → Result AvixError String
  pick_name modality (some n) engine = ok n
  pick_name modality none engine =
      ok_or (get (modality_str modality) engine.defaults)
        (no_provider_available (modality_str modality))

  abbrev pub gone : String → Result AvixError (ProviderConfig Rest)
  gone name = err (no_provider_available (name +++ ": provider is unavailable"))

  unfoldable pub try_fallback :
      Modality → String → RoutingEngine Rest → Result AvixError (ProviderConfig Rest)
  try_fallback modality name engine =
      if not (modality == text) then gone name else elim engine.fallback_text [
        | none ↦ gone name
        | some fb ↦ elim (get fb engine.providers) [
          | none ↦ gone name
          | some provider ↦ if is_provider_down fb engine then gone name else ok provider
        ]
      ]

  unfoldable pub choose :
      Modality
      → String
      → ProviderConfig Rest
      → RoutingEngine Rest
      → Result AvixError (ProviderConfig Rest)
  unfolding try_fallback
  choose modality name provider engine =
      if not (contains provider.modalities modality)
      then err (
          config_parse (
            "provider '"
            +++ name
            +++ "' does not support modality '"
            +++ modality_str modality
            +++ "'"))
      else if is_provider_down name engine
      then try_fallback modality name engine
      else ok provider

  unfoldable pub resolve_provider :
      Modality → Option String → RoutingEngine Rest → Result AvixError (ProviderConfig Rest)
  unfolding pick_name choose
  resolve_provider modality explicit engine = do
    name ← pick_name modality explicit engine
    provider ← ok_or (get name engine.providers) (config_parse ("provider not found: " +++ name))
    choose modality name provider engine
