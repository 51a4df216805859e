-- ===== src/Llm/Routing/Choice.antt =====
-- Which providers routing can give.
use avix.Base.{String, true, false, string_eq, contains, Option, some, ◌≡◌, arith}
use avix.Base.Dict.{get}
use avix.Errors.{ok}
use avix.Llm.Routing.{
  Modality, text, modality_eq, ProviderConfig, RoutingEngine, is_provider_down, pick_name, choose,
  resolve_provider,
}

module _ {Rest : Type 0} where
  -- The provider that was asked for, or the one for the modality where none was named
  pub record IsPrimary (modality : Modality) (explicit : Option String)
      (engine : RoutingEngine Rest) (provider : ProviderConfig Rest) : Type 0 where
    pub name : String
    pub named : pick_name modality explicit engine ≡ ok name
    pub found : get name engine.providers ≡ some provider
    pub capable : contains provider.modalities modality ≡ true
    pub up : is_provider_down name engine ≡ false

  -- The fallback for text, while the one that was asked for is down
  pub record IsFallback (modality : Modality) (explicit : Option String)
      (engine : RoutingEngine Rest) (provider : ProviderConfig Rest) : Type 0 where
    pub name : String
    pub primary : ProviderConfig Rest
    pub fallback : String
    pub is_text : modality ≡ text
    pub named : pick_name modality explicit engine ≡ ok name
    pub known : get name engine.providers ≡ some primary
    pub capable : contains primary.modalities modality ≡ true
    pub down : is_provider_down name engine ≡ true
    pub set : engine.fallback_text ≡ some fallback
    pub found : get fallback engine.providers ≡ some provider
    pub up : is_provider_down fallback engine ≡ false

  pub resolve_provider-primary :
      (modality : Modality) (explicit : Option String) (engine : RoutingEngine Rest)
      (provider : ProviderConfig Rest)
      → IsPrimary modality explicit engine provider
      → resolve_provider modality explicit engine ≡ ok provider
  unfolding resolve_provider choose
  resolve_provider-primary modality explicit engine provider p =
      ground (arith, p.named, p.found, p.capable, p.up)
