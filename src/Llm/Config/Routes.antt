-- ===== src/Llm/Config/Routes.antt =====
-- crates/avix-core/src/config/llm.rs and crates/avix-core/src/llm_svc/routing.rs: what a configuration that
-- was checked is good for in routing.
use avix.Base.{
  String, string_eq, true, false, ◌==◌, List, [], ◌∷◌, contains, Option, none, some, ◌≡◌, refl, ap,
  sym, ◌∙◌, eq_of_beq, arith, Option-cases, Bool-cases, inl, inr,
}
use avix.Base.Dict.{get, insert, get-insert}
use avix.Errors.{AvixError, no_provider_available, Result, ok, ok_or, ◌>>=◌, bind_eq_ok}
use avix.Llm.Routing.{
  Modality, text, image, speech, transcription, embedding, modality_eq, modality_str, available,
  is_down, RoutingEngine, DefaultProviders, default_names, add_providers, from_config, pick_name,
  is_provider_down, resolve_provider,
}
use avix.Llm.Routing.Choice.{resolve_provider-primary}
use avix.Llm.Config.{
  ProviderDetails, Provider, LlmConfig, find_provider, check_default, validate_llm_config,
  default_name, default_provider_for,
}

-- No two providers have the same name.
abbrev pub HaveDistinctNames : List Provider → Type 0
HaveDistinctNames [] = Unit
HaveDistinctNames (p ∷ ps) = (find_provider p.name ps ≡ none) × HaveDistinctNames ps

abbrev with_provider : Provider → RoutingEngine ProviderDetails → RoutingEngine ProviderDetails
with_provider p engine = record engine {
  providers = insert p.name p engine.providers;
  status = insert p.name available engine.status;
}

abbrev or_else : Option Provider → Option Provider → Option Provider
or_else (some p) other = some p
or_else none other = other

get-add_providers :
    (name : String) (ps : List Provider) (engine : RoutingEngine ProviderDetails)
    → HaveDistinctNames ps
    → get name (add_providers ps engine).providers
      ≡ or_else (find_provider name ps) (get name engine.providers)
unfolding add_providers find_provider
get-add_providers name [] engine h = refl
get-add_providers name (p ∷ ps) engine (h, hs) =
    let ih = get-add_providers name ps (with_provider p engine) hs in
    let put = get-insert p.name name p engine.providers in
    elim (Bool-cases (p.name == name)) [
      | inl t ↦
          let absent = ap (λ n. find_provider n ps) (sym (eq_of_beq p.name name t)) ∙ h in
          ground (arith, ih, put, t, absent)
      | inr f ↦ ground (arith, ih, put, f)
    ]

up-add_providers :
    (name : String) (ps : List Provider) (engine : RoutingEngine ProviderDetails)
    → is_down (get name engine.status) ≡ false
    → is_down (get name (add_providers ps engine).status) ≡ false
unfolding add_providers
up-add_providers name [] engine h = h
up-add_providers name (p ∷ ps) engine h =
    up-add_providers name ps (with_provider p engine)
      (ground (arith, h, get-insert p.name name available engine.status))

defaults-add_providers :
    (ps : List Provider) (engine : RoutingEngine ProviderDetails)
    → (add_providers ps engine).defaults ≡ engine.defaults
unfolding add_providers
defaults-add_providers [] engine = refl
defaults-add_providers (p ∷ ps) engine = defaults-add_providers ps _

check_default_eq_ok :
    (m : Modality) (name : String) (ps : List Provider)
    → check_default m name ps ≡ ok tt
    → (p : Provider) × (find_provider name ps ≡ some p) × (contains p.modalities m ≡ true)
unfolding check_default
check_default_eq_ok m name ps h = elim (Option-cases (find_provider name ps)) [
  | inl e ↦ absurd (ground (arith, e, h))
  | inr (p, e) ↦ elim (Bool-cases (contains p.modalities m)) [
    | inl t ↦ (p, e, t)
    | inr f ↦ absurd (ground (arith, e, f, h))
  ]
]

all_ok :
    (a b c d e : Result AvixError (Unit {0}))
    → (a >>= λ _. b >>= λ _. c >>= λ _. d >>= λ _. e >>= λ _. ok tt) ≡ ok tt
    → (a ≡ ok tt) × ((b ≡ ok tt) × ((c ≡ ok tt) × ((d ≡ ok tt) × (e ≡ ok tt))))
all_ok a b c d e h =
    let (_, for_a, h1) = bind_eq_ok a _ h in
    let (_, for_b, h2) = bind_eq_ok b _ h1 in
    let (_, for_c, h3) = bind_eq_ok c _ h2 in
    let (_, for_d, h4) = bind_eq_ok d _ h3 in
    let (_, for_e, _) = bind_eq_ok e _ h4 in (for_a, (for_b, (for_c, (for_d, for_e))))

check_default-validate :
    (cfg : LlmConfig) (m : Modality)
    → validate_llm_config cfg ≡ ok tt
    → check_default m (default_name m cfg.spec.default_providers) cfg.spec.providers ≡ ok tt
unfolding validate_llm_config
check_default-validate cfg m h =
    let dp = cfg.spec.default_providers in
    let ps = cfg.spec.providers in
    let (for_text, (for_image, (for_speech, (for_transcription, for_embedding)))) =
      all_ok (check_default text dp.text_name ps) (check_default image dp.image_name ps)
        (check_default speech dp.speech_name ps)
        (check_default transcription dp.transcription_name ps)
        (check_default embedding dp.embedding_name ps) h in
    elim m as (λ k. check_default k (default_name k dp) ps ≡ ok tt) [
      | text ↦ for_text
      | image ↦ for_image
      | speech ↦ for_speech
      | transcription ↦ for_transcription
      | embedding ↦ for_embedding
    ]

get-default_names :
    (m : Modality) (dp : DefaultProviders)
    → get (modality_str m) (default_names dp) ≡ some (default_name m dp)
unfolding modality_str get
get-default_names text dp = refl
get-default_names image dp = refl
get-default_names speech dp = refl
get-default_names transcription dp = refl
get-default_names embedding dp = refl

pick_name-from_config :
    (m : Modality) (dp : DefaultProviders) (ps : List Provider)
    → pick_name m none (from_config dp ps) ≡ ok (default_name m dp)
unfolding pick_name from_config
pick_name-from_config m dp ps =
    ap (λ found. ok_or found (no_provider_available (modality_str m)))
      (ap (get (modality_str m)) (defaults-add_providers ps _) ∙ get-default_names m dp)

-- A configuration that passed its check, with no two providers of one name, routes a call that names no
-- provider to the default provider of its modality, whatever the modality, as long as nothing is down.
pub resolve_provider-from_config :
    (cfg : LlmConfig) (m : Modality)
    → validate_llm_config cfg ≡ ok tt
    → HaveDistinctNames cfg.spec.providers
    → (p : Provider) × (default_provider_for m cfg ≡ some p)
      × (resolve_provider m none (from_config cfg.spec.default_providers cfg.spec.providers) ≡ ok p)
unfolding from_config default_provider_for is_provider_down get
resolve_provider-from_config cfg m valid distinct =
    let name = default_name m cfg.spec.default_providers in
    let ps = cfg.spec.providers in
    let (p, found, capable) = check_default_eq_ok m name ps (check_default-validate cfg m valid) in
    (
      p,
      found,
      resolve_provider-primary m none _ p (record {
        name = name;
        named = pick_name-from_config m cfg.spec.default_providers ps;
        found = get-add_providers name ps _ distinct ∙ ap (λ q. or_else q none) found;
        capable = capable;
        up = up-add_providers name ps _ refl;
      }),
    )
