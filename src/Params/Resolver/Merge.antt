-- ===== src/Params/Resolver/Merge.antt =====
-- crates/avix-core/src/params/resolver.rs beside `AgentDefaults::merge_over` of params/defaults.rs.
use avix.Base.{
  ℕ, String, List, [], ◌∷◌, Option, none, some, map_option, ◌≡◌, refl, sym, ap, ◌∙◌, arith,
}
use avix.Errors.{Result, ok, err, ◌>>=◌, ◌>>◌}
use avix.Params.Constraint.{Float, RangeConstraint}
use avix.Params.Defaults.{AgentDefaults, merge_over}
use avix.Params.Limits.{AgentLimits}
use avix.Params.Resolver.{
  Casts, ResolvedConfig, LayeredDefaults, ResolverInput, ResolutionError, Field, Fields,
  of_system_defaults, of_user_defaults, of_manifest,
}
use avix.Params.Resolver.Values.{
  Settings, settings, overlay, values_of, settings-merge_over, values-apply_defaults,
  overlay-no_fields,
}
use avix.Params.Resolver.Resolve.{no_fields, apply_defaults, apply_crews, apply_user, apply_layers}
use avix.Params.Resolver.Effective.{
  chain_limits, context_limits, model_limits, temperature_limits, timeout_limits, check_model,
  build, compute_effective_limits, clamp_nat, clamp_number, clamp_u32, clamp_f32, clamp_fields,
  effective_enum_limits_path, effective_limits_path_for_entrypoint,
  effective_limits_path_for_environment, resolve_params,
}

abbrev pub bare : {Number T : Type 0} → Option T → Field Number T
bare v = record { value = v; annotation = none }

module _ {Number : Type 0} where
  abbrev merge_crews : List (LayeredDefaults Number) → AgentDefaults Number → AgentDefaults Number
  merge_crews [] base = base
  merge_crews (ld ∷ rest) base = merge_crews rest (merge_over base ld.defaults)

  abbrev merge_user : Option (LayeredDefaults Number) → AgentDefaults Number → AgentDefaults Number
  merge_user none base = base
  merge_user (some ud) base = merge_over base ud.defaults

  -- Every layer merged over the ones below it.
  unfoldable pub merge_layers : ResolverInput Number → AgentDefaults Number
  merge_layers input =
      merge_over
        (merge_user input.user_defaults (merge_crews input.crew_defaults input.system_defaults))
        input.manifest

  abbrev pub no_defaults : AgentDefaults Number
  no_defaults = record {
    entrypoint = none;
    memory = none;
    snapshot = none;
    environment = none;
    permissions_hint = none;
  }

  -- The same limits, and a single layer of defaults.
  unfoldable pub one_layer : AgentDefaults Number → ResolverInput Number → ResolverInput Number
  one_layer d input = record input {
    system_defaults = d;
    crew_defaults = [];
    user_defaults = none;
    manifest = no_defaults;
  }

  values-crews :
      (crews : List (LayeredDefaults Number)) (f : Fields Number) (base : AgentDefaults Number)
      → values_of f ≡ settings base
      → values_of (apply_crews crews f) ≡ settings (merge_crews crews base)
  unfolding apply_crews
  values-crews [] f base h = h
  values-crews (ld ∷ rest) f base h =
      values-crews rest (apply_defaults ld.defaults ld.source (some ld.vfs_path) f)
        (merge_over base ld.defaults)
        (values-apply_defaults ld.defaults ld.source (some ld.vfs_path) f
          ∙ ap (λ x. overlay x (settings ld.defaults)) h
          ∙ sym (settings-merge_over base ld.defaults))

  values-user :
      (user : Option (LayeredDefaults Number)) (f : Fields Number) (base : AgentDefaults Number)
      → values_of f ≡ settings base
      → values_of (apply_user user f) ≡ settings (merge_user user base)
  values-user none f base h = h
  values-user (some ud) f base h =
      values-apply_defaults ud.defaults of_user_defaults (some ud.vfs_path) f
      ∙ ap (λ x. overlay x (settings ud.defaults)) h
      ∙ sym (settings-merge_over base ud.defaults)

  values-system :
      (d : AgentDefaults Number) (p : Option String)
      → values_of (apply_defaults d of_system_defaults p no_fields) ≡ settings d
  values-system d p =
      values-apply_defaults d of_system_defaults p no_fields ∙ overlay-no_fields (settings d)

  pub values-apply_layers :
      (input : ResolverInput Number)
      → values_of (apply_layers input) ≡ settings (merge_layers input)
  unfolding apply_layers merge_layers
  values-apply_layers input =
      let crews =
        values-crews input.crew_defaults
          (apply_defaults input.system_defaults of_system_defaults (some input.system_defaults_path)
            no_fields)
          input.system_defaults
          (values-system input.system_defaults (some input.system_defaults_path)) in
      let user = values-user input.user_defaults _ _ crews in
      values-apply_defaults input.manifest of_manifest none _
      ∙ ap (λ x. overlay x (settings input.manifest)) user
      ∙ sym (settings-merge_over _ input.manifest)

  abbrev pub unannotated : Settings Number → Fields Number
  unannotated v = record {
    model_preference = bare v.entrypoint.model_preference;
    min_context_tokens = bare v.entrypoint.min_context_tokens;
    max_tool_chain = bare v.entrypoint.max_tool_chain;
    episodic_enabled = bare v.memory.episodic_enabled;
    semantic_enabled = bare v.memory.semantic_enabled;
    preferences_enabled = bare v.memory.preferences_enabled;
    auto_inject_at_spawn = bare v.memory.auto_inject_at_spawn;
    auto_log_on_session_end = bare v.memory.auto_log_on_session_end;
    snap_enabled = bare v.snapshot.enabled;
    snap_interval = bare v.snapshot.auto_snapshot_interval_sec;
    restore_on_crash = bare v.snapshot.restore_on_crash;
    temperature = bare v.environment.temperature;
    timeout_sec = bare v.environment.timeout_sec;
    perm_owner = bare v.permissions_hint.owner;
    perm_crew = bare v.permissions_hint.crew;
    perm_world = bare v.permissions_hint.world;
  }

  build_values : (f : Fields Number) → build f ≡ build (unannotated (values_of f))
  unfolding build
  build_values f = refl

  -- What `resolve_params` says of the configuration.
  abbrev pub drop_annotations :
      {A : Type 0}
      → Result ResolutionError (ResolvedConfig Number × A)
      → Result ResolutionError (ResolvedConfig Number)
  drop_annotations (ok p) = ok p.0
  drop_annotations (err e) = err e

  drop_bind :
      {A : Type 0} (check : Result ResolutionError (Unit {0}))
      (step : Result ResolutionError (ResolvedConfig Number)) (a : A)
      → drop_annotations (check >>= λ _. step >>= λ c. ok (c, a)) ≡ (check >> step)
  drop_bind (err e) step a = refl
  drop_bind (ok u) (err e) a = refl
  drop_bind (ok u) (ok c) a = refl

module _ (float : Float) (casts : Casts float.Number) where
  abbrev pub clamped_u32 : Option (RangeConstraint float.Number) → Option ℕ → Option ℕ
  clamped_u32 none v = v
  clamped_u32 (some lim) v = map_option (clamp_nat float casts lim) v

  abbrev pub clamped_f32 :
      Option (RangeConstraint float.Number) → Option float.Number → Option float.Number
  clamped_f32 none v = v
  clamped_f32 (some lim) v = map_option (clamp_number float casts lim) v

  clamp_u32_value :
      (lim : Option (RangeConstraint float.Number)) (path : Option String)
      (f : Field float.Number ℕ)
      → (clamp_u32 float casts lim path f).value ≡ clamped_u32 lim f.value
  clamp_u32_value none path f = refl
  clamp_u32_value (some lim) path f = ground arith

  clamp_f32_value :
      (lim : Option (RangeConstraint float.Number)) (path : Option String)
      (f : Field float.Number float.Number)
      → (clamp_f32 float casts lim path f).value ≡ clamped_f32 lim f.value
  clamp_f32_value none path f = refl
  clamp_f32_value (some lim) path f = ground arith

  abbrev pub clamp_settings :
      AgentLimits float.Number → Settings float.Number → Settings float.Number
  clamp_settings lim v = record v {
    entrypoint = record v.entrypoint {
      max_tool_chain = clamped_u32 (chain_limits lim) v.entrypoint.max_tool_chain;
      min_context_tokens = clamped_u32 (context_limits lim) v.entrypoint.min_context_tokens;
    };
    environment = record {
      temperature = clamped_f32 (temperature_limits lim) v.environment.temperature;
      timeout_sec = clamped_u32 (timeout_limits lim) v.environment.timeout_sec;
    };
  }

  values-clamp_fields :
      (lim : AgentLimits float.Number) (p q : Option String) (f : Fields float.Number)
      → values_of (clamp_fields float casts lim p q f) ≡ clamp_settings lim (values_of f)
  unfolding clamp_fields
  values-clamp_fields lim p q f =
      rw
        (
          clamp_u32_value (chain_limits lim) p f.max_tool_chain,
          clamp_u32_value (context_limits lim) p f.min_context_tokens,
          clamp_f32_value (temperature_limits lim) q f.temperature,
          clamp_u32_value (timeout_limits lim) q f.timeout_sec,
        )
        refl

  -- The limits against one set of settings.
  abbrev pub settle_limits :
      AgentLimits float.Number
      → String
      → Settings float.Number
      → Result ResolutionError (ResolvedConfig float.Number)
  settle_limits lim path v =
      check_model (model_limits lim) v.entrypoint.model_preference path
      >> build (unannotated (clamp_settings lim v))

  pub resolve_params-settle :
      (input : ResolverInput float.Number)
      → drop_annotations (resolve_params float casts input)
        ≡ settle_limits
            (compute_effective_limits float input)
            (effective_enum_limits_path input)
            (settings (merge_layers input))
  unfolding resolve_params
  resolve_params-settle input =
      let lim = compute_effective_limits float input in
      let f =
        clamp_fields float casts lim (effective_limits_path_for_entrypoint input)
          (effective_limits_path_for_environment input) (apply_layers input) in
      drop_bind _ (build f) _
      ∙ ap
          (λ b.
            check_model (model_limits lim) (apply_layers input).model_preference.value
              (effective_enum_limits_path input)
            >> b)
          (build_values f
            ∙ ap (λ v. build (unannotated v)) (values-clamp_fields lim _ _ (apply_layers input)))
      ∙ ap (λ v. settle_limits lim (effective_enum_limits_path input) v) (values-apply_layers input)

  merge_one_layer :
      (d : AgentDefaults float.Number) (input : ResolverInput float.Number)
      → settings (merge_layers (one_layer d input)) ≡ settings d
  unfolding merge_layers one_layer
  merge_one_layer d input = settings-merge_over d no_defaults

  -- The layers resolve_params to the configuration, or to the error, that a single layer resolves to under the
  -- same limits, when that layer is all of them merged in the order system, crews, user, manifest.
  pub resolve_params-one_layer :
      (input : ResolverInput float.Number)
      → drop_annotations (resolve_params float casts input)
        ≡ drop_annotations (resolve_params float casts (one_layer (merge_layers input) input))
  unfolding compute_effective_limits effective_enum_limits_path effective_limits_path_for_entrypoint
      one_layer
  resolve_params-one_layer input =
      resolve_params-settle input
      ∙ ap
          (λ v.
            settle_limits (compute_effective_limits float input) (effective_enum_limits_path input)
              v)
          (sym (merge_one_layer (merge_layers input) input))
      ∙ sym (resolve_params-settle (one_layer (merge_layers input) input))
