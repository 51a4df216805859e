-- ===== src/Params/Resolver/Effective.antt =====
-- crates/avix-core/src/params/resolver.rs: the effective limits, the clamping against them, the final
-- checks and the annotations. `input.crew_limits.iter().rev()` is a search from the end.
use avix.Base.{
  ℕ, String, string_eq, nat_eq, Bool, true, false, ◌==◌, if◌then◌else◌, List, [], ◌∷◌, Option, none,
  some, unwrap_or, and_then,
}
use avix.Base.Dict.{Dict, insert}
use avix.Errors.{Result, ok, err, ok_or, ◌>>=◌}
use avix.Params.Constraint.{Float, RangeConstraint, clamp, EnumConstraint, enum_allows}
use avix.Params.Limits.{EntrypointLimits, EnvironmentLimits, AgentLimits, intersect_limits}
use avix.Params.Resolver.{
  Casts, ResolvedConfig, of_u32, of_number, Annotation, LayeredLimits, ResolverInput,
  ResolutionError, missing_required, hard_violation, Field, Fields,
}
use avix.Params.Resolver.Resolve.{mark_clamped, apply_layers}

-- `is_some()` on a part of the limits
abbrev pub is_some : {A : Type 0} → Option A → Bool
is_some none = false
is_some (some a) = true

unfoldable pub check_model :
    Option EnumConstraint → Option String → String → Result ResolutionError (Unit {0})
check_model none v path = ok tt
check_model (some c) none path = ok tt
check_model (some c) (some v) path =
    if enum_allows c v
    then ok tt
    else err (hard_violation "entrypoint.modelPreference" v c.values path)

module _ {Number : Type 0} where
  -- The last crew whose limits have the part that `has` tests.
  abbrev pub last_crew : (AgentLimits Number → Bool) → List (LayeredLimits Number) → Option String
  last_crew has [] = none
  last_crew has (ll ∷ rest) = elim (last_crew has rest) [
    | some path ↦ some path
    | none ↦ if has ll.limits then some ll.vfs_path else none
  ]

  abbrev pub limits_path : (AgentLimits Number → Bool) → ResolverInput Number → Option String
  limits_path has input =
      let crews = some (unwrap_or input.system_limits_path (last_crew has input.crew_limits)) in
      elim input.user_limits [
        | none ↦ crews
        | some ul ↦ if has ul.limits then some ul.vfs_path else crews
      ]

  unfoldable pub effective_limits_path_for_entrypoint : ResolverInput Number → Option String
  effective_limits_path_for_entrypoint input = limits_path (λ l. is_some l.entrypoint) input

  unfoldable pub effective_limits_path_for_environment : ResolverInput Number → Option String
  effective_limits_path_for_environment input = limits_path (λ l. is_some l.environment) input

  unfoldable pub effective_enum_limits_path : ResolverInput Number → String
  unfolding effective_limits_path_for_entrypoint
  effective_enum_limits_path input =
      unwrap_or input.system_limits_path (effective_limits_path_for_entrypoint input)

  abbrev pub chain_limits : AgentLimits Number → Option (RangeConstraint Number)
  chain_limits lim = and_then lim.entrypoint (λ (e : EntrypointLimits Number). e.max_tool_chain)

  abbrev pub context_limits : AgentLimits Number → Option (RangeConstraint Number)
  context_limits lim =
      and_then lim.entrypoint (λ (e : EntrypointLimits Number). e.min_context_tokens)

  abbrev pub model_limits : AgentLimits Number → Option EnumConstraint
  model_limits lim = and_then lim.entrypoint (λ (e : EntrypointLimits Number). e.model_preference)

  abbrev pub temperature_limits : AgentLimits Number → Option (RangeConstraint Number)
  temperature_limits lim =
      and_then lim.environment (λ (e : EnvironmentLimits Number). e.temperature)

  abbrev pub timeout_limits : AgentLimits Number → Option (RangeConstraint Number)
  timeout_limits lim = and_then lim.environment (λ (e : EnvironmentLimits Number). e.timeout_sec)

  unfoldable pub build : Fields Number → Result ResolutionError (ResolvedConfig Number)
  build f = do
    model ← ok_or f.model_preference.value (missing_required "entrypoint.modelPreference")
    chain ← ok_or f.max_tool_chain.value (missing_required "entrypoint.maxToolChain")
    temperature ← ok_or f.temperature.value (missing_required "environment.temperature")
    timeout ← ok_or f.timeout_sec.value (missing_required "environment.timeoutSec")
    ok (record {
      entrypoint = record {
        model_preference = model;
        min_context_tokens = unwrap_or 8000 f.min_context_tokens.value;
        max_tool_chain = chain;
      };
      memory = record {
        episodic_enabled = unwrap_or true f.episodic_enabled.value;
        semantic_enabled = unwrap_or true f.semantic_enabled.value;
        preferences_enabled = unwrap_or true f.preferences_enabled.value;
        auto_inject_at_spawn = unwrap_or true f.auto_inject_at_spawn.value;
        auto_log_on_session_end = unwrap_or false f.auto_log_on_session_end.value;
      };
      snapshot = record {
        enabled = unwrap_or false f.snap_enabled.value;
        auto_snapshot_interval_sec = unwrap_or 0 f.snap_interval.value;
        restore_on_crash = unwrap_or false f.restore_on_crash.value;
      };
      environment = record { temperature = temperature; timeout_sec = timeout };
      permissions_hint = record {
        owner = unwrap_or "rw" f.perm_owner.value;
        crew = unwrap_or "r" f.perm_crew.value;
        world = unwrap_or "r--" f.perm_world.value;
      };
    })

  abbrev pub emit_annotation :
      {T : Type 0}
      → String
      → Field Number T
      → Dict String (Annotation Number)
      → Dict String (Annotation Number)
  emit_annotation key f annotations = elim f.annotation [
    | none ↦ annotations
    | some a ↦ insert key a annotations
  ]

  unfoldable pub annotations_of : Fields Number → Dict String (Annotation Number)
  annotations_of f = emit_annotation "permissionsHint.world" f.perm_world (
      emit_annotation "permissionsHint.crew" f.perm_crew (
        emit_annotation "permissionsHint.owner" f.perm_owner (
          emit_annotation "environment.timeoutSec" f.timeout_sec (
            emit_annotation "environment.temperature" f.temperature (
              emit_annotation "snapshot.restoreOnCrash" f.restore_on_crash (
                emit_annotation "snapshot.autoSnapshotIntervalSec" f.snap_interval (
                  emit_annotation "snapshot.enabled" f.snap_enabled (
                    emit_annotation "memory.autoLogOnSessionEnd" f.auto_log_on_session_end (
                      emit_annotation "memory.autoInjectAtSpawn" f.auto_inject_at_spawn (
                        emit_annotation "memory.preferencesEnabled" f.preferences_enabled (
                          emit_annotation "memory.semanticEnabled" f.semantic_enabled (
                            emit_annotation "memory.episodicEnabled" f.episodic_enabled (
                              emit_annotation "entrypoint.maxToolChain" f.max_tool_chain (
                                emit_annotation "entrypoint.minContextTokens" f.min_context_tokens (
                                  emit_annotation "entrypoint.modelPreference" f.model_preference
                                    [])))))))))))))))

module _ (float : Float) where
  abbrev pub intersect_crews :
      List (LayeredLimits float.Number) → AgentLimits float.Number → AgentLimits float.Number
  intersect_crews [] lim = lim
  intersect_crews (ll ∷ rest) lim = intersect_crews rest (intersect_limits float lim ll.limits)

  unfoldable pub compute_effective_limits : ResolverInput float.Number → AgentLimits float.Number
  compute_effective_limits input =
      let effective = intersect_crews input.crew_limits input.system_limits in
      elim input.user_limits [
        | none ↦ effective
        | some ul ↦ intersect_limits float effective ul.limits
      ]

module _ (float : Float) (casts : Casts float.Number) where
  abbrev pub clamp_nat : RangeConstraint float.Number → ℕ → ℕ
  clamp_nat lim v = casts.to_u32 (clamp float lim (float.of_nat v))

  abbrev pub clamp_number : RangeConstraint float.Number → float.Number → float.Number
  clamp_number lim v = casts.round (clamp float lim v)

  abbrev pub clamp_u32 :
      Option (RangeConstraint float.Number)
      → Option String
      → Field float.Number ℕ
      → Field float.Number ℕ
  clamp_u32 none path f = f
  clamp_u32 (some lim) path f = elim f.value [
    | none ↦ f
    | some v ↦ record {
      value = some (clamp_nat lim v);
      annotation =
          if clamp_nat lim v == v
          then f.annotation
          else mark_clamped of_u32 v (clamp_nat lim v) path f.annotation;
    }
  ]

  abbrev pub clamp_f32 :
      Option (RangeConstraint float.Number)
      → Option String
      → Field float.Number float.Number
      → Field float.Number float.Number
  clamp_f32 none path f = f
  clamp_f32 (some lim) path f = elim f.value [
    | none ↦ f
    | some v ↦ record {
      value = some (clamp_number lim v);
      annotation =
          if casts.differs (clamp_number lim v) v
          then mark_clamped of_number v (clamp_number lim v) path f.annotation
          else f.annotation;
    }
  ]

  unfoldable pub clamp_fields :
      AgentLimits float.Number
      → Option String
      → Option String
      → Fields float.Number
      → Fields float.Number
  clamp_fields lim entry env f = record f {
    max_tool_chain = clamp_u32 (chain_limits lim) entry f.max_tool_chain;
    min_context_tokens = clamp_u32 (context_limits lim) entry f.min_context_tokens;
    temperature = clamp_f32 (temperature_limits lim) env f.temperature;
    timeout_sec = clamp_u32 (timeout_limits lim) env f.timeout_sec;
  }

  unfoldable pub resolve_params :
      ResolverInput float.Number
      → Result ResolutionError (ResolvedConfig float.Number × Dict String (Annotation float.Number))
  resolve_params input = do
    let limits = compute_effective_limits float input
    let f =
        clamp_fields limits (effective_limits_path_for_entrypoint input)
          (effective_limits_path_for_environment input) (apply_layers input)
    _ ←
        check_model (model_limits limits) (apply_layers input).model_preference.value
          (effective_enum_limits_path input)
    resolved ← build f
    ok (resolved, annotations_of f)
