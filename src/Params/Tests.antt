-- ===== src/Params/Tests.antt =====
-- Tests and witnesses of the limits.
use avix.Base.{
  ◌<◌, ◌^◌, nat_eq, ◌==◌, not, ◌⊎◌, ℕ, ◌≡◌, ◌↔◌, refl, true, false, none, some, arith, ltb, decimal,
  [], ◌∷◌,
}
use avix.Errors.{ok, err}
use avix.Params.Constraint.{Float, RangeConstraint, range_allows, clamp}
use avix.Params.Defaults.{AgentDefaults}
use avix.Params.Limits.{
  AgentLimits, intersect_limits, check_defaults, system_agent_limits, check_entrypoint,
  check_environment,
}
use avix.Params.Limits.Layers.{check_defaults-intersect_limits}
use avix.Params.Constraint.{intersect_range, intersect_bool}
use avix.Params.Defaults.{merge_over}
use avix.Params.Resolver.{Casts, ResolverInput, ResolvedConfig}
use avix.Params.Resolver.Resolve.{apply_layers, apply_crews, apply_defaults}
use avix.Params.Resolver.Effective.{
  resolve_params, compute_effective_limits, clamp_fields, annotations_of, check_model, build,
  effective_limits_path_for_entrypoint, effective_limits_path_for_environment,
  effective_enum_limits_path,
}
use avix.Params.Resolver.Merge.{merge_layers, one_layer, drop_annotations, resolve_params-one_layer}
use avix.Params.Resolver.Within.{IsWhole, PermittedByAll, resolve_params-PermittedByAll}

whole_irrefl : (a : ℕ) → ltb a a ≡ false
whole_irrefl a = ground arith

whole_trans : (a b c : ℕ) → ltb a b ≡ true → ltb b c ≡ true → ltb a c ≡ true
whole_trans a b c h k = ground arith

whole_split : (a b c : ℕ) → ltb a c ≡ true → (ltb a b ≡ true) ⊎ (ltb b c ≡ true)
whole_split a b c h = ground arith

-- Whole numbers stand for the numbers of type `f64` here.
abbrev whole : Float
whole = record {
  Number = ℕ;
  less = ltb;
  of_nat = λ n. n;
  show = decimal;
  less_irrefl = whole_irrefl;
  less_trans = whole_trans;
  less_split = whole_split;
}

abbrev range : RangeConstraint ℕ
range = record { min = some 30; max = some 600 }

abbrev crew_limits : AgentLimits ℕ
crew_limits = record {
  entrypoint = none;
  tools = none;
  memory = none;
  snapshot = none;
  environment =
      some
        (record { temperature = none; timeout_sec = some (record { min = none; max = some 120 }) });
}

abbrev defaults : AgentDefaults ℕ
defaults = record {
  entrypoint = none;
  memory = none;
  snapshot = none;
  permissions_hint = none;
  environment = some (record { temperature = some 1; timeout_sec = some 300 });
}

check_defaults-intersect_limits_example :
    (check_defaults whole (intersect_limits whole (system_agent_limits whole) crew_limits) defaults
      ≡ ok tt)
    ↔ ((check_defaults whole (system_agent_limits whole) defaults ≡ ok tt)
        × (check_defaults whole crew_limits defaults ≡ ok tt))
check_defaults-intersect_limits_example =
    check_defaults-intersect_limits whole (system_agent_limits whole) crew_limits defaults

crew_refuses :
    check_defaults whole crew_limits defaults
    ≡ err (record { field = "environment.timeoutSec"; value = decimal 300 } ∷ [])
unfolding check_defaults check_entrypoint check_environment range_allows
crew_refuses = refl

abbrev whole_casts : Casts ℕ
whole_casts = record { to_u32 = λ n. n; round = λ n. n; differs = λ a b. not (a == b) }

abbrev asked : AgentDefaults ℕ
asked = record {
  entrypoint = some (record {
    model_preference = some "sonnet";
    min_context_tokens = none;
    max_tool_chain = some 50;
  });
  memory = none;
  snapshot = none;
  permissions_hint = none;
  environment = none;
}

abbrev layers : ResolverInput ℕ
layers = record {
  system_defaults = defaults;
  system_defaults_path = "/kernel/defaults/agent-manifest.yaml";
  system_limits = system_agent_limits whole;
  system_limits_path = "/kernel/limits/agent-manifest.yaml";
  crew_limits = record { vfs_path = "/crews/ops/limits.yaml"; limits = crew_limits } ∷ [];
  crew_defaults = [];
  user_defaults = none;
  user_limits = none;
  manifest = asked;
}

abbrev configured : ResolvedConfig ℕ
configured = record {
  entrypoint = record {
    model_preference = "sonnet";
    min_context_tokens = 8000;
    max_tool_chain = 50;
  };
  memory = record {
    episodic_enabled = true;
    semantic_enabled = true;
    preferences_enabled = true;
    auto_inject_at_spawn = true;
    auto_log_on_session_end = false;
  };
  snapshot = record { enabled = false; auto_snapshot_interval_sec = 0; restore_on_crash = false };
  environment = record { temperature = 1; timeout_sec = 120 };
  permissions_hint = record { owner = "rw"; crew = "r"; world = "r--" };
}

-- The timeout of 300 seconds is clamped by the limits of the crew.
clamped_by_crew :
    resolve_params whole whole_casts layers
    ≡ ok (
      configured,
      annotations_of (
          clamp_fields whole whole_casts
            (compute_effective_limits whole layers)
            (some "/kernel/limits/agent-manifest.yaml")
            (some "/crews/ops/limits.yaml")
            (apply_layers layers)),
    )
unfolding resolve_params compute_effective_limits intersect_limits system_agent_limits
    intersect_range intersect_bool clamp_fields clamp range_allows apply_layers apply_crews
    apply_defaults check_model build effective_limits_path_for_entrypoint
    effective_limits_path_for_environment effective_enum_limits_path
clamped_by_crew = refl

exact_whole : (n : ℕ) → n < 2 ^ 32 → whole_casts.to_u32 (whole.of_nat n) ≡ n
exact_whole n h = refl

resolve_params-PermittedByAll_example : PermittedByAll whole layers configured
unfolding compute_effective_limits intersect_limits system_agent_limits intersect_range range_allows
    merge_layers merge_over IsWhole
resolve_params-PermittedByAll_example =
    resolve_params-PermittedByAll whole whole_casts exact_whole layers
      (record {
        inside = 60;
        allows_it = refl;
        low = (1, omega arith, refl);
        high = (200, omega arith, refl);
      })
      (record {
        inside = 60;
        allows_it = refl;
        low = (30, omega arith, refl);
        high = (120, omega arith, refl);
      })
      (omega arith) (omega arith) clamped_by_crew

resolve_params-one_layer_example :
    drop_annotations (resolve_params whole whole_casts layers)
    ≡ drop_annotations (resolve_params whole whole_casts (one_layer (merge_layers layers) layers))
resolve_params-one_layer_example = resolve_params-one_layer whole whole_casts layers
