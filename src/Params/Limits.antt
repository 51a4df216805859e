-- ===== src/Params/Limits.antt =====
-- crates/avix-core/src/params/limits.rs: the limits of a layer, their intersection and the check of an
-- agent's defaults against them. `u32 as f64` is `of_nat`; a number is shown as `show` does.
pub mod Layers
use avix.Base.{ℕ, String, Bool, if◌then◌else◌, List, [], ◌∷◌, ◌++◌, Option, none, some, decimal}
use avix.Errors.{Result, ok, err}
use avix.Params.Constraint.{
  Float, RangeConstraint, combine, intersect_range, range_allows, EnumConstraint, intersect_enum,
  enum_allows, SetConstraint, intersect_set, BoolConstraint, intersect_bool,
}
use avix.Params.Defaults.{EntrypointDefaults, EnvironmentDefaults, AgentDefaults}

pub record EntrypointLimits (Number : Type 0) : Type 0 where
  pub model_preference : Option EnumConstraint
  pub min_context_tokens : Option (RangeConstraint Number)
  pub max_tool_chain : Option (RangeConstraint Number)

pub record ToolsLimits : Type 0 where
  pub required : Option SetConstraint
  pub optional : Option SetConstraint

pub record MemoryLimits : Type 0 where
  pub episodic_enabled : Option BoolConstraint
  pub semantic_enabled : Option BoolConstraint

pub record SnapshotLimits (Number : Type 0) : Type 0 where
  pub enabled : Option BoolConstraint
  pub auto_snapshot_interval_sec : Option (RangeConstraint Number)

pub record EnvironmentLimits (Number : Type 0) : Type 0 where
  pub temperature : Option (RangeConstraint Number)
  pub timeout_sec : Option (RangeConstraint Number)

pub record AgentLimits (Number : Type 0) : Type 0 where
  pub entrypoint : Option (EntrypointLimits Number)
  pub tools : Option ToolsLimits
  pub memory : Option MemoryLimits
  pub snapshot : Option (SnapshotLimits Number)
  pub environment : Option (EnvironmentLimits Number)

pub record LimitViolation : Type 0 where
  pub field : String
  pub value : String

abbrev pub intersect_tools : ToolsLimits → ToolsLimits → ToolsLimits
intersect_tools a b = record {
  required = combine intersect_set a.required b.required;
  optional = combine intersect_set a.optional b.optional;
}

abbrev pub intersect_memory : MemoryLimits → MemoryLimits → MemoryLimits
intersect_memory a b = record {
  episodic_enabled = combine intersect_bool a.episodic_enabled b.episodic_enabled;
  semantic_enabled = combine intersect_bool a.semantic_enabled b.semantic_enabled;
}

-- One field of `check_defaults`: a constraint and a value, where there are both.
abbrev pub check_field :
    {C V : Type 0}
    → (C → V → Bool)
    → (V → String)
    → String
    → Option C
    → Option V
    → List LimitViolation
check_field allows show field none v = []
check_field allows show field (some c) none = []
check_field allows show field (some c) (some v) =
    if allows c v then [] else record { field = field; value = show v } ∷ []

abbrev pub check_part :
    {L D : Type 0} → (L → D → List LimitViolation) → Option L → Option D → List LimitViolation
check_part check none d = []
check_part check (some l) none = []
check_part check (some l) (some d) = check l d

abbrev pub no_violations : List LimitViolation → Result (List LimitViolation) (Unit {0})
no_violations [] = ok tt
no_violations (v ∷ vs) = err (v ∷ vs)

module _ (float : Float) where
  abbrev pub intersect_entrypoint :
      EntrypointLimits float.Number → EntrypointLimits float.Number → EntrypointLimits float.Number
  intersect_entrypoint a b = record {
    model_preference = combine intersect_enum a.model_preference b.model_preference;
    min_context_tokens = combine (intersect_range float) a.min_context_tokens b.min_context_tokens;
    max_tool_chain = combine (intersect_range float) a.max_tool_chain b.max_tool_chain;
  }

  abbrev pub intersect_snapshot :
      SnapshotLimits float.Number → SnapshotLimits float.Number → SnapshotLimits float.Number
  intersect_snapshot a b = record {
    enabled = combine intersect_bool a.enabled b.enabled;
    auto_snapshot_interval_sec =
        combine (intersect_range float) a.auto_snapshot_interval_sec b.auto_snapshot_interval_sec;
  }

  abbrev pub intersect_environment :
      EnvironmentLimits float.Number
      → EnvironmentLimits float.Number
      → EnvironmentLimits float.Number
  intersect_environment a b = record {
    temperature = combine (intersect_range float) a.temperature b.temperature;
    timeout_sec = combine (intersect_range float) a.timeout_sec b.timeout_sec;
  }

  unfoldable pub intersect_limits :
      AgentLimits float.Number → AgentLimits float.Number → AgentLimits float.Number
  intersect_limits a b = record {
    entrypoint = combine intersect_entrypoint a.entrypoint b.entrypoint;
    tools = combine intersect_tools a.tools b.tools;
    memory = combine intersect_memory a.memory b.memory;
    snapshot = combine intersect_snapshot a.snapshot b.snapshot;
    environment = combine intersect_environment a.environment b.environment;
  }

  abbrev pub range_allows_nat : RangeConstraint float.Number → ℕ → Bool
  range_allows_nat c n = range_allows float c (float.of_nat n)

  unfoldable pub check_entrypoint :
      EntrypointLimits float.Number → EntrypointDefaults → List LimitViolation
  check_entrypoint lim def =
      check_field range_allows_nat decimal "entrypoint.maxToolChain" lim.max_tool_chain
        def.max_tool_chain
      ++ check_field range_allows_nat decimal "entrypoint.minContextTokens" lim.min_context_tokens
          def.min_context_tokens
      ++ check_field enum_allows (λ v. v) "entrypoint.modelPreference" lim.model_preference
          def.model_preference

  unfoldable pub check_environment :
      EnvironmentLimits float.Number → EnvironmentDefaults float.Number → List LimitViolation
  check_environment lim def =
      check_field (range_allows float) float.show "environment.temperature" lim.temperature
        def.temperature
      ++ check_field range_allows_nat decimal "environment.timeoutSec" lim.timeout_sec
          def.timeout_sec

  unfoldable pub violations :
      AgentLimits float.Number → AgentDefaults float.Number → List LimitViolation
  unfolding check_entrypoint check_environment
  violations lim def =
      check_part check_entrypoint lim.entrypoint def.entrypoint
      ++ check_part check_environment lim.environment def.environment

  unfoldable pub check_defaults :
      AgentLimits float.Number
      → AgentDefaults float.Number
      → Result (List LimitViolation) (Unit {0})
  unfolding violations
  check_defaults lim def = no_violations (violations lim def)

  abbrev between : ℕ → ℕ → RangeConstraint float.Number
  between lo hi = record { min = some (float.of_nat lo); max = some (float.of_nat hi) }

  unfoldable pub system_agent_limits : AgentLimits float.Number
  system_agent_limits = record {
    entrypoint = some (record {
      model_preference = none;
      min_context_tokens = some (between 1000 200000);
      max_tool_chain = some (between 1 200);
    });
    tools = none;
    memory = some (record { episodic_enabled = none; semantic_enabled = none });
    snapshot = some (record {
      enabled = some (record { locked = none });
      auto_snapshot_interval_sec = some (between 0 3600);
    });
    environment =
        some (record { temperature = some (between 0 2); timeout_sec = some (between 30 600) });
  }
