-- ===== src/Params/Defaults.antt =====
-- crates/avix-core/src/params/defaults.rs: what an agent's manifest sets, merged layer over layer.
use avix.Base.{ℕ, String, Bool, Option, none, some}
use avix.Params.Constraint.{combine}

pub record EntrypointDefaults : Type 0 where
  pub model_preference : Option String
  pub min_context_tokens : Option ℕ
  pub max_tool_chain : Option ℕ

pub record MemoryDefaults : Type 0 where
  pub episodic_enabled : Option Bool
  pub semantic_enabled : Option Bool
  pub preferences_enabled : Option Bool
  pub auto_inject_at_spawn : Option Bool
  pub auto_log_on_session_end : Option Bool

pub record SnapshotDefaults : Type 0 where
  pub enabled : Option Bool
  pub auto_snapshot_interval_sec : Option ℕ
  pub restore_on_crash : Option Bool

pub record EnvironmentDefaults (Number : Type 0) : Type 0 where
  pub temperature : Option Number
  pub timeout_sec : Option ℕ

pub record PermissionsHintDefaults : Type 0 where
  pub owner : Option String
  pub crew : Option String
  pub world : Option String

pub record AgentDefaults (Number : Type 0) : Type 0 where
  pub entrypoint : Option EntrypointDefaults
  pub memory : Option MemoryDefaults
  pub snapshot : Option SnapshotDefaults
  pub environment : Option (EnvironmentDefaults Number)
  pub permissions_hint : Option PermissionsHintDefaults

-- `over.or(base)`
abbrev pub over_or : {A : Type 0} → Option A → Option A → Option A
over_or (some o) base = some o
over_or none base = base

abbrev pub merge_entrypoint : EntrypointDefaults → EntrypointDefaults → EntrypointDefaults
merge_entrypoint base over = record {
  model_preference = over_or over.model_preference base.model_preference;
  min_context_tokens = over_or over.min_context_tokens base.min_context_tokens;
  max_tool_chain = over_or over.max_tool_chain base.max_tool_chain;
}

abbrev pub merge_memory : MemoryDefaults → MemoryDefaults → MemoryDefaults
merge_memory base over = record {
  episodic_enabled = over_or over.episodic_enabled base.episodic_enabled;
  semantic_enabled = over_or over.semantic_enabled base.semantic_enabled;
  preferences_enabled = over_or over.preferences_enabled base.preferences_enabled;
  auto_inject_at_spawn = over_or over.auto_inject_at_spawn base.auto_inject_at_spawn;
  auto_log_on_session_end = over_or over.auto_log_on_session_end base.auto_log_on_session_end;
}

abbrev pub merge_snapshot : SnapshotDefaults → SnapshotDefaults → SnapshotDefaults
merge_snapshot base over = record {
  enabled = over_or over.enabled base.enabled;
  auto_snapshot_interval_sec =
      over_or over.auto_snapshot_interval_sec base.auto_snapshot_interval_sec;
  restore_on_crash = over_or over.restore_on_crash base.restore_on_crash;
}

abbrev pub merge_environment :
    {Number : Type 0}
    → EnvironmentDefaults Number
    → EnvironmentDefaults Number
    → EnvironmentDefaults Number
merge_environment base over = record {
  temperature = over_or over.temperature base.temperature;
  timeout_sec = over_or over.timeout_sec base.timeout_sec;
}

abbrev pub merge_permissions_hint :
    PermissionsHintDefaults → PermissionsHintDefaults → PermissionsHintDefaults
merge_permissions_hint base over = record {
  owner = over_or over.owner base.owner;
  crew = over_or over.crew base.crew;
  world = over_or over.world base.world;
}

unfoldable pub merge_over :
    {Number : Type 0} → AgentDefaults Number → AgentDefaults Number → AgentDefaults Number
merge_over base other = record {
  entrypoint = combine merge_entrypoint base.entrypoint other.entrypoint;
  memory = combine merge_memory base.memory other.memory;
  snapshot = combine merge_snapshot base.snapshot other.snapshot;
  environment = combine merge_environment base.environment other.environment;
  permissions_hint = combine merge_permissions_hint base.permissions_hint other.permissions_hint;
}
