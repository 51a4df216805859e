-- ===== src/Params/Resolver.antt =====
-- crates/avix-core/src/params/resolver.rs: how the layers of defaults become the configuration of an
-- agent. Casts between types of numbers are the language's: `to_u32` is `as u32`, `round` is
-- `as f32`, and `differs a b` is `(a - b).abs() > f32::EPSILON`.
pub mod Resolve
pub mod Effective
pub mod Values
pub mod Merge
pub mod Within
use avix.Base.{ℕ, String, Bool, List, Option}
use avix.Params.Defaults.{AgentDefaults}
use avix.Params.Limits.{AgentLimits}

pub record Casts (Number : Type 0) : Type 0 where
  pub to_u32 : Number → ℕ
  pub round : Number → Number
  pub differs : Number → Number → Bool

pub record ResolvedEntrypoint : Type 0 where
  pub model_preference : String
  pub min_context_tokens : ℕ
  pub max_tool_chain : ℕ

pub record ResolvedMemory : Type 0 where
  pub episodic_enabled : Bool
  pub semantic_enabled : Bool
  pub preferences_enabled : Bool
  pub auto_inject_at_spawn : Bool
  pub auto_log_on_session_end : Bool

pub record ResolvedSnapshot : Type 0 where
  pub enabled : Bool
  pub auto_snapshot_interval_sec : ℕ
  pub restore_on_crash : Bool

pub record ResolvedEnvironment (Number : Type 0) : Type 0 where
  pub temperature : Number
  pub timeout_sec : ℕ

pub record ResolvedPermissionsHint : Type 0 where
  pub owner : String
  pub crew : String
  pub world : String

pub record ResolvedConfig (Number : Type 0) : Type 0 where
  pub entrypoint : ResolvedEntrypoint
  pub memory : ResolvedMemory
  pub snapshot : ResolvedSnapshot
  pub environment : ResolvedEnvironment Number
  pub permissions_hint : ResolvedPermissionsHint

pub data AnnotationSource : Type 0 where
  of_system_defaults of_system_limits of_user_defaults of_user_limits of_crew_defaults
        of_crew_limits of_manifest :
      AnnotationSource

pub data YamlValue (Number : Type 0) : Type 0 where
  of_string : String → YamlValue Number
  of_u32 : ℕ → YamlValue Number
  of_bool : Bool → YamlValue Number
  of_number : Number → YamlValue Number

pub record Annotation (Number : Type 0) : Type 0 where
  pub value : YamlValue Number
  pub source : AnnotationSource
  pub path : Option String
  pub clamped_from : Option (YamlValue Number)
  pub clamped_by : Option String
  pub note : Option String

pub record LayeredDefaults (Number : Type 0) : Type 0 where
  pub vfs_path : String
  pub source : AnnotationSource
  pub defaults : AgentDefaults Number

pub record LayeredLimits (Number : Type 0) : Type 0 where
  pub vfs_path : String
  pub limits : AgentLimits Number

pub record ResolverInput (Number : Type 0) : Type 0 where
  pub system_defaults : AgentDefaults Number
  pub system_defaults_path : String
  pub system_limits : AgentLimits Number
  pub system_limits_path : String
  pub crew_limits : List (LayeredLimits Number)
  pub crew_defaults : List (LayeredDefaults Number)
  pub user_defaults : Option (LayeredDefaults Number)
  pub user_limits : Option (LayeredLimits Number)
  pub manifest : AgentDefaults Number

pub data ResolutionError : Type 0 where
  missing_required : String → ResolutionError
  hard_violation :
      (field value : String) (allowed : List String) (constrained_by : String) → ResolutionError

pub record Field (Number T : Type 0) : Type 0 where
  pub value : Option T
  pub annotation : Option (Annotation Number)

pub record Fields (Number : Type 0) : Type 0 where
  pub model_preference : Field Number String
  pub min_context_tokens : Field Number ℕ
  pub max_tool_chain : Field Number ℕ
  pub episodic_enabled : Field Number Bool
  pub semantic_enabled : Field Number Bool
  pub preferences_enabled : Field Number Bool
  pub auto_inject_at_spawn : Field Number Bool
  pub auto_log_on_session_end : Field Number Bool
  pub snap_enabled : Field Number Bool
  pub snap_interval : Field Number ℕ
  pub restore_on_crash : Field Number Bool
  pub temperature : Field Number Number
  pub timeout_sec : Field Number ℕ
  pub perm_owner : Field Number String
  pub perm_crew : Field Number String
  pub perm_world : Field Number String
