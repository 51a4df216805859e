-- ===== src/Params/Resolver/Resolve.antt =====
-- crates/avix-core/src/params/resolver.rs: the walk over the layers, the clamping against the
-- effective limits and the final checks.
use avix.Base.{String, string_eq, nat_eq, List, [], ◌∷◌, Option, none, some, map_option}
use avix.Params.Defaults.{
  EntrypointDefaults, MemoryDefaults, SnapshotDefaults, EnvironmentDefaults,
  PermissionsHintDefaults, AgentDefaults,
}
use avix.Params.Resolver.{
  AnnotationSource, of_system_defaults, of_user_defaults, of_manifest, YamlValue, of_string, of_u32,
  of_bool, of_number, Annotation, LayeredDefaults, ResolverInput, Field, Fields,
}

module _ {Number T : Type 0} where
  abbrev pub unset : Field Number T
  unset = record { value = none; annotation = none }

  abbrev pub apply :
      (T → YamlValue Number)
      → Option T
      → AnnotationSource
      → Option String
      → Field Number T
      → Field Number T
  apply into none source path f = f
  apply into (some v) source path f = record {
    value = some v;
    annotation = some (record {
      value = into v;
      source = source;
      path = path;
      clamped_from = none;
      clamped_by = none;
      note = none;
    });
  }

  -- The annotation of a value that a limit has changed.
  abbrev pub mark_clamped :
      (T → YamlValue Number)
      → T
      → T
      → Option String
      → Option (Annotation Number)
      → Option (Annotation Number)
  mark_clamped into v clamped clamped_by annotation =
      map_option
        (λ (a : Annotation Number). record a {
          value = into clamped;
          clamped_from = some (into v);
          clamped_by = clamped_by;
        })
        annotation

module _ {Number : Type 0} where
  abbrev pub no_fields : Fields Number
  no_fields = record {
    model_preference = unset;
    min_context_tokens = unset;
    max_tool_chain = unset;
    episodic_enabled = unset;
    semantic_enabled = unset;
    preferences_enabled = unset;
    auto_inject_at_spawn = unset;
    auto_log_on_session_end = unset;
    snap_enabled = unset;
    snap_interval = unset;
    restore_on_crash = unset;
    temperature = unset;
    timeout_sec = unset;
    perm_owner = unset;
    perm_crew = unset;
    perm_world = unset;
  }

  abbrev pub apply_entrypoint :
      Option EntrypointDefaults → AnnotationSource → Option String → Fields Number → Fields Number
  apply_entrypoint none s p f = f
  apply_entrypoint (some ep) s p f = record f {
    model_preference = apply of_string ep.model_preference s p f.model_preference;
    min_context_tokens = apply of_u32 ep.min_context_tokens s p f.min_context_tokens;
    max_tool_chain = apply of_u32 ep.max_tool_chain s p f.max_tool_chain;
  }

  abbrev pub apply_memory :
      Option MemoryDefaults → AnnotationSource → Option String → Fields Number → Fields Number
  apply_memory none s p f = f
  apply_memory (some mem) s p f = record f {
    episodic_enabled = apply of_bool mem.episodic_enabled s p f.episodic_enabled;
    semantic_enabled = apply of_bool mem.semantic_enabled s p f.semantic_enabled;
    preferences_enabled = apply of_bool mem.preferences_enabled s p f.preferences_enabled;
    auto_inject_at_spawn = apply of_bool mem.auto_inject_at_spawn s p f.auto_inject_at_spawn;
    auto_log_on_session_end =
        apply of_bool mem.auto_log_on_session_end s p f.auto_log_on_session_end;
  }

  abbrev pub apply_snapshot :
      Option SnapshotDefaults → AnnotationSource → Option String → Fields Number → Fields Number
  apply_snapshot none s p f = f
  apply_snapshot (some snap) s p f = record f {
    snap_enabled = apply of_bool snap.enabled s p f.snap_enabled;
    snap_interval = apply of_u32 snap.auto_snapshot_interval_sec s p f.snap_interval;
    restore_on_crash = apply of_bool snap.restore_on_crash s p f.restore_on_crash;
  }

  abbrev pub apply_environment :
      Option (EnvironmentDefaults Number)
      → AnnotationSource
      → Option String
      → Fields Number
      → Fields Number
  apply_environment none s p f = f
  apply_environment (some env) s p f = record f {
    temperature = apply of_number env.temperature s p f.temperature;
    timeout_sec = apply of_u32 env.timeout_sec s p f.timeout_sec;
  }

  abbrev pub apply_permissions_hint :
      Option PermissionsHintDefaults
      → AnnotationSource
      → Option String
      → Fields Number
      → Fields Number
  apply_permissions_hint none s p f = f
  apply_permissions_hint (some ph) s p f = record f {
    perm_owner = apply of_string ph.owner s p f.perm_owner;
    perm_crew = apply of_string ph.crew s p f.perm_crew;
    perm_world = apply of_string ph.world s p f.perm_world;
  }

  unfoldable pub apply_defaults :
      AgentDefaults Number → AnnotationSource → Option String → Fields Number → Fields Number
  apply_defaults d s p f = apply_permissions_hint d.permissions_hint s p (
      apply_environment d.environment s p (
        apply_snapshot d.snapshot s p
          (apply_memory d.memory s p (apply_entrypoint d.entrypoint s p f))))

  unfoldable pub apply_crews : List (LayeredDefaults Number) → Fields Number → Fields Number
  apply_crews [] f = f
  apply_crews (ld ∷ rest) f =
      apply_crews rest (apply_defaults ld.defaults ld.source (some ld.vfs_path) f)

  abbrev pub apply_user : Option (LayeredDefaults Number) → Fields Number → Fields Number
  apply_user none f = f
  apply_user (some ud) f = apply_defaults ud.defaults of_user_defaults (some ud.vfs_path) f

  unfoldable pub apply_layers : ResolverInput Number → Fields Number
  apply_layers input =
      let system =
        apply_defaults input.system_defaults of_system_defaults (some input.system_defaults_path)
          no_fields in
      apply_defaults input.manifest of_manifest none
        (apply_user input.user_defaults (apply_crews input.crew_defaults system))
