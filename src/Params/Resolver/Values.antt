-- ===== src/Params/Resolver/Values.antt =====
-- The values that the walk of params/resolver.rs finds, and `AgentDefaults::merge_over` of params/defaults.rs.
-- Both lay the settings of one layer over those of another.
use avix.Base.{String, Option, none, some, ◌≡◌, refl, sym, ap, ◌∙◌}
use avix.Params.Constraint.{combine}
use avix.Params.Defaults.{
  EntrypointDefaults, MemoryDefaults, SnapshotDefaults, EnvironmentDefaults,
  PermissionsHintDefaults, AgentDefaults, over_or, merge_entrypoint, merge_memory, merge_snapshot,
  merge_environment, merge_permissions_hint, merge_over,
}
use avix.Params.Resolver.{
  AnnotationSource, Field, Fields, YamlValue, of_string, of_u32, of_bool, of_number,
}
use avix.Params.Resolver.Resolve.{
  apply, no_fields, apply_entrypoint, apply_memory, apply_snapshot, apply_environment,
  apply_permissions_hint, apply_defaults,
}

pub record Settings (Number : Type 0) : Type 0 where
  pub entrypoint : EntrypointDefaults
  pub memory : MemoryDefaults
  pub snapshot : SnapshotDefaults
  pub environment : EnvironmentDefaults Number
  pub permissions_hint : PermissionsHintDefaults

over_or-none : {A : Type 0} (o : Option A) → over_or o none ≡ o
over_or-none none = refl
over_or-none (some a) = refl

-- A part that is not set sets nothing.
module _ {P : Type 0} (empty : P) where
  abbrev or_empty : Option P → P
  or_empty none = empty
  or_empty (some x) = x

  module _ (merge : P → P → P) (left : (x : P) → merge empty x ≡ x)
      (right : (x : P) → merge x empty ≡ x) where
    or_empty-combine :
        (x y : Option P) → or_empty (combine merge x y) ≡ merge (or_empty x) (or_empty y)
    or_empty-combine none none = sym (left empty)
    or_empty-combine none (some y) = sym (left y)
    or_empty-combine (some x) none = sym (right x)
    or_empty-combine (some x) (some y) = refl

abbrev no_entrypoint : EntrypointDefaults
no_entrypoint = record { model_preference = none; min_context_tokens = none; max_tool_chain = none }

abbrev no_memory : MemoryDefaults
no_memory = record {
  episodic_enabled = none;
  semantic_enabled = none;
  preferences_enabled = none;
  auto_inject_at_spawn = none;
  auto_log_on_session_end = none;
}

abbrev no_snapshot : SnapshotDefaults
no_snapshot = record { enabled = none; auto_snapshot_interval_sec = none; restore_on_crash = none }

abbrev no_permissions_hint : PermissionsHintDefaults
no_permissions_hint = record { owner = none; crew = none; world = none }

left_entrypoint : (x : EntrypointDefaults) → merge_entrypoint no_entrypoint x ≡ x
left_entrypoint x =
    rw
      (
        over_or-none x.model_preference,
        over_or-none x.min_context_tokens,
        over_or-none x.max_tool_chain,
      )
      refl

left_memory : (x : MemoryDefaults) → merge_memory no_memory x ≡ x
left_memory x =
    rw
      (
        over_or-none x.episodic_enabled,
        over_or-none x.semantic_enabled,
        over_or-none x.preferences_enabled,
        over_or-none x.auto_inject_at_spawn,
        over_or-none x.auto_log_on_session_end,
      )
      refl

left_snapshot : (x : SnapshotDefaults) → merge_snapshot no_snapshot x ≡ x
left_snapshot x =
    rw
      (
        over_or-none x.enabled,
        over_or-none x.auto_snapshot_interval_sec,
        over_or-none x.restore_on_crash,
      )
      refl

left_permissions_hint :
    (x : PermissionsHintDefaults) → merge_permissions_hint no_permissions_hint x ≡ x
left_permissions_hint x = rw (over_or-none x.owner, over_or-none x.crew, over_or-none x.world) refl

apply_value :
    {Number T : Type 0} (into : T → YamlValue Number) (o : Option T) (s : AnnotationSource)
    (p : Option String) (f : Field Number T)
    → (apply into o s p f).value ≡ over_or o f.value
apply_value into none s p f = refl
apply_value into (some v) s p f = refl

module _ {Number : Type 0} where
  abbrev no_environment : EnvironmentDefaults Number
  no_environment = record { temperature = none; timeout_sec = none }

  left_environment : (x : EnvironmentDefaults Number) → merge_environment no_environment x ≡ x
  left_environment x = rw (over_or-none x.temperature, over_or-none x.timeout_sec) refl

  abbrev pub settings : AgentDefaults Number → Settings Number
  settings d = record {
    entrypoint = or_empty no_entrypoint d.entrypoint;
    memory = or_empty no_memory d.memory;
    snapshot = or_empty no_snapshot d.snapshot;
    environment = or_empty no_environment d.environment;
    permissions_hint = or_empty no_permissions_hint d.permissions_hint;
  }

  abbrev pub overlay : Settings Number → Settings Number → Settings Number
  overlay base over = record {
    entrypoint = merge_entrypoint base.entrypoint over.entrypoint;
    memory = merge_memory base.memory over.memory;
    snapshot = merge_snapshot base.snapshot over.snapshot;
    environment = merge_environment base.environment over.environment;
    permissions_hint = merge_permissions_hint base.permissions_hint over.permissions_hint;
  }

  pub settings-merge_over :
      (a b : AgentDefaults Number) → settings (merge_over a b) ≡ overlay (settings a) (settings b)
  unfolding merge_over
  settings-merge_over a b =
      rw
        (
          or_empty-combine no_entrypoint merge_entrypoint left_entrypoint (λ x. refl) a.entrypoint
              b.entrypoint,
          or_empty-combine no_memory merge_memory left_memory (λ x. refl) a.memory b.memory,
          or_empty-combine no_snapshot merge_snapshot left_snapshot (λ x. refl) a.snapshot
              b.snapshot,
          or_empty-combine no_environment merge_environment left_environment (λ x. refl)
              a.environment b.environment,
          or_empty-combine no_permissions_hint merge_permissions_hint left_permissions_hint
              (λ x. refl) a.permissions_hint b.permissions_hint,
        )
        refl

  -- The values that the walk has found so far.
  abbrev pub values_of : Fields Number → Settings Number
  values_of f = record {
    entrypoint = record {
      model_preference = f.model_preference.value;
      min_context_tokens = f.min_context_tokens.value;
      max_tool_chain = f.max_tool_chain.value;
    };
    memory = record {
      episodic_enabled = f.episodic_enabled.value;
      semantic_enabled = f.semantic_enabled.value;
      preferences_enabled = f.preferences_enabled.value;
      auto_inject_at_spawn = f.auto_inject_at_spawn.value;
      auto_log_on_session_end = f.auto_log_on_session_end.value;
    };
    snapshot = record {
      enabled = f.snap_enabled.value;
      auto_snapshot_interval_sec = f.snap_interval.value;
      restore_on_crash = f.restore_on_crash.value;
    };
    environment = record { temperature = f.temperature.value; timeout_sec = f.timeout_sec.value };
    permissions_hint = record {
      owner = f.perm_owner.value;
      crew = f.perm_crew.value;
      world = f.perm_world.value;
    };
  }

  -- One part of a layer, laid over the settings.
  abbrev lay_entrypoint : Option EntrypointDefaults → Settings Number → Settings Number
  lay_entrypoint d v = record v {
    entrypoint = merge_entrypoint v.entrypoint (or_empty no_entrypoint d);
  }

  abbrev lay_memory : Option MemoryDefaults → Settings Number → Settings Number
  lay_memory d v = record v { memory = merge_memory v.memory (or_empty no_memory d) }

  abbrev lay_snapshot : Option SnapshotDefaults → Settings Number → Settings Number
  lay_snapshot d v = record v { snapshot = merge_snapshot v.snapshot (or_empty no_snapshot d) }

  abbrev lay_environment : Option (EnvironmentDefaults Number) → Settings Number → Settings Number
  lay_environment d v = record v {
    environment = merge_environment v.environment (or_empty no_environment d);
  }

  abbrev lay_permissions_hint : Option PermissionsHintDefaults → Settings Number → Settings Number
  lay_permissions_hint d v = record v {
    permissions_hint = merge_permissions_hint v.permissions_hint (or_empty no_permissions_hint d);
  }

  values-entrypoint :
      (d : Option EntrypointDefaults) (s : AnnotationSource) (p : Option String) (f : Fields Number)
      → values_of (apply_entrypoint d s p f) ≡ lay_entrypoint d (values_of f)
  values-entrypoint none s p f = refl
  values-entrypoint (some ep) s p f =
      rw
        (
          apply_value of_string ep.model_preference s p f.model_preference,
          apply_value of_u32 ep.min_context_tokens s p f.min_context_tokens,
          apply_value of_u32 ep.max_tool_chain s p f.max_tool_chain,
        )
        refl

  values-memory :
      (d : Option MemoryDefaults) (s : AnnotationSource) (p : Option String) (f : Fields Number)
      → values_of (apply_memory d s p f) ≡ lay_memory d (values_of f)
  values-memory none s p f = refl
  values-memory (some x) s p f =
      rw
        (
          apply_value of_bool x.episodic_enabled s p f.episodic_enabled,
          apply_value of_bool x.semantic_enabled s p f.semantic_enabled,
          apply_value of_bool x.preferences_enabled s p f.preferences_enabled,
          apply_value of_bool x.auto_inject_at_spawn s p f.auto_inject_at_spawn,
          apply_value of_bool x.auto_log_on_session_end s p f.auto_log_on_session_end,
        )
        refl

  values-snapshot :
      (d : Option SnapshotDefaults) (s : AnnotationSource) (p : Option String) (f : Fields Number)
      → values_of (apply_snapshot d s p f) ≡ lay_snapshot d (values_of f)
  values-snapshot none s p f = refl
  values-snapshot (some x) s p f =
      rw
        (
          apply_value of_bool x.enabled s p f.snap_enabled,
          apply_value of_u32 x.auto_snapshot_interval_sec s p f.snap_interval,
          apply_value of_bool x.restore_on_crash s p f.restore_on_crash,
        )
        refl

  values-environment :
      (d : Option (EnvironmentDefaults Number)) (s : AnnotationSource) (p : Option String)
      (f : Fields Number)
      → values_of (apply_environment d s p f) ≡ lay_environment d (values_of f)
  values-environment none s p f = refl
  values-environment (some x) s p f =
      rw
        (
          apply_value of_number x.temperature s p f.temperature,
          apply_value of_u32 x.timeout_sec s p f.timeout_sec,
        )
        refl

  values-permissions_hint :
      (d : Option PermissionsHintDefaults) (s : AnnotationSource) (p : Option String)
      (f : Fields Number)
      → values_of (apply_permissions_hint d s p f) ≡ lay_permissions_hint d (values_of f)
  values-permissions_hint none s p f = refl
  values-permissions_hint (some x) s p f =
      rw
        (
          apply_value of_string x.owner s p f.perm_owner,
          apply_value of_string x.crew s p f.perm_crew,
          apply_value of_string x.world s p f.perm_world,
        )
        refl

  -- Applying a layer to the fields lays its settings over theirs.
  pub values-apply_defaults :
      (d : AgentDefaults Number) (s : AnnotationSource) (p : Option String) (f : Fields Number)
      → values_of (apply_defaults d s p f) ≡ overlay (values_of f) (settings d)
  unfolding apply_defaults
  values-apply_defaults d s p f =
      values-permissions_hint d.permissions_hint s p _
      ∙ ap (lay_permissions_hint d.permissions_hint) (
          values-environment d.environment s p _
          ∙ ap (lay_environment d.environment) (
              values-snapshot d.snapshot s p _
              ∙ ap (lay_snapshot d.snapshot) (
                  values-memory d.memory s p _
                  ∙ ap (lay_memory d.memory) (values-entrypoint d.entrypoint s p f))))

  -- The walk starts with nothing set.
  pub overlay-no_fields : (x : Settings Number) → overlay (values_of no_fields) x ≡ x
  overlay-no_fields x =
      rw
        (
          left_entrypoint x.entrypoint,
          left_memory x.memory,
          left_snapshot x.snapshot,
          left_environment x.environment,
          left_permissions_hint x.permissions_hint,
        )
        refl
