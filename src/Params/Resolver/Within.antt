-- ===== src/Params/Resolver/Within.antt =====
-- crates/avix-core/src/params/resolver.rs: a resolved configuration beside the limits of every layer.
use avix.Base.{
  ℕ, ◌<◌, ◌^◌, String, Bool, true, ◌&&◌, List, [], ◌∷◌, All, Option, none, some, and_then,
  Option-cases, Bool-cases, ◌≡◌, inl, inr, refl, sym, ap, ◌∙◌, arith,
}
use avix.Base.Dict.{Dict}
use avix.Errors.{Result, ok, err, ◌>>◌}
use avix.Params.Constraint.{
  Float, RangeConstraint, combine, intersect_range, range_allows, clamp, EnumConstraint, above,
  below, intersect_enum, enum_allows,
}
use avix.Params.Constraint.Meet.{
  range_allows-clamp, range_allows-intersect_range, enum_allows-intersect_enum,
}
use avix.Params.Limits.{
  AgentLimits, EntrypointLimits, EnvironmentLimits, intersect_limits, intersect_entrypoint,
  intersect_environment,
}
use avix.Params.Resolver.{
  Casts, ResolvedConfig, Annotation, LayeredLimits, ResolverInput, ResolutionError, Fields,
}
use avix.Params.Resolver.Values.{Settings, settings}
use avix.Params.Resolver.Merge.{
  merge_layers, drop_annotations, settle_limits, resolve_params-settle, clamped_u32, unannotated,
  clamp_settings,
}
use avix.Params.Resolver.Effective.{
  chain_limits, model_limits, timeout_limits, check_model, build, intersect_crews,
  compute_effective_limits, effective_enum_limits_path, clamp_nat, resolve_params,
}

-- A constraint that a layer may leave out.
abbrev pub met : {C V : Type 0} → (C → V → Bool) → Option C → V → Bool
met allows none v = true
met allows (some c) v = allows c v

module _ {C V : Type 0} (allows : C → V → Bool) (meet : C → C → C)
    (meets : (c d : C) (v : V) → allows (meet c d) v ≡ (allows c v && allows d v)) where
  met-combine :
      (a b : Option C) (v : V)
      → met allows (combine meet a b) v ≡ (met allows a v && met allows b v)
  met-combine none none v = refl
  met-combine none (some b) v = refl
  met-combine (some a) none v = ground arith
  met-combine (some a) (some b) v = meets a b v

module _ {L C : Type 0} (part : L → Option C) (meet : C → C → C) (join : L → L → L)
    (parts : (a b : L) → part (join a b) ≡ combine meet (part a) (part b)) where
  and_then-combine :
      (a b : Option L)
      → and_then (combine join a b) part ≡ combine meet (and_then a part) (and_then b part)
  and_then-combine none none = refl
  and_then-combine none (some b) = elim (Option-cases (part b)) [
    | inl e ↦ rw e refl
    | inr (c, e) ↦ rw e refl
  ]
  and_then-combine (some a) none = elim (Option-cases (part a)) [
    | inl e ↦ rw e refl
    | inr (c, e) ↦ rw e refl
  ]
  and_then-combine (some a) (some b) = parts a b

module _ (float : Float) where
  abbrev whole_allows : RangeConstraint float.Number → ℕ → Bool
  whole_allows c n = range_allows float c (float.of_nat n)

  -- The limits of one layer allow the model, the length of tool chains and the timeout.
  pub permits : AgentLimits float.Number → ResolvedConfig float.Number → Bool
  permits lim cfg =
      met enum_allows (model_limits lim) cfg.entrypoint.model_preference
      && (met whole_allows (chain_limits lim) cfg.entrypoint.max_tool_chain
          && met whole_allows (timeout_limits lim) cfg.environment.timeout_sec)

  permits-intersect_limits :
      (a b : AgentLimits float.Number) (cfg : ResolvedConfig float.Number)
      → permits (intersect_limits float a b) cfg ≡ (permits a cfg && permits b cfg)
  unfolding permits intersect_limits
  permits-intersect_limits a b cfg =
      rw
        (
          and_then-combine (λ (e : EntrypointLimits float.Number). e.model_preference)
              intersect_enum (intersect_entrypoint float) (λ a b. refl) a.entrypoint b.entrypoint,
          and_then-combine (λ (e : EntrypointLimits float.Number). e.max_tool_chain)
              (intersect_range float) (intersect_entrypoint float) (λ a b. refl) a.entrypoint
              b.entrypoint,
          and_then-combine (λ (e : EnvironmentLimits float.Number). e.timeout_sec)
              (intersect_range float) (intersect_environment float) (λ a b. refl) a.environment
              b.environment,
          met-combine enum_allows intersect_enum enum_allows-intersect_enum (model_limits a)
              (model_limits b) cfg.entrypoint.model_preference,
          met-combine whole_allows (intersect_range float)
              (λ c d n. range_allows-intersect_range float c d (float.of_nat n)) (chain_limits a)
              (chain_limits b) cfg.entrypoint.max_tool_chain,
          met-combine whole_allows (intersect_range float)
              (λ c d n. range_allows-intersect_range float c d (float.of_nat n)) (timeout_limits a)
              (timeout_limits b) cfg.environment.timeout_sec,
        )
        ground arith

  abbrev CrewsPermit : List (LayeredLimits float.Number) → ResolvedConfig float.Number → Type 0
  CrewsPermit crews cfg =
      All (λ (l : LayeredLimits float.Number). permits l.limits cfg ≡ true) crews

  permits-intersect_crews :
      (crews : List (LayeredLimits float.Number)) (lim : AgentLimits float.Number)
      (cfg : ResolvedConfig float.Number)
      → permits (intersect_crews float crews lim) cfg ≡ true
      → (permits lim cfg ≡ true) × CrewsPermit crews cfg
  permits-intersect_crews [] lim cfg h = (h, tt)
  permits-intersect_crews (l ∷ rest) lim cfg h = ground (
    arith,
    permits-intersect_crews rest (intersect_limits float lim l.limits) cfg h,
    permits-intersect_limits lim l.limits cfg,
  )

  abbrev UserPermits : Option (LayeredLimits float.Number) → ResolvedConfig float.Number → Type 0
  UserPermits none cfg = Unit
  UserPermits (some l) cfg = permits l.limits cfg ≡ true

  -- The system's limits, those of every crew and those of the user.
  pub record PermittedByAll (input : ResolverInput float.Number) (cfg : ResolvedConfig float.Number)
      : Type 0 where
    pub system : permits input.system_limits cfg ≡ true
    pub crews : CrewsPermit input.crew_limits cfg
    pub user : UserPermits input.user_limits cfg

  effective_permits :
      (input : ResolverInput float.Number) (cfg : ResolvedConfig float.Number)
      → permits (compute_effective_limits float input) cfg ≡ true
      → PermittedByAll input cfg
  unfolding compute_effective_limits
  effective_permits input cfg h = elim (Option-cases input.user_limits) [
    | inl e ↦
        let (s, c) =
          permits-intersect_crews input.crew_limits input.system_limits cfg (ground arith) in
        record { system = s; crews = c; user = rw e tt }
    | inr (l, e) ↦
        let both =
          permits-intersect_limits (intersect_crews float input.crew_limits input.system_limits)
            l.limits cfg in
        let (s, c) =
          permits-intersect_crews input.crew_limits input.system_limits cfg (ground arith) in
        record { system = s; crews = c; user = rw e (ground arith) }
  ]

  unfoldable pub IsWhole : Option float.Number → Type 0
  IsWhole none = Unit
  IsWhole (some b) = (n : ℕ) × (n < 2 ^ 32) × (b ≡ float.of_nat n)

  -- A range of whole numbers of 32 bits that allows some number.
  pub record IsU32Range (c : RangeConstraint float.Number) : Type 0 where
    pub inside : float.Number
    pub allows_it : range_allows float c inside ≡ true
    pub low : IsWhole c.min
    pub high : IsWhole c.max

  below_whole :
      (hi : Option float.Number) (n : ℕ) (v : float.Number)
      → IsWhole hi
      → n < 2 ^ 32
      → v ≡ float.of_nat n
      → (m : ℕ) × (m < 2 ^ 32) × (below float hi v ≡ float.of_nat m)
  unfolding IsWhole
  below_whole none n v w h e = (n, h, e)
  below_whole (some b) n v (k, l, p) h e = elim (Bool-cases (float.less b v)) [
    | inl t ↦ (k, l, rw t p)
    | inr f ↦ (n, h, rw f e)
  ]

  above_whole :
      (lo : Option float.Number) (n : ℕ)
      → IsWhole lo
      → n < 2 ^ 32
      → (m : ℕ) × (m < 2 ^ 32) × (above float lo (float.of_nat n) ≡ float.of_nat m)
  unfolding IsWhole
  above_whole none n w h = (n, h, refl)
  above_whole (some b) n (k, l, p) h = elim (Bool-cases (float.less (float.of_nat n) b)) [
    | inl t ↦ (k, l, rw t p)
    | inr f ↦ (n, h, rw f refl)
  ]

  clamp_whole :
      (c : RangeConstraint float.Number) (n : ℕ)
      → IsU32Range c
      → n < 2 ^ 32
      → (m : ℕ) × (m < 2 ^ 32) × (clamp float c (float.of_nat n) ≡ float.of_nat m)
  unfolding clamp
  clamp_whole c n r h =
      let (k, l, e) = above_whole c.min n r.low h in below_whole c.max k _ r.high l e

  module _ (casts : Casts float.Number)
      (exact : (n : ℕ) → n < 2 ^ 32 → casts.to_u32 (float.of_nat n) ≡ n) where
    clamp_nat-allowed :
        (c : RangeConstraint float.Number) (n : ℕ)
        → IsU32Range c
        → n < 2 ^ 32
        → whole_allows c (clamp_nat float casts c n) ≡ true
    clamp_nat-allowed c n r h =
        let (m, l, e) = clamp_whole c n r h in
        let good = (range_allows-clamp float c r.inside (float.of_nat n) r.allows_it).0 in
        let same : clamp_nat float casts c n ≡ m = rw (clamp_nat, e) (exact m l) in
        rw same (rw (← e) good)

    -- A limit that is set is a range of whole numbers.
    abbrev pub IsU32Limit : Option (RangeConstraint float.Number) → Type 0
    IsU32Limit none = Unit
    IsU32Limit (some c) = IsU32Range c

    abbrev pub IsU32 : Option ℕ → Type 0
    IsU32 none = Unit
    IsU32 (some n) = n < 2 ^ 32

    clamped_u32-met :
        (lim : Option (RangeConstraint float.Number)) (v : Option ℕ) (n : ℕ)
        → IsU32Limit lim
        → IsU32 v
        → clamped_u32 float casts lim v ≡ some n
        → met whole_allows lim n ≡ true
    clamped_u32-met none v n r u e = refl
    clamped_u32-met (some c) none n r u e = absurd (ground arith)
    clamped_u32-met (some c) (some k) n r u e =
        let same : clamp_nat float casts c k ≡ n = cc in rw (← same) (clamp_nat-allowed c k r u)

    build_eq_ok :
        (f : Fields float.Number) {cfg : ResolvedConfig float.Number}
        → build f ≡ ok cfg
        → (f.model_preference.value ≡ some cfg.entrypoint.model_preference)
          × (f.max_tool_chain.value ≡ some cfg.entrypoint.max_tool_chain)
          × (f.timeout_sec.value ≡ some cfg.environment.timeout_sec)
    unfolding build
    build_eq_ok f h = ground arith

    then_eq_ok :
        {A : Type 0} (check : Result ResolutionError (Unit {0})) (step : Result ResolutionError A)
        {a : A}
        → (check >> step) ≡ ok a
        → (check ≡ ok tt) × (step ≡ ok a)
    then_eq_ok (err e) step h = absurd (ground arith)
    then_eq_ok (ok u) step h = (refl, h)

    check_model-met :
        (lim : Option EnumConstraint) (v : Option String) (path model : String)
        → check_model lim v path ≡ ok tt
        → v ≡ some model
        → met enum_allows lim model ≡ true
    unfolding check_model
    check_model-met none v path model h e = refl
    check_model-met (some c) none path model h e = absurd (ground arith)
    check_model-met (some c) (some x) path model h e = ground arith

    settle_limits-permits :
        (lim : AgentLimits float.Number) (path : String) (v : Settings float.Number)
        (cfg : ResolvedConfig float.Number)
        → IsU32Limit (chain_limits lim)
        → IsU32Limit (timeout_limits lim)
        → IsU32 v.entrypoint.max_tool_chain
        → IsU32 v.environment.timeout_sec
        → settle_limits float casts lim path v ≡ ok cfg
        → permits lim cfg ≡ true
    unfolding permits
    settle_limits-permits lim path v cfg rc rt uc ut h =
        let (checked, built) =
          then_eq_ok (check_model (model_limits lim) v.entrypoint.model_preference path)
            (build (unannotated (clamp_settings float casts lim v))) h in
        let (model, chain, timeout) =
          build_eq_ok (unannotated (clamp_settings float casts lim v)) built in
        ground (
          arith,
          check_model-met (model_limits lim) v.entrypoint.model_preference path
              cfg.entrypoint.model_preference checked model,
          clamped_u32-met (chain_limits lim) v.entrypoint.max_tool_chain
              cfg.entrypoint.max_tool_chain rc uc chain,
          clamped_u32-met (timeout_limits lim) v.environment.timeout_sec cfg.environment.timeout_sec
              rt ut timeout,
        )

    -- A configuration that resolves has a model, a length of tool chains and a timeout that the limits of
    -- the system, of every crew and of the user allow, where the effective limits of the two numbers
    -- are ranges of whole numbers of 32 bits that allow some number, the merged settings of the two
    -- are below `2 ^ 32`, and the cast to `u32` is exact on whole numbers of 32 bits.
    pub resolve_params-PermittedByAll :
        (input : ResolverInput float.Number) {cfg : ResolvedConfig float.Number}
        {annotations : Dict String (Annotation float.Number)}
        → IsU32Limit (chain_limits (compute_effective_limits float input))
        → IsU32Limit (timeout_limits (compute_effective_limits float input))
        → IsU32 (settings (merge_layers input)).entrypoint.max_tool_chain
        → IsU32 (settings (merge_layers input)).environment.timeout_sec
        → resolve_params float casts input ≡ ok (cfg, annotations)
        → PermittedByAll input cfg
    resolve_params-PermittedByAll input {cfg} {annotations} rc rt uc ut h =
        effective_permits input cfg (
          settle_limits-permits (compute_effective_limits float input)
            (effective_enum_limits_path input) (settings (merge_layers input)) cfg rc rt uc ut
            (sym (resolve_params-settle float casts input) ∙ ap drop_annotations h))
