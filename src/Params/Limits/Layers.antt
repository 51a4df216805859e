-- ===== src/Params/Limits/Layers.antt =====
-- Limits of several layers at once.
use avix.Base.{
  ℕ, String, Bool, true, false, ◌&&◌, List, [], ◌∷◌, ◌++◌, Option, none, some, decimal, ◌≡◌, ◌↔◌,
  refl, arith,
}
use avix.Errors.{ok}
use avix.Params.Constraint.{
  Float, RangeConstraint, combine, intersect_range, range_allows, intersect_enum, enum_allows,
}
use avix.Params.Constraint.Meet.{range_allows-intersect_range, enum_allows-intersect_enum}
use avix.Params.Defaults.{EntrypointDefaults, EnvironmentDefaults, AgentDefaults}
use avix.Params.Limits.{
  EntrypointLimits, EnvironmentLimits, AgentLimits, LimitViolation, check_field, check_part,
  no_violations, intersect_entrypoint, intersect_environment, intersect_limits, range_allows_nat,
  check_entrypoint, check_environment, violations, check_defaults,
}

abbrev is_clean : List LimitViolation → Bool
is_clean [] = true
is_clean (v ∷ vs) = false

is_clean-append : (xs ys : List LimitViolation) → is_clean (xs ++ ys) ≡ (is_clean xs && is_clean ys)
is_clean-append [] ys = refl
is_clean-append (x ∷ xs) ys = refl

module _ {C V : Type 0} (allows : C → V → Bool) (show : V → String) (field : String)
    (meet : C → C → C)
    (meets : (c d : C) (v : V) → allows (meet c d) v ≡ (allows c v && allows d v)) where
  check_field-combine :
      (a b : Option C) (v : Option V)
      → is_clean (check_field allows show field (combine meet a b) v) ≡ (
          is_clean (check_field allows show field a v)
          && is_clean (check_field allows show field b v))
  check_field-combine none none v = refl
  check_field-combine none (some b) v = refl
  check_field-combine (some a) none v = ground arith
  check_field-combine (some a) (some b) none = refl
  check_field-combine (some a) (some b) (some v) = ground (arith, meets a b v)

module _ {L D : Type 0} (check : L → D → List LimitViolation) (meet : L → L → L)
    (meets : (l m : L) (d : D)
      → is_clean (check (meet l m) d) ≡ (is_clean (check l d) && is_clean (check m d))) where
  check_part-combine :
      (a b : Option L) (d : Option D)
      → is_clean (check_part check (combine meet a b) d)
        ≡ (is_clean (check_part check a d) && is_clean (check_part check b d))
  check_part-combine none none d = refl
  check_part-combine none (some b) d = refl
  check_part-combine (some a) none d = ground arith
  check_part-combine (some a) (some b) none = refl
  check_part-combine (some a) (some b) (some d) = meets a b d

clean_both :
    (x y x1 y1 x2 y2 : List LimitViolation)
    → is_clean x ≡ (is_clean x1 && is_clean x2)
    → is_clean y ≡ (is_clean y1 && is_clean y2)
    → is_clean (x ++ y) ≡ (is_clean (x1 ++ y1) && is_clean (x2 ++ y2))
clean_both x y x1 y1 x2 y2 p q =
    ground (arith, is_clean-append x y, is_clean-append x1 y1, is_clean-append x2 y2, p, q)

no_violations_iff : (vs : List LimitViolation) → (no_violations vs ≡ ok tt) ↔ (is_clean vs ≡ true)
no_violations_iff [] = ground arith
no_violations_iff (v ∷ vs) = ground arith

module _ (float : Float) where
  range_allows_nat-meet :
      (c d : RangeConstraint float.Number) (n : ℕ)
      → range_allows_nat float (intersect_range float c d) n
        ≡ (range_allows_nat float c n && range_allows_nat float d n)
  range_allows_nat-meet c d n = range_allows-intersect_range float c d (float.of_nat n)

  check_environment-meet :
      (a b : EnvironmentLimits float.Number) (d : EnvironmentDefaults float.Number)
      → is_clean (check_environment float (intersect_environment float a b) d)
        ≡ (is_clean (check_environment float a d) && is_clean (check_environment float b d))
  unfolding check_environment
  check_environment-meet a b d =
      clean_both _ _ _ _ _ _
        (check_field-combine (range_allows float) float.show "environment.temperature"
          (intersect_range float) (range_allows-intersect_range float) a.temperature b.temperature
          d.temperature)
        (check_field-combine (range_allows_nat float) decimal "environment.timeoutSec"
          (intersect_range float) (range_allows_nat-meet) a.timeout_sec b.timeout_sec d.timeout_sec)

  check_entrypoint-meet :
      (a b : EntrypointLimits float.Number) (d : EntrypointDefaults)
      → is_clean (check_entrypoint float (intersect_entrypoint float a b) d)
        ≡ (is_clean (check_entrypoint float a d) && is_clean (check_entrypoint float b d))
  unfolding check_entrypoint
  check_entrypoint-meet a b d =
      clean_both _ _ _ _ _ _
        (clean_both _ _ _ _ _ _
          (check_field-combine (range_allows_nat float) decimal "entrypoint.maxToolChain"
            (intersect_range float) range_allows_nat-meet a.max_tool_chain b.max_tool_chain
            d.max_tool_chain)
          (check_field-combine (range_allows_nat float) decimal "entrypoint.minContextTokens"
            (intersect_range float) range_allows_nat-meet a.min_context_tokens b.min_context_tokens
            d.min_context_tokens))
        (check_field-combine enum_allows (λ v. v) "entrypoint.modelPreference" intersect_enum
          enum_allows-intersect_enum a.model_preference b.model_preference d.model_preference)

  violations-intersect_limits :
      (a b : AgentLimits float.Number) (d : AgentDefaults float.Number)
      → is_clean (violations float (intersect_limits float a b) d)
        ≡ (is_clean (violations float a d) && is_clean (violations float b d))
  unfolding violations intersect_limits
  violations-intersect_limits a b d =
      clean_both _ _ _ _ _ _
        (check_part-combine (check_entrypoint float) (intersect_entrypoint float)
          check_entrypoint-meet a.entrypoint b.entrypoint d.entrypoint)
        (check_part-combine (check_environment float) (intersect_environment float)
          check_environment-meet a.environment b.environment d.environment)

  check_defaults-is_clean :
      (a : AgentLimits float.Number) (d : AgentDefaults float.Number)
      → (check_defaults float a d ≡ ok tt) ↔ (is_clean (violations float a d) ≡ true)
  unfolding check_defaults
  check_defaults-is_clean a d = no_violations_iff (violations float a d)

  -- Defaults pass the intersection of two layers' limits exactly when they pass the limits of each layer.
  pub check_defaults-intersect_limits :
      (a b : AgentLimits float.Number) (d : AgentDefaults float.Number)
      → (check_defaults float (intersect_limits float a b) d ≡ ok tt)
        ↔ ((check_defaults float a d ≡ ok tt) × (check_defaults float b d ≡ ok tt))
  check_defaults-intersect_limits a b d = ground (
    arith,
    violations-intersect_limits a b d,
    check_defaults-is_clean (intersect_limits float a b) d,
    check_defaults-is_clean a d,
    check_defaults-is_clean b d,
  )
