-- ===== src/Params/Constraint/Meet.antt =====
-- What an intersection allows.
use avix.Base.{
  String, true, false, not, ◌&&◌, string_eq, contains, contains-keep, Option, none, some, ◌≡◌, ◌↔◌,
  refl, arith,
}
use avix.Params.Constraint.{
  Float, RangeConstraint, combine, float_max, float_min, too_low, too_high, intersect_range,
  range_allows, clamp, above, below, EnumConstraint, intersect_enum, enum_allows,
}

module _ (float : Float) where
  low_meet :
      (a b : Option float.Number) (v : float.Number)
      → not (too_low float (combine (float_max float) a b) v)
        ≡ (not (too_low float a v) && not (too_low float b v))
  low_meet none none v = refl
  low_meet none (some b) v = refl
  low_meet (some a) none v = ground arith
  low_meet (some a) (some b) v = ground (arith, float.less_trans v a b, float.less_split v a b)

  high_meet :
      (a b : Option float.Number) (v : float.Number)
      → not (too_high float (combine (float_min float) a b) v)
        ≡ (not (too_high float a v) && not (too_high float b v))
  high_meet none none v = refl
  high_meet none (some b) v = refl
  high_meet (some a) none v = ground arith
  high_meet (some a) (some b) v = ground (arith, float.less_trans b a v, float.less_split b a v)

  pub range_allows-intersect_range :
      (c d : RangeConstraint float.Number) (v : float.Number)
      → range_allows float (intersect_range float c d) v
        ≡ (range_allows float c v && range_allows float d v)
  unfolding range_allows intersect_range
  range_allows-intersect_range c d v =
      ground (arith, low_meet c.min d.min v, high_meet c.max d.max v)

  InRange : Option float.Number → Option float.Number → float.Number → Type 0
  InRange lo hi v = (too_low float lo v ≡ false) × (too_high float hi v ≡ false)

  clamp-InRange :
      (lo hi : Option float.Number) (u v : float.Number)
      → InRange lo hi u
      → InRange lo hi (below float hi (above float lo v))
        × (InRange lo hi v → below float hi (above float lo v) ≡ v)
  unfolding InRange
  clamp-InRange none none u v h = ground arith
  clamp-InRange none (some hi) u v h = ground (arith, float.less_irrefl hi)
  clamp-InRange (some lo) none u v h = ground (arith, float.less_irrefl lo)
  clamp-InRange (some lo) (some hi) u v h =
      ground (arith, float.less_irrefl lo, float.less_irrefl hi, float.less_split hi u lo)

  range_allows-InRange :
      (c : RangeConstraint float.Number) (v : float.Number)
      → (range_allows float c v ≡ true) ↔ InRange c.min c.max v
  unfolding range_allows InRange
  range_allows-InRange c v = ground arith

  -- Where a range allows anything, clamping into it gives something that it allows, and leaves alone
  -- what it already allows.
  pub range_allows-clamp :
      (c : RangeConstraint float.Number) (u v : float.Number)
      → range_allows float c u ≡ true
      → (range_allows float c (clamp float c v) ≡ true)
        × (range_allows float c v ≡ true → clamp float c v ≡ v)
  unfolding clamp
  range_allows-clamp c u v h =
      let (inside, same) = clamp-InRange c.min c.max u v ((range_allows-InRange c u).0 h) in
      (
        (range_allows-InRange c (clamp float c v)).1 inside,
        λ k. same ((range_allows-InRange c v).0 k),
      )

pub enum_allows-intersect_enum :
    (c d : EnumConstraint) (v : String)
    → enum_allows (intersect_enum c d) v ≡ (enum_allows c v && enum_allows d v)
unfolding enum_allows intersect_enum
enum_allows-intersect_enum c d v =
    ground (arith, contains-keep (λ x. contains d.values x) c.values v)
