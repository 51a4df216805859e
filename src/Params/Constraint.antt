-- ===== src/Params/Constraint.antt =====
-- crates/avix-core/src/params/constraint.rs. A number of type `f64` is an element of a weak order, which
-- the numbers of that type other than NaN are.
pub mod Meet
use avix.Base.{
  ℕ, String, Bool, true, false, not, ◌&&◌, if◌then◌else◌, ◌==◌, string_eq, List, contains, keep,
  Option, none, some, ◌≡◌, ◌⊎◌,
}

pub record Float : Type 1 where
  pub Number : Type 0
  pub less : Number → Number → Bool
  pub of_nat : ℕ → Number
  pub show : Number → String
  pub less_irrefl : (a : Number) → less a a ≡ false
  pub less_trans : (a b c : Number) → less a b ≡ true → less b c ≡ true → less a c ≡ true
  pub less_split : (a b c : Number) → less a c ≡ true → (less a b ≡ true) ⊎ (less b c ≡ true)

pub record RangeConstraint (Number : Type 0) : Type 0 where
  pub min : Option Number
  pub max : Option Number

-- Where both sides say something, `f` decides.
abbrev pub combine : {A : Type 0} → (A → A → A) → Option A → Option A → Option A
combine f (some a) (some b) = some (f a b)
combine f (some a) none = some a
combine f none (some b) = some b
combine f none none = none

module _ (float : Float) where
  abbrev pub float_max : float.Number → float.Number → float.Number
  float_max a b = if float.less a b then b else a

  abbrev pub float_min : float.Number → float.Number → float.Number
  float_min a b = if float.less b a then b else a

  unfoldable pub intersect_range :
      RangeConstraint float.Number → RangeConstraint float.Number → RangeConstraint float.Number
  intersect_range c other = record {
    min = combine float_max c.min other.min;
    max = combine float_min c.max other.max;
  }

  abbrev pub above : Option float.Number → float.Number → float.Number
  above none v = v
  above (some lo) v = float_max v lo

  abbrev pub below : Option float.Number → float.Number → float.Number
  below none v = v
  below (some hi) v = float_min v hi

  unfoldable pub clamp : RangeConstraint float.Number → float.Number → float.Number
  clamp c v = below c.max (above c.min v)

  abbrev pub too_low : Option float.Number → float.Number → Bool
  too_low none v = false
  too_low (some lo) v = float.less v lo

  abbrev pub too_high : Option float.Number → float.Number → Bool
  too_high none v = false
  too_high (some hi) v = float.less hi v

  unfoldable pub range_allows : RangeConstraint float.Number → float.Number → Bool
  range_allows c v = if too_low c.min v then false else not (too_high c.max v)

pub record EnumConstraint : Type 0 where
  pub values : List String

unfoldable pub intersect_enum : EnumConstraint → EnumConstraint → EnumConstraint
intersect_enum c other = record { values = keep (λ v. contains other.values v) c.values }

unfoldable pub enum_allows : EnumConstraint → String → Bool
enum_allows c v = contains c.values v

pub record SetConstraint : Type 0 where
  pub allowed : List String

unfoldable pub intersect_set : SetConstraint → SetConstraint → SetConstraint
intersect_set c other = record { allowed = keep (λ v. contains other.allowed v) c.allowed }

unfoldable pub set_allows : SetConstraint → String → Bool
set_allows c item = contains c.allowed item

unfoldable pub set_filter : SetConstraint → List String → List String
unfolding set_allows
set_filter c items = keep (λ v. set_allows c v) items

pub record BoolConstraint : Type 0 where
  pub locked : Option Bool

abbrev pub same_bool : Bool → Bool → Bool
same_bool true b = b
same_bool false b = not b

unfoldable pub bool_allows : BoolConstraint → Bool → Bool
bool_allows c v = elim c.locked [ none ↦ true | some b ↦ same_bool v b ]

abbrev pub first_of : Option Bool → Option Bool → Option Bool
first_of none b = b
first_of (some a) b = some a

unfoldable pub intersect_bool : BoolConstraint → BoolConstraint → BoolConstraint
intersect_bool c other = record { locked = first_of c.locked other.locked }
