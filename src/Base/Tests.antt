-- ===== src/Base/Tests.antt =====
-- Boolean tests, the conditional, and equality as an interface (Rust's `PartialEq` and `Keyed`).
use Prim.Native.Nat.{ℕ, compare, Ordering}
use Prim.Native.String.{String}
use mathlib.Core.Path.{◌≡◌, refl}
use mathlib.Core.Logic.{◌↔◌, ◌⊎◌, inl, inr, ◌≢◌}
use mathlib.Core.Bool.{Bool, true, false}
use mathlib.Core.Option.{Option, none, some}
use native.Mathlib.Omega.{arith}
use text.Mathlib.Text.{◌==◌ as str_beq}
use text.Mathlib.TextEquality.{eq_iff}

-- These compute to `compare`, which `ground` and `grind` read with no lemma listed.
abbrev pub ltb : ℕ → ℕ → Bool
ltb a b = elim (compare a b) [ Ordering.lt ↦ true | _ ↦ false ]

abbrev pub leb : ℕ → ℕ → Bool
leb a b = elim (compare a b) [ Ordering.gt ↦ false | _ ↦ true ]

abbrev pub nat_beq : ℕ → ℕ → Bool
nat_beq a b = elim (compare a b) [ Ordering.eq ↦ true | _ ↦ false ]

infix 1 if◌then◌else◌
abbrev pub if◌then◌else◌ {ℓ} : {A : Type ℓ} → Bool → A → A → A
if true then x else y = x
if false then x else y = y

pub nat_beq_iff : (a b : ℕ) → (nat_beq a b ≡ true) ↔ (a ≡ b)
nat_beq_iff a b = ground arith

-- A type whose values a map can have for keys.
pub record Keyed {ℓ} (A : Type ℓ) : Type ℓ where
  pub equal : A → A → Bool
  pub equal_iff : (x y : A) → (equal x y ≡ true) ↔ (x ≡ y)

abbrev pub string_beq : String → String → Bool
string_beq s t = str_beq s t

instance abbrev pub string_eq : Keyed String
string_eq = record { equal = string_beq; equal_iff = eq_iff }

instance abbrev pub nat_eq : Keyed ℕ
nat_eq = record { equal = nat_beq; equal_iff = nat_beq_iff }

abbrev pub ◌==◌ {ℓ} : {A : Type ℓ} ⦃keyed : Keyed A⦄ → A → A → Bool
◌==◌ ⦃keyed⦄ x y = keyed.equal x y

infix 50 ◌==◌
-- Both answers of a test, as facts.
pub beq_self {ℓ} : {A : Type ℓ} ⦃e : Keyed A⦄ (a : A) → (a == a) ≡ true
beq_self ⦃e⦄ a = (e.equal_iff a a).1 refl

pub eq_of_beq {ℓ} : {A : Type ℓ} ⦃e : Keyed A⦄ (a b : A) → (a == b) ≡ true → a ≡ b
eq_of_beq ⦃e⦄ a b h = (e.equal_iff a b).0 h

pub ne_of_beq {ℓ} : {A : Type ℓ} ⦃e : Keyed A⦄ (a b : A) → (a == b) ≡ false → a ≢ b
ne_of_beq ⦃e⦄ a b h = ground (arith, h, e.equal_iff a b)

pub eq-false_of_ne {ℓ} : {A : Type ℓ} ⦃e : Keyed A⦄ (a b : A) → a ≢ b → (a == b) ≡ false
eq-false_of_ne ⦃e⦄ a b h = ground (arith, e.equal_iff a b)

-- To split on a computed value and keep the equation.
pub Bool-cases : (b : Bool) → (b ≡ true) ⊎ (b ≡ false)
Bool-cases true = inl refl
Bool-cases false = inr refl

pub Option-cases {ℓ} : {A : Type ℓ} (o : Option A) → (o ≡ none) ⊎ ((a : A) × (o ≡ some a))
Option-cases none = inl refl
Option-cases (some a) = inr (a, refl)

-- `Option::unwrap_or` and `Option::and_then`
abbrev pub unwrap_or {ℓ} : {A : Type ℓ} → A → Option A → A
unwrap_or a none = a
unwrap_or a (some b) = b

abbrev pub and_then {ℓ κ} : {A : Type ℓ} {B : Type κ} → Option A → (A → Option B) → Option B
and_then none f = none
and_then (some a) f = f a

abbrev pub map_option {ℓ κ} : {A : Type ℓ} {B : Type κ} → (A → B) → Option A → Option B
map_option f none = none
map_option f (some a) = some (f a)
