-- ===== src/Base/Lists.antt =====
-- Lists measured by native numbers, and the Boolean searches of Rust's iterators.
use Prim.Native.Nat.{ℕ, suc, ◌+◌, ◌≤◌}
use mathlib.Core.Path.{◌≡◌, refl, ap}
use mathlib.Core.Logic.{◌↔◌, ◌⊎◌, inl, inr}
use mathlib.Core.Bool.{Bool, true, false, ◌||◌}
use mathlib.Core.List.{List, [], ◌∷◌, ◌++◌}
use native.Mathlib.Omega.{arith}
use avix.Base.Tests.{if◌then◌else◌, Keyed, ◌==◌}

module _ {ℓ} {A : Type ℓ} where
  abbrev pub length : List A → ℕ
  length [] = 0
  length (x ∷ xs) = suc (length xs)

  pub length-append : (xs ys : List A) → length (xs ++ ys) ≡ length xs + length ys
  length-append [] ys = omega arith
  length-append (x ∷ xs) ys = omega (arith, length-append xs ys)

  pub append_nil : (xs : List A) → xs ++ [] ≡ xs
  append_nil [] = refl
  append_nil (x ∷ xs) = ap (λ l. x ∷ l) (append_nil xs)

  pub append_assoc : (xs ys zs : List A) → (xs ++ ys) ++ zs ≡ xs ++ (ys ++ zs)
  append_assoc [] ys zs = refl
  append_assoc (x ∷ xs) ys zs = ap (λ l. x ∷ l) (append_assoc xs ys zs)

  -- `iter().filter(p).cloned().collect()` and `retain`
  abbrev pub keep : (A → Bool) → List A → List A
  keep p [] = []
  keep p (x ∷ xs) = if p x then x ∷ keep p xs else keep p xs

  pub length-keep : (p : A → Bool) (xs : List A) → length (keep p xs) ≤ length xs
  length-keep p [] = omega arith
  length-keep p (x ∷ xs) = ground (arith, length-keep p xs)

  -- Every element satisfies `P`.
  abbrev pub All {κ} : (A → Type κ) → List A → Type κ
  All P [] = Unit
  All P (x ∷ xs) = P x × All P xs

module _ {ℓ} {A : Type ℓ} ⦃e : Keyed A⦄ where
  -- `contains(&a)`, and `iter().any(|x| x == a)`
  abbrev pub contains : List A → A → Bool
  contains [] a = false
  contains (x ∷ xs) a = x == a || contains xs a

  pub contains-append :
      (xs ys : List A) (a : A) → contains (xs ++ ys) a ≡ (contains xs a || contains ys a)
  contains-append [] ys a = refl
  contains-append (x ∷ xs) ys a = ground (arith, contains-append xs ys a)

  pub contains-keep :
      (p : A → Bool) (xs : List A) (a : A)
      → (contains (keep p xs) a ≡ true) ↔ ((contains xs a ≡ true) × (p a ≡ true))
  contains-keep p [] a = ground arith
  contains-keep p (x ∷ xs) a = ground (arith, e.equal_iff x a, contains-keep p xs a)

  -- `HashSet::insert`; a set is a list with no repetition.
  abbrev pub add_to : A → List A → List A
  add_to a xs = if contains xs a then xs else a ∷ xs

  pub contains-add_to :
      (a b : A) (xs : List A) → contains (add_to a xs) b ≡ (if a == b then true else contains xs b)
  contains-add_to a b xs = ground (arith, e.equal_iff a b)

  -- How often an element stands in a list, and the list without its first occurrence.
  abbrev pub count : A → List A → ℕ
  count a [] = 0
  count a (x ∷ xs) = if x == a then suc (count a xs) else count a xs

  abbrev pub drop_one : A → List A → List A
  drop_one a [] = []
  drop_one a (x ∷ xs) = if x == a then xs else x ∷ drop_one a xs

  pub count-drop_one :
      (a b : A) (xs : List A)
      → contains xs a ≡ true
      → count b xs ≡ (if a == b then suc (count b (drop_one a xs)) else count b (drop_one a xs))
  count-drop_one a b [] h = absurd (ground arith)
  count-drop_one a b (x ∷ xs) h =
      ground (arith, e.equal_iff x a, e.equal_iff x b, e.equal_iff a b, count-drop_one a b xs)

pub List-cases {ℓ} :
    {A : Type ℓ} (xs : List A) → (xs ≡ []) ⊎ ((x : A) × (rest : List A) × (xs ≡ x ∷ rest))
List-cases [] = inl refl
List-cases (x ∷ rest) = inr (x, rest, refl)
