-- ===== src/Base/Dict.antt =====
-- `HashMap<K, V>` as an association list. The iteration order of a `HashMap` is unspecified; here it
-- is the order of the list.
use Prim.Native.Nat.{◌+◌}
use mathlib.Core.Path.{◌≡◌, refl}
use mathlib.Core.Bool.{Bool, true, false}
use mathlib.Core.Option
use mathlib.Core.Option.{Option, none, some}
use mathlib.Core.List.{List, [], ◌∷◌, map}
use native.Mathlib.Omega.{arith}
use avix.Base.Tests.{if◌then◌else◌, Keyed, ◌==◌, beq_self}
use avix.Base.Lists.{length}

abbrev pub Dict {ℓ κ} : Type ℓ → Type κ → Type (ℓ ⊔ κ)
Dict K V = List (K × V)

module _ {ℓ κ} {K : Type ℓ} {V : Type κ} ⦃e : Keyed K⦄ where
  unfoldable pub insert : K → V → Dict K V → Dict K V
  insert key value [] = (key, value) ∷ []
  insert key value ((k, old) ∷ rest) =
      if k == key then (k, value) ∷ rest else (k, old) ∷ insert key value rest

  unfoldable pub get : K → Dict K V → Option V
  get key [] = none
  get key ((k, value) ∷ rest) = if k == key then some value else get key rest

  unfoldable pub remove : K → Dict K V → Dict K V
  remove k [] = []
  remove k ((j, w) ∷ m) = if j == k then remove k m else (j, w) ∷ remove k m

  -- `if let Some(v) = map.get_mut(k) { *v = f(v) }`
  unfoldable pub modify : K → (V → V) → Dict K V → Dict K V
  modify k f [] = []
  modify k f ((j, w) ∷ m) = if j == k then (j, f w) ∷ modify k f m else (j, w) ∷ modify k f m

  abbrev pub contains_key : K → Dict K V → Bool
  contains_key k m = elim (get k m) [ none ↦ false | some _ ↦ true ]

  abbrev pub keys : Dict K V → List K
  keys = map (λ p. p.0)

  abbrev pub values : Dict K V → List V
  values = map (λ p. p.1)

  pub get-insert :
      (key other : K) (value : V) (entries : Dict K V)
      → get other (insert key value entries)
        ≡ (if key == other then some value else get other entries)
  unfolding get insert
  get-insert key other value [] = ground arith
  get-insert key other value ((k, old) ∷ rest) =
      let ih = get-insert key other value rest in
      ground (arith, ih, e.equal_iff k key, e.equal_iff k other, e.equal_iff key other)

  pub get-remove :
      (k j : K) (m : Dict K V) → get j (remove k m) ≡ (if k == j then none else get j m)
  unfolding get remove
  get-remove k j [] = ground arith
  get-remove k j ((i, w) ∷ m) =
      ground (arith, e.equal_iff k j, e.equal_iff i k, e.equal_iff i j, get-remove k j m)

  pub get-modify :
      (k j : K) (f : V → V) (m : Dict K V)
      → get j (modify k f m) ≡ (if k == j then Option.map f (get j m) else get j m)
  unfolding get modify
  get-modify k j f [] = ground arith
  get-modify k j f ((i, w) ∷ m) =
      ground (arith, e.equal_iff k j, e.equal_iff i k, e.equal_iff i j, get-modify k j f m)

  pub length-modify : (k : K) (f : V → V) (m : Dict K V) → length (modify k f m) ≡ length m
  unfolding modify
  length-modify k f [] = refl
  length-modify k f ((i, w) ∷ m) = ground (arith, length-modify k f m)

  pub get-insert_self : (k : K) (v : V) (m : Dict K V) → get k (insert k v m) ≡ some v
  get-insert_self k v m = ground (arith, get-insert k k v m, beq_self k)

  pub get-remove_self : (k : K) (m : Dict K V) → get k (remove k m) ≡ none
  get-remove_self k m = ground (arith, get-remove k k m, beq_self k)

  pub length-insert :
      (k : K) (v : V) (m : Dict K V)
      → length (insert k v m) ≡ (if contains_key k m then length m else length m + 1)
  unfolding get insert
  length-insert k v [] = refl
  length-insert k v ((i, w) ∷ m) = ground (arith, length-insert k v m)
