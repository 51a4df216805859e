-- ===== src/Base/SortBy.antt =====
-- Rust's `sort_by_key` on keys that are numbers, which keeps the order of elements of the same key.
use Prim.Native.Nat.{ℕ, ◌≤◌}
use mathlib.Core.Path.{refl}
use mathlib.Core.List.{List, [], ◌∷◌, Permᴰ}
use mathlib.Core.Logic.{inl, inr}
use native.Mathlib.Omega.{arith}
use avix.Base.Tests.{if◌then◌else◌, leb, Bool-cases}
use avix.Base.Lists.{All}

module _ {A : Type 0} (key : A → ℕ) where
  unfoldable pub insert_by : A → List A → List A
  insert_by x [] = x ∷ []
  insert_by x (y ∷ ys) =
      let rest = insert_by x ys in if leb (key x) (key y) then x ∷ y ∷ ys else y ∷ rest

  unfoldable pub sort_by : List A → List A
  unfolding insert_by
  sort_by [] = []
  sort_by (x ∷ xs) = insert_by x (sort_by xs)

  abbrev pub IsAscending : List A → Type 0
  IsAscending [] = Unit
  IsAscending (x ∷ xs) = All (λ y. key x ≤ key y) xs × IsAscending xs

  perm_refl : (xs : List A) → Permᴰ xs xs
  perm_refl [] = Permᴰ.nil
  perm_refl (x ∷ xs) = Permᴰ.cons refl (perm_refl xs)

  insert_by_perm : (x : A) (ys : List A) → Permᴰ (insert_by x ys) (x ∷ ys)
  unfolding insert_by
  insert_by_perm x [] = perm_refl (x ∷ [])
  insert_by_perm x (y ∷ ys) = elim (Bool-cases (leb (key x) (key y))) [
    | inl t ↦ rw (insert_by, t) (perm_refl (x ∷ y ∷ ys))
    | inr f ↦
        rw (insert_by, f)
          (Permᴰ.trans (Permᴰ.cons refl (insert_by_perm x ys)) (Permᴰ.swap refl refl))
  ]

  pub sort_by_perm : (xs : List A) → Permᴰ (sort_by xs) xs
  unfolding sort_by
  sort_by_perm [] = Permᴰ.nil
  sort_by_perm (x ∷ xs) =
      Permᴰ.trans (insert_by_perm x (sort_by xs)) (Permᴰ.cons refl (sort_by_perm xs))

  All-insert_by :
      (a : ℕ) (x : A) (ys : List A)
      → a ≤ key x
      → All (λ y. a ≤ key y) ys
      → All (λ y. a ≤ key y) (insert_by x ys)
  unfolding insert_by
  All-insert_by a x [] h k = (h, tt)
  All-insert_by a x (y ∷ ys) h (k, ks) = elim (Bool-cases (leb (key x) (key y))) [
    | inl t ↦ rw (insert_by, t) (h, (k, ks))
    | inr f ↦ rw (insert_by, f) (k, All-insert_by a x ys h ks)
  ]

  All-weaken : (a b : ℕ) (ys : List A) → a ≤ b → All (λ y. b ≤ key y) ys → All (λ y. a ≤ key y) ys
  All-weaken a b [] h ks = tt
  All-weaken a b (y ∷ ys) h (k, ks) = (omega (arith, h, k), All-weaken a b ys h ks)

  insert_by-IsAscending : (x : A) (ys : List A) → IsAscending ys → IsAscending (insert_by x ys)
  unfolding insert_by
  insert_by-IsAscending x [] h = (tt, tt)
  insert_by-IsAscending x (y ∷ ys) (k, ks) = elim (Bool-cases (leb (key x) (key y))) [
    | inl t ↦
        rw (insert_by, t)
          ((ground (arith, t), All-weaken (key x) (key y) ys (ground (arith, t)) k), (k, ks))
    | inr f ↦
        rw (insert_by, f)
          (All-insert_by (key y) x ys (ground (arith, f)) k, insert_by-IsAscending x ys ks)
  ]

  pub sort_by-IsAscending : (xs : List A) → IsAscending (sort_by xs)
  unfolding sort_by
  sort_by-IsAscending [] = tt
  sort_by-IsAscending (x ∷ xs) = insert_by-IsAscending x (sort_by xs) (sort_by-IsAscending xs)
