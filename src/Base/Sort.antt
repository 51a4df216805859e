-- ===== src/Base/Sort.antt =====
-- Rust's `sort` on `Vec<String>`. Its order on `str` is that of the bytes, which for UTF-8 is that of the
-- code points.
use Prim.Native.Char.{code}
use Prim.Native.String.{String}
use mathlib.Core.Path.{◌≡◌, refl, ◌∙◌}
use mathlib.Core.Bool.{Bool, true, false}
use mathlib.Core.List.{List, [], ◌∷◌, Permᴰ}
use mathlib.Core.Logic.{◌⊎◌, inl, inr}
use native.Mathlib.Omega.{arith}
use text.Mathlib.TextEquality.{Char-path}
use avix.Base.Tests.{if◌then◌else◌, ltb, nat_beq}

unfoldable pub text_leb : String → String → Bool
text_leb String.[] t = true
text_leb (String.◌∷◌ c s) String.[] = false
text_leb (String.◌∷◌ c s) (String.◌∷◌ d t) =
    let rest = text_leb s t in if nat_beq (code c) (code d) then rest else ltb (code c) (code d)

text_leb_total : (s t : String) → (text_leb s t ≡ true) ⊎ (text_leb t s ≡ true)
unfolding text_leb
text_leb_total String.[] t = inl refl
text_leb_total (String.◌∷◌ c s) String.[] = inr refl
text_leb_total (String.◌∷◌ c s) (String.◌∷◌ d t) = ground (arith, text_leb_total s t)

text_leb_trans : (s t u : String) → text_leb s t ≡ true → text_leb t u ≡ true → text_leb s u ≡ true
unfolding text_leb
text_leb_trans String.[] t u h k = refl
text_leb_trans (String.◌∷◌ c s) String.[] u h k = absurd (ground arith)
text_leb_trans (String.◌∷◌ c s) (String.◌∷◌ d t) String.[] h k = absurd (ground arith)
text_leb_trans (String.◌∷◌ c s) (String.◌∷◌ d t) (String.◌∷◌ e u) h k =
    ground (arith, text_leb_trans s t u)

text_leb_antisymm : (s t : String) → text_leb s t ≡ true → text_leb t s ≡ true → s ≡ t
unfolding text_leb
text_leb_antisymm String.[] String.[] h k = refl
text_leb_antisymm String.[] (String.◌∷◌ d t) h k = absurd (ground arith)
text_leb_antisymm (String.◌∷◌ c s) String.[] h k = absurd (ground arith)
text_leb_antisymm (String.◌∷◌ c s) (String.◌∷◌ d t) h k =
    ground (arith, Char-path c d, text_leb_antisymm s t)

unfoldable pub insert_sorted : String → List String → List String
insert_sorted x [] = x ∷ []
insert_sorted x (y ∷ ys) =
    let rest = insert_sorted x ys in if text_leb x y then x ∷ y ∷ ys else y ∷ rest

unfoldable pub sort : List String → List String
unfolding insert_sorted text_leb
sort [] = []
sort (x ∷ xs) = insert_sorted x (sort xs)

insert_sorted_comm :
    (x y : String) (zs : List String)
    → insert_sorted x (insert_sorted y zs) ≡ insert_sorted y (insert_sorted x zs)
unfolding insert_sorted
insert_sorted_comm x y [] = ground (arith, text_leb_total x y, text_leb_antisymm x y)
insert_sorted_comm x y (z ∷ zs) = ground (
  arith,
  insert_sorted_comm x y zs,
  text_leb_total x y,
  text_leb_antisymm x y,
  text_leb_trans x y z,
  text_leb_trans y x z,
  text_leb_total x z,
  text_leb_total y z,
)

-- Sorting forgets the order.
pub sort_perm : {xs ys : List String} → Permᴰ xs ys → sort xs ≡ sort ys
unfolding sort
sort_perm Permᴰ.nil = refl
sort_perm (Permᴰ.cons e p) = ground (arith, sort_perm p)
sort_perm (Permᴰ.swap {a} {b} {a'} {b'} {l} e f) = ground (arith, insert_sorted_comm a b (sort l))
sort_perm (Permᴰ.trans p q) = sort_perm p ∙ sort_perm q
