-- ===== src/Types/Tool/Mangling.antt =====
-- When a tool name survives the wire: `unmangle` after `mangle`.
use Prim.Native.Char.{Char, code}
use text.Mathlib.TextEquality.{Char-path}
use text.Mathlib.TextLemmas.{head-eq_of_cons-eq, tail-eq_of_cons-eq}
use avix.Base.{◌≡◌, ◌≢◌, ◌↔◌, ◌⊎◌, inl, inr, refl, sym, ap, ◌∙◌, String, nat_eq, arith}
use native.Mathlib.Decide.{ℕ_discrete}
use avix.Types.Tool.{mangle, unmangle}

-- No underscore is directly followed by another underscore or by a slash.
abbrev pub Follows : Char → Char → Type 0
Follows c d = code c ≡ b'_' → (code d ≢ b'_') × (code d ≢ b'/')

abbrev pub IsWireSafe : String → Type 0
IsWireSafe String.[] = Unit {0}
IsWireSafe (String.◌∷◌ c String.[]) = Unit {0}
IsWireSafe (String.◌∷◌ c (String.◌∷◌ d s)) = Follows c d × IsWireSafe (String.◌∷◌ d s)

mangle_slash :
    (c : Char) (s : String)
    → code c ≡ b'/'
    → mangle (String.◌∷◌ c s) ≡ String.◌∷◌ "_" (String.◌∷◌ "_" (mangle s))
unfolding mangle
mangle_slash c s h = ground arith

mangle_other :
    (c : Char) (s : String) → code c ≢ b'/' → mangle (String.◌∷◌ c s) ≡ String.◌∷◌ c (mangle s)
unfolding mangle
mangle_other c s h = ground arith

unmangle_pair :
    (c d : Char) (s : String)
    → code c ≡ b'_'
    → code d ≡ b'_'
    → unmangle (String.◌∷◌ c (String.◌∷◌ d s)) ≡ String.◌∷◌ "/" (unmangle s)
unfolding unmangle
unmangle_pair c d s h k = ground arith

unmangle_single :
    (c d : Char) (s : String)
    → (code c ≢ b'_') ⊎ (code d ≢ b'_')
    → unmangle (String.◌∷◌ c (String.◌∷◌ d s)) ≡ String.◌∷◌ c (unmangle (String.◌∷◌ d s))
unfolding unmangle
unmangle_single c d s h = ground arith

unmangle_other :
    (c : Char) (s : String) → code c ≢ b'_' → unmangle (String.◌∷◌ c s) ≡ String.◌∷◌ c (unmangle s)
unfolding unmangle
unmangle_other c String.[] h = refl
unmangle_other c (String.◌∷◌ d s) h = ground arith

slash_first : (c : Char) {s t : String} → String.◌∷◌ "/" s ≡ String.◌∷◌ c t → code c ≡ b'/'
slash_first c e = ap code (sym (head-eq_of_cons-eq e))

roundtrip_slash :
    (c : Char) (s : String)
    → code c ≡ b'/'
    → unmangle (mangle (String.◌∷◌ c s)) ≡ String.◌∷◌ c (unmangle (mangle s))
roundtrip_slash c s h = rw (mangle_slash c s h) (
    unmangle_pair "_" "_" (mangle s) refl refl
    ∙ ap (λ x. String.◌∷◌ x (unmangle (mangle s))) (Char-path "/" c (sym h)))

roundtrip_other :
    (c : Char) (s : String)
    → code c ≢ b'/'
    → code c ≢ b'_'
    → unmangle (mangle (String.◌∷◌ c s)) ≡ String.◌∷◌ c (unmangle (mangle s))
roundtrip_other c s h k = rw (mangle_other c s h) (unmangle_other c (mangle s) k)

roundtrip_underscore :
    (c d : Char) (s : String)
    → code c ≡ b'_'
    → code d ≢ b'_'
    → code d ≢ b'/'
    → unmangle (mangle (String.◌∷◌ c (String.◌∷◌ d s)))
      ≡ String.◌∷◌ c (unmangle (mangle (String.◌∷◌ d s)))
roundtrip_underscore c d s h k l =
    rw (mangle_other c (String.◌∷◌ d s) (λ e. omega arith), mangle_other d s l)
      (unmangle_single c d (mangle s) (inr k))

-- Where an underscore is followed by an underscore or a slash, the text comes back with a slash.
broken :
    (c d : Char) (s : String)
    → code c ≡ b'_'
    → (code d ≡ b'_') ⊎ (code d ≡ b'/')
    → (rest : String) × (unmangle (mangle (String.◌∷◌ c (String.◌∷◌ d s))) ≡ String.◌∷◌ "/" rest)
broken c d s h (inl k) = (
  unmangle (mangle s),
  rw (mangle_other c (String.◌∷◌ d s) (λ e. omega arith), mangle_other d s (λ e. omega arith))
      (unmangle_pair c d (mangle s) h k),
)
broken c d s h (inr k) = (
  unmangle (String.◌∷◌ "_" (mangle s)),
  rw (mangle_other c (String.◌∷◌ d s) (λ e. omega arith), mangle_slash d s k)
      (unmangle_pair c "_" (String.◌∷◌ "_" (mangle s)) h refl),
)

safe-roundtrip : (s : String) → IsWireSafe s → unmangle (mangle s) ≡ s
unfolding mangle unmangle
safe-roundtrip String.[] h = refl
safe-roundtrip (String.◌∷◌ c String.[]) h = elim (ℕ_discrete (code c) b'/') [
  | yes p ↦ roundtrip_slash c "" p
  | no p ↦ ground arith
]
safe-roundtrip (String.◌∷◌ c (String.◌∷◌ d s)) (f, h) =
    let tail_ok = ap (String.◌∷◌ c) (safe-roundtrip (String.◌∷◌ d s) h) in
    elim (ℕ_discrete (code c) b'/') [
      | yes p ↦ roundtrip_slash c (String.◌∷◌ d s) p ∙ tail_ok
      | no p ↦ elim (ℕ_discrete (code c) b'_') [
        | yes q ↦ roundtrip_underscore c d s q (f q).0 (f q).1 ∙ tail_ok
        | no q ↦ roundtrip_other c (String.◌∷◌ d s) p q ∙ tail_ok
      ]
    ]

roundtrip-safe : (s : String) → unmangle (mangle s) ≡ s → IsWireSafe s
roundtrip-safe String.[] e = tt
roundtrip-safe (String.◌∷◌ c String.[]) e = tt
roundtrip-safe (String.◌∷◌ c (String.◌∷◌ d s)) e = elim (ℕ_discrete (code c) b'/') [
  | yes p ↦ (
    (λ q. absurd (omega arith)),
    roundtrip-safe (String.◌∷◌ d s)
        (tail-eq_of_cons-eq (sym (roundtrip_slash c (String.◌∷◌ d s) p) ∙ e)),
  )
  | no p ↦ elim (ℕ_discrete (code c) b'_') [
    | yes q ↦ elim (ℕ_discrete (code d) b'_') [
      | yes r ↦ absurd (p (slash_first c (sym (broken c d s q (inl r)).1 ∙ e)))
      | no r ↦ elim (ℕ_discrete (code d) b'/') [
        | yes l ↦ absurd (p (slash_first c (sym (broken c d s q (inr l)).1 ∙ e)))
        | no l ↦ (
          (λ _. (r, l)),
          roundtrip-safe (String.◌∷◌ d s)
              (tail-eq_of_cons-eq (sym (roundtrip_underscore c d s q r l) ∙ e)),
        )
      ]
    ]
    | no q ↦ (
      (λ h. absurd (q h)),
      roundtrip-safe (String.◌∷◌ d s)
          (tail-eq_of_cons-eq (sym (roundtrip_other c (String.◌∷◌ d s) p q) ∙ e)),
    )
  ]
]

-- A tool name comes back from the wire unchanged exactly when it has no underscore directly before
-- another underscore or a slash.
pub unmangle-mangle_iff : (s : String) → (unmangle (mangle s) ≡ s) ↔ IsWireSafe s
unmangle-mangle_iff s = (roundtrip-safe s, safe-roundtrip s)
