-- ===== src/Kernel/Capabilities/Groups.antt =====
-- crates/avix-core/src/kernel/capability_resolver.rs: what a capability group says, by the texts alone.
use Prim.Native.Char.{Char, code}
use text.Mathlib.TextEquality.{starts_with_iff, Char-path}
use text.Mathlib.TextLemmas.{cons-append, nil-append}
use avix.Base.{
  String, string_eq, nat_eq, Bool, true, false, ◌&&◌, ◌||◌, ◌==◌, if◌then◌else◌, starts_with, ◌+++◌,
  Option, none, some, map_option, Bool-cases, ◌≡◌, ◌≢◌, ◌⊎◌, ◌↔◌, inl, inr, refl, sym, ap, ◌∙◌,
  arith,
}
use avix.ToolRegistry.Registry.{ToolEntry}
use avix.Kernel.Capabilities.{
  SyscallDescriptor, split_colon, or_all, parts_of, tool_prefix, covers_tool, covers_syscall,
}

pub NoColon : String → Type 0
NoColon String.[] = Unit
NoColon (String.◌∷◌ c s) = (code c ≢ 58) × NoColon s

-- A group is a namespace and a filter with the first colon between them; without a colon it is a
-- namespace, and the filter is `*`.
abbrev pub IsGroup : String → String → String → Type 0
IsGroup cap ns filter =
    (NoColon ns × (cap ≡ ns +++ String.◌∷◌ ":" filter))
    ⊎ (NoColon cap × (ns ≡ cap) × (filter ≡ "*"))

abbrev pub Begins : String → String → Type 0
Begins name prefix = (rest : String) × (prefix +++ rest ≡ name)

colon : (c : Char) → code c ≡ 58 → c ≡ ":"
colon c h = Char-path c ":" h

-- What is after the first colon comes back, with what is before it.
split_colon-append :
    (ns filter : String)
    → NoColon ns
    → split_colon (ns +++ String.◌∷◌ ":" filter) ≡ some (ns, filter)
unfolding split_colon NoColon
split_colon-append String.[] filter n = ap split_colon (nil-append (String.◌∷◌ ":" filter))
split_colon-append (String.◌∷◌ c s) filter (m, n) =
    ap split_colon (cons-append c s (String.◌∷◌ ":" filter))
    ∙ ground (arith, m, split_colon-append s filter n)

-- Before the first colon there is none.
split_colon-cons :
    (c : Char) (s : String)
    → split_colon (String.◌∷◌ c s) ≡ (
        if code c == 58
        then some ("", s)
        else map_option (λ (p : String × String). (String.◌∷◌ c p.0, p.1)) (split_colon s))
unfolding split_colon
split_colon-cons c s = refl

abbrev Splits : String → Option (String × String) → Type 0
Splits cap none = NoColon cap
Splits cap (some (ns, filter)) = NoColon ns × (cap ≡ ns +++ String.◌∷◌ ":" filter)

Splits-later :
    (c : Char) (s : String) (found : Option (String × String))
    → code c ≢ 58
    → Splits s found
    → Splits (String.◌∷◌ c s) (map_option (λ (p : String × String). (String.◌∷◌ c p.0, p.1)) found)
unfolding NoColon
Splits-later c s none m n = (m, n)
Splits-later c s (some (ns, filter)) m (n, e) =
    ((m, n), ap (λ t. String.◌∷◌ c t) e ∙ sym (cons-append c ns (String.◌∷◌ ":" filter)))

split_colon-Splits : (cap : String) → Splits cap (split_colon cap)
unfolding split_colon NoColon
split_colon-Splits String.[] = tt
split_colon-Splits (String.◌∷◌ c s) = elim (Bool-cases (code c == 58)) [
  | inl t ↦ rw (t) (
    tt,
    ap (λ d. String.◌∷◌ d s) (colon c ((nat_eq.equal_iff (code c) 58).0 t))
        ∙ sym (nil-append (String.◌∷◌ ":" s)),
  )
  | inr f ↦
      rw (f) (Splits-later c s (split_colon s) (λ h. ground (arith, f, h)) (split_colon-Splits s))
]

or_all-IsGroup :
    (cap : String) (found : Option (String × String))
    → Splits cap found
    → IsGroup cap (or_all cap found).0 (or_all cap found).1
or_all-IsGroup cap none n = inr (n, refl, refl)
or_all-IsGroup cap (some (ns, filter)) (n, e) = inl (n, e)

-- A capability is a group in one way, the one that is computed.
pub parts_of-IsGroup : (cap : String) → IsGroup cap (parts_of cap).0 (parts_of cap).1
unfolding parts_of
parts_of-IsGroup cap = or_all-IsGroup cap (split_colon cap) (split_colon-Splits cap)

split_colon-none : (cap : String) → NoColon cap → split_colon cap ≡ none
unfolding split_colon NoColon
split_colon-none String.[] n = refl
split_colon-none (String.◌∷◌ c s) (m, n) = ground (arith, m, split_colon-none s n)

pub parts_of_unique : (cap ns filter : String) → IsGroup cap ns filter → parts_of cap ≡ (ns, filter)
unfolding parts_of
parts_of_unique cap ns filter (inl (n, e)) =
    ap (λ c. or_all c (split_colon c)) e
    ∙ ap (or_all (ns +++ String.◌∷◌ ":" filter)) (split_colon-append ns filter n)
parts_of_unique cap ns filter (inr (n, e, f)) =
    ap (or_all cap) (split_colon-none cap n)
    ∙ ap (λ m. (m, "*")) (sym e)
    ∙ ap (λ g. (ns, g)) (sym f)

-- The tools that a group covers by name, and the system calls that it covers
abbrev pub IsTool : String → String → String → Type 0
IsTool ns filter name =
    ((filter ≡ "*") × Begins name (ns +++ "/"))
    ⊎ ((filter ≢ "*") × Begins name (ns +++ "/" +++ filter))

abbrev pub IsCall : String → String → (domain name : String) → Type 0
IsCall ns filter domain name =
    ((ns ≡ "kernel") × ((filter ≡ "*") ⊎ (domain ≡ filter)))
    ⊎ ((ns ≢ "kernel")
        × ((domain ≡ ns) × ((filter ≡ "*") ⊎ Begins name ("kernel/" +++ ns +++ "/" +++ filter))))

-- What a Boolean test decides, of the tests that it is made of
module _ {P Q : Type 0} where
  pub either_iff : (a b : Bool) → (a ≡ true) ↔ P → (b ≡ true) ↔ Q → ((a || b) ≡ true) ↔ (P ⊎ Q)
  either_iff true b p q = ((λ _. inl (p.0 refl)), (λ _. refl))
  either_iff false b p q =
      ((λ e. inr (q.0 e)), (λ c. elim c [ inl x ↦ absurd (ground (arith, p.1 x)) | inr y ↦ q.1 y ]))

  pub both_iff : (a b : Bool) → (a ≡ true) ↔ P → (b ≡ true) ↔ Q → ((a && b) ≡ true) ↔ (P × Q)
  both_iff true b p q = ((λ e. (p.0 refl, q.0 e)), (λ c. q.1 c.1))
  both_iff false b p q =
      ((λ e. absurd (ground (arith, e))), (λ c. absurd (ground (arith, p.1 c.0))))

  pub if_iff :
      {R : Type 0} (a b c : Bool)
      → (a ≡ true) ↔ P
      → (b ≡ true) ↔ Q
      → (c ≡ true) ↔ R
      → ((if a then b else c) ≡ true) ↔ ((P × Q) ⊎ ((P → ⊥) × R))
  if_iff true b c p q r = (
    (λ e. inl (p.0 refl, q.0 e)),
    (λ x. elim x [ inl (_, y) ↦ q.1 y | inr (n, _) ↦ absurd (n (p.0 refl)) ]),
  )
  if_iff false b c p q r = (
    (λ e. inr ((λ x. ground (arith, p.1 x)), r.0 e)),
    (λ x. elim x [ inl (y, _) ↦ absurd (ground (arith, p.1 y)) | inr (_, y) ↦ r.1 y ]),
  )

module _ {Value : Type 0} where
  pub covers_tool_iff :
      (ns filter : String) (t : ToolEntry Value)
      → (covers_tool ns filter t ≡ true) ↔ IsTool ns filter t.name
  covers_tool_iff ns filter t = elim (Bool-cases (filter == "*")) [
    | inl h ↦
        let star = (string_eq.equal_iff filter "*").0 h in
        rw (h, covers_tool, tool_prefix)
          (
            (λ c. inl (star, (starts_with_iff t.name (ns +++ "/")).0 c)),
            (λ c. elim c [
              | inl (_, b) ↦ (starts_with_iff t.name (ns +++ "/")).1 b
              | inr (n, _) ↦ absurd (n star)
            ]),
          )
    | inr h ↦
        let other : filter ≢ "*" = λ e. ground (arith, h, (string_eq.equal_iff filter "*").1 e) in
        rw (h, covers_tool, tool_prefix)
          (
            (λ c. inr (other, (starts_with_iff t.name (ns +++ "/" +++ filter)).0 c)),
            (λ c. elim c [
              | inl (e, _) ↦ absurd (other e)
              | inr (_, b) ↦ (starts_with_iff t.name (ns +++ "/" +++ filter)).1 b
            ]),
          )
  ]

  pub covers_syscall_iff :
      (ns filter : String) (s : SyscallDescriptor Value)
      → (covers_syscall ns filter s ≡ true) ↔ IsCall ns filter s.domain s.name
  covers_syscall_iff ns filter s =
      let star = string_eq.equal_iff filter "*" in
      let prefix = "kernel/" +++ ns +++ "/" +++ filter in
      if_iff (ns == "kernel") _ _ (string_eq.equal_iff ns "kernel")
        (either_iff (filter == "*") (s.domain == filter) star (string_eq.equal_iff s.domain filter))
        (both_iff (s.domain == ns) _ (string_eq.equal_iff s.domain ns) (
          either_iff (filter == "*") (starts_with s.name prefix) star
            (starts_with_iff s.name prefix)))
