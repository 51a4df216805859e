-- ===== src/ToolRegistry/Scanner/Declared.antt =====
-- crates/avix-core/src/tool_registry/scanner.rs: which entries the files of a service give.
use avix.Base.{
  String, string_eq, Bool, true, false, List, [], ◌∷◌, map, keep, All, ◌≡◌, inl, inr, refl, ap,
  arith,
}
use avix.Errors.{ok, err, Result-cases}
use avix.Types.Tool.{parse}
use avix.ToolRegistry.Registry.{ToolEntry}
use avix.ToolRegistry.Scanner.{ToolDescriptor, entry_of, entries_of}

pub is_name : String → Bool
is_name s = elim (parse s) [ ok _ ↦ true | err _ ↦ false ]

parse-same : (s name : String) → parse s ≡ ok name → name ≡ s
unfolding parse
parse-same s name h = ground (arith, h)

module _ {Value : Type 0} (to_value : ToolDescriptor Value → Value) (service_name : String) where
  abbrev names_of : List (ToolDescriptor Value) → List String
  names_of = map (λ (d : ToolDescriptor Value). d.name)

  -- The tools of a service are those of its descriptors whose names are valid, in their order.
  pub names-entries_of :
      (descs : List (ToolDescriptor Value))
      → map (λ (e : ToolEntry Value). e.name) (entries_of to_value service_name descs)
        ≡ keep is_name (names_of descs)
  unfolding entries_of entry_of is_name
  names-entries_of [] = refl
  names-entries_of (desc ∷ descs) = elim (Result-cases (parse desc.name)) [
    | inl (name, e) ↦
        rw (e, parse-same desc.name name e, entries_of, entry_of, keep, is_name)
          (ap (λ names. desc.name ∷ names) (names-entries_of descs))
    | inr (x, e) ↦ rw (e, entries_of, keep, is_name) (names-entries_of descs)
  ]

  -- Each of them is owned by the service.
  pub owner-entries_of :
      (descs : List (ToolDescriptor Value))
      → All
          (λ (e : ToolEntry Value). e.owner ≡ service_name)
          (entries_of to_value service_name descs)
  unfolding entries_of entry_of
  owner-entries_of [] = tt
  owner-entries_of (desc ∷ descs) = elim (Result-cases (parse desc.name)) [
    | inl (name, e) ↦ rw (e, entries_of) (refl, owner-entries_of descs)
    | inr (x, e) ↦ rw (e, entries_of) (owner-entries_of descs)
  ]
