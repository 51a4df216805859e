-- ===== src/ToolRegistry/Registry/Lookup.antt =====
-- What a lookup finds after tools were added or removed.
use avix.Base.{
  Bool, false, true, inl, inr, Bool-cases, ◌≡◌, refl, ◌∙◌, String, ◌&&◌, if◌then◌else◌, ◌==◌,
  string_eq, nat_eq, List, [], ◌∷◌, Option, none, some, arith, eq_iff, contains,
}
use avix.Base.Dict.{modify, get-modify, get, remove, get-insert, get-remove, contains_key}
use avix.Errors.{AvixError, Result, ok, err}
use avix.ToolRegistry.Registry.{
  mark_unavailable, marked, all_drained, remove_tools, ToolEntry, ToolRegistry, tool_missing,
  add_entry, add_entries, add, lookup, remove_names, remove_entries, send, removed_event,
}

module _ {Value : Type 0} where
  -- The last of the entries with this name
  abbrev pub last_named : String → List (ToolEntry Value) → Option (ToolEntry Value)
  last_named name [] = none
  last_named name (entry ∷ entries) = elim (last_named name entries) [
    | none ↦ if entry.name == name then some entry else none
    | some e ↦ some e
  ]

  abbrev pub or_lookup :
      Option (ToolEntry Value)
      → Result AvixError (ToolEntry Value)
      → Result AvixError (ToolEntry Value)
  or_lookup none r = r
  or_lookup (some e) r = ok e

  lookup-add_entry :
      (name : String) (entry : ToolEntry Value) (reg : ToolRegistry Value)
      → lookup name (add_entry entry reg)
        ≡ (if entry.name == name then ok entry else lookup name reg)
  unfolding lookup add_entry
  lookup-add_entry name entry reg = ground (
    arith,
    get-insert entry.name name (record { entry = entry; semaphore = reg.next_semaphore }) reg.inner,
  )

  lookup-add_entries :
      (name : String) (entries : List (ToolEntry Value)) (reg : ToolRegistry Value)
      → lookup name (add_entries entries reg)
        ≡ or_lookup (last_named name entries) (lookup name reg)
  unfolding add_entries
  lookup-add_entries name [] reg = refl
  lookup-add_entries name (entry ∷ entries) reg = ground (
    arith,
    lookup-add_entries name entries (add_entry entry reg),
    lookup-add_entry name entry reg,
  )

  lookup-send :
      (name op : String) (tools : List String) (reg : ToolRegistry Value)
      → lookup name (send op tools reg) ≡ lookup name reg
  unfolding lookup send
  lookup-send name op tools reg = refl

  -- After `add` a name gives the last of the added entries with that name, and what it gave before
  -- where there is none.
  pub lookup-add :
      (name : String) (entries : List (ToolEntry Value)) (reg : ToolRegistry Value)
      → lookup name (add entries reg) ≡ or_lookup (last_named name entries) (lookup name reg)
  unfolding add
  lookup-add name entries reg =
      lookup-send name "added" _ (add_entries entries reg) ∙ lookup-add_entries name entries reg

  get-remove_names :
      (name : String) (names : List String) (reg : ToolRegistry Value)
      → get name (remove_names names reg).1.inner
        ≡ (if contains names name then none else get name reg.inner)
  unfolding remove_names
  get-remove_names name [] reg = refl
  get-remove_names name (n ∷ names) reg = ground (
    arith,
    get-remove_names name names (record reg { inner = remove n reg.inner }),
    get-remove n name reg.inner,
  )

  contains-remove_names :
      (name : String) (names : List String) (reg : ToolRegistry Value)
      → contains (remove_names names reg).0 name
        ≡ (contains names name && contains_key name reg.inner)
  unfolding remove_names
  contains-remove_names name [] reg = refl
  contains-remove_names name (n ∷ names) reg = ground (
    arith,
    contains-remove_names name names (record reg { inner = remove n reg.inner }),
    get-remove n name reg.inner,
    eq_iff n name,
  )

  lookup-removed_event :
      (name : String) (removed : List String) (reason : String) (reg : ToolRegistry Value)
      → lookup name (removed_event removed reason reg) ≡ lookup name reg
  lookup-removed_event name [] reason reg = refl
  lookup-removed_event name (r ∷ removed) reason reg = lookup-send name _ (r ∷ removed) reg

  lookup-remove_names :
      (name : String) (names : List String) (reg : ToolRegistry Value)
      → lookup name (remove_names names reg).1
        ≡ (if contains names name then err (tool_missing name) else lookup name reg)
  unfolding lookup
  lookup-remove_names name names reg = ground (arith, get-remove_names name names reg)

  -- After `remove` the named tools are gone and all others give what they gave before; the names that
  -- the event reports are those that were asked for and were there.
  pub lookup-remove :
      (name : String) (names : List String) (reason : String) (reg : ToolRegistry Value)
      → (lookup name (remove_entries names reason reg)
          ≡ (if contains names name then err (tool_missing name) else lookup name reg))
        × (contains (remove_names names reg).0 name
            ≡ (contains names name && contains_key name reg.inner))
  unfolding remove_entries
  lookup-remove name names reason reg = (
    lookup-removed_event name _ reason (remove_names names reg).1
        ∙ lookup-remove_names name names reg,
    contains-remove_names name names reg,
  )

  get-mark_unavailable :
      (name : String) (names : List String) (reg : ToolRegistry Value)
      → contains names name ≡ false
      → get name (mark_unavailable names reg).inner ≡ get name reg.inner
  unfolding mark_unavailable
  get-mark_unavailable name [] reg h = refl
  get-mark_unavailable name (n ∷ names) reg h = ground (
    arith,
    get-mark_unavailable name names (record reg { inner = modify n marked reg.inner }),
    get-modify n name marked reg.inner,
  )

  lookup-remove_marked :
      (name : String) (names : List String) (reason : String) (reg : ToolRegistry Value)
      → lookup name (remove_entries names reason (mark_unavailable names reg))
        ≡ (if contains names name then err (tool_missing name) else lookup name reg)
  unfolding lookup
  lookup-remove_marked name names reason reg = ground (
    arith,
    (lookup-remove name names reason (mark_unavailable names reg)).0,
    get-mark_unavailable name names reg,
  )

  -- When `remove` returns, with or without waiting for running calls, the named tools are gone and every
  -- other name gives what it gave before.
  pub lookup-remove_tools :
      (name : String) (names : List String) (reason : String) (drain : Bool)
      (reg reg' : ToolRegistry Value)
      → remove_tools names reason drain reg ≡ some reg'
      → lookup name reg'
        ≡ (if contains names name then err (tool_missing name) else lookup name reg)
  unfolding remove_tools
  lookup-remove_tools name names reason true reg reg' h =
      elim (Bool-cases (all_drained names (mark_unavailable names reg))) [
        | inl e ↦ ground (arith, lookup-remove_marked name names reason reg)
        | inr e ↦ absurd (ground arith)
      ]
  lookup-remove_tools name names reason false reg reg' h =
      ground (arith, (lookup-remove name names reason reg).0)
