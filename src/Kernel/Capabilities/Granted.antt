-- ===== src/Kernel/Capabilities/Granted.antt =====
-- crates/avix-core/src/kernel/capability_resolver.rs with router/capability.rs: which calls the capabilities of
-- a manifest allow.
use avix.Base.{
  ℕ, String, string_eq, Bool, true, false, ◌&&◌, ◌||◌, ◌==◌, List, [], ◌∷◌, map, keep, contains,
  add_to, contains-add_to, some, Bool-cases, ◌≡◌, ◌⊎◌, ◌↔◌, inl, inr, refl, sym, subst, arith,
}
use avix.Base.Sort.{insert_sorted, sort}
use avix.Process.Table.{ProcessEntry, ProcessTable, get_entry}
use avix.Errors.{ok}
use avix.Router.Capability.{always_present, check_entry, check_capability}
use avix.ToolRegistry.Registry.{ToolEntry, ToolRegistry, get_all_entries}
use avix.Kernel.Capabilities.Groups.{
  IsGroup, IsTool, IsCall, parts_of-IsGroup, parts_of_unique, either_iff, both_iff, covers_tool_iff,
  covers_syscall_iff,
}
use avix.Kernel.Capabilities.{
  SyscallDescriptor, parts_of, covers_syscall, covers_tool, grant, grant_capability,
  grant_capabilities, resolve_capabilities,
}

-- An element of the list is as described.
abbrev pub Some : {A : Type 0} → (A → Type 0) → List A → Type 0
Some P [] = ⊥
Some P (x ∷ xs) = P x ⊎ Some P xs

contains_iff : (a : String) (xs : List String) → (contains xs a ≡ true) ↔ Some (λ x. x ≡ a) xs
contains_iff a [] = ((λ e. ground (arith, e)), (λ x. absurd x))
contains_iff a (x ∷ xs) =
    either_iff (x == a) (contains xs a) (string_eq.equal_iff x a) (contains_iff a xs)

contains-insert_sorted :
    (x a : String) (ys : List String) → contains (insert_sorted x ys) a ≡ (x == a || contains ys a)
unfolding insert_sorted
contains-insert_sorted x a [] = refl
contains-insert_sorted x a (y ∷ ys) = ground (arith, contains-insert_sorted x a ys)

contains-sort : (a : String) (xs : List String) → contains (sort xs) a ≡ contains xs a
unfolding sort
contains-sort a [] = refl
contains-sort a (x ∷ xs) = ground (arith, contains-insert_sorted x a (sort xs), contains-sort a xs)

contains-grant :
    (a : String) (names granted : List String)
    → contains (grant names granted) a ≡ (contains names a || contains granted a)
contains-grant a [] granted = refl
contains-grant a (name ∷ names) granted =
    ground (arith, contains-grant a names (add_to name granted), contains-add_to name a granted)

module _ {Value : Type 0} where
  -- A capability covers a name where a tool or a system call of the name is one that it covers.
  abbrev pub names_tool : String → String → String → List (ToolEntry Value) → Bool
  names_tool ns filter name [] = false
  names_tool ns filter name (t ∷ ts) =
      t.name == name && covers_tool ns filter t || names_tool ns filter name ts

  abbrev pub names_syscall : String → String → String → List (SyscallDescriptor Value) → Bool
  names_syscall ns filter name [] = false
  names_syscall ns filter name (s ∷ ss) =
      s.name == name && covers_syscall ns filter s || names_syscall ns filter name ss

  contains-tools :
      (ns filter name : String) (ts : List (ToolEntry Value))
      → contains (map (λ t. t.name) (keep (covers_tool ns filter) ts)) name
        ≡ names_tool ns filter name ts
  contains-tools ns filter name [] = refl
  contains-tools ns filter name (t ∷ ts) = elim (Bool-cases (covers_tool ns filter t)) [
    | inl h ↦ ground (arith, h, contains-tools ns filter name ts)
    | inr h ↦ ground (arith, h, contains-tools ns filter name ts)
  ]

  contains-syscalls :
      (ns filter name : String) (ss : List (SyscallDescriptor Value))
      → contains (map (λ s. s.name) (keep (covers_syscall ns filter) ss)) name
        ≡ names_syscall ns filter name ss
  contains-syscalls ns filter name [] = refl
  contains-syscalls ns filter name (s ∷ ss) = elim (Bool-cases (covers_syscall ns filter s)) [
    | inl h ↦ ground (arith, h, contains-syscalls ns filter name ss)
    | inr h ↦ ground (arith, h, contains-syscalls ns filter name ss)
  ]

  -- Whether one of the capabilities covers the name
  abbrev pub asked_for :
      List (ToolEntry Value) → List (SyscallDescriptor Value) → String → List String → Bool
  asked_for tools syscalls name [] = false
  asked_for tools syscalls name (cap ∷ caps) =
      (names_tool (parts_of cap).0 (parts_of cap).1 name tools
        || names_syscall (parts_of cap).0 (parts_of cap).1 name syscalls)
      || asked_for tools syscalls name caps

  module _ (tools : List (ToolEntry Value)) (syscalls : List (SyscallDescriptor Value)) where
    contains-grant_capability :
        (name cap : String) (granted : List String)
        → contains (grant_capability tools syscalls cap granted) name ≡ (
            names_tool (parts_of cap).0 (parts_of cap).1 name tools
            || names_syscall (parts_of cap).0 (parts_of cap).1 name syscalls
            || contains granted name)
    contains-grant_capability name cap granted =
        let ns = (parts_of cap).0 in
        let filter = (parts_of cap).1 in
        let from_syscalls =
          grant (map (λ s. s.name) (keep (covers_syscall ns filter) syscalls)) granted in
        ground (
          arith,
          contains-grant name (map (λ t. t.name) (keep (covers_tool ns filter) tools))
              from_syscalls,
          contains-grant name (map (λ s. s.name) (keep (covers_syscall ns filter) syscalls))
              granted,
          contains-tools ns filter name tools,
          contains-syscalls ns filter name syscalls,
        )

    contains-grant_capabilities :
        (name : String) (caps granted : List String)
        → contains (grant_capabilities tools syscalls caps granted) name
          ≡ (asked_for tools syscalls name caps || contains granted name)
    contains-grant_capabilities name [] granted = refl
    contains-grant_capabilities name (cap ∷ caps) granted = ground (
      arith,
      contains-grant_capabilities name caps (grant_capability tools syscalls cap granted),
      contains-grant_capability name cap granted,
    )

  -- What is granted are the tools and the system calls that a capability covers, and those always present.
  pub contains-resolve_capabilities :
      (registry : ToolRegistry Value) (syscalls : List (SyscallDescriptor Value))
      (caps : List String) (name : String)
      → contains (resolve_capabilities registry syscalls caps) name
        ≡ (contains always_present name || asked_for (get_all_entries registry) syscalls name caps)
  unfolding resolve_capabilities
  contains-resolve_capabilities registry syscalls caps name =
      let asked = grant_capabilities (get_all_entries registry) syscalls caps [] in
      ground (
        arith,
        contains-sort name (grant always_present asked),
        contains-grant name always_present asked,
        contains-grant_capabilities (get_all_entries registry) syscalls name caps [],
      )

  -- A tool of the registry, or a system call, has the name, and the group covers it.
  abbrev pub Names :
      List (ToolEntry Value) → List (SyscallDescriptor Value) → (name ns filter : String) → Type 0
  Names tools syscalls name ns filter =
      Some (λ (t : ToolEntry Value). (t.name ≡ name) × IsTool ns filter t.name) tools
      ⊎ Some (λ (s : SyscallDescriptor Value). (s.name ≡ name) × IsCall ns filter s.domain s.name)
          syscalls

  -- The text of the capability is a group that names it.
  abbrev pub Asks :
      List (ToolEntry Value) → List (SyscallDescriptor Value) → (name cap : String) → Type 0
  Asks tools syscalls name cap =
      (ns : String) × (filter : String) × IsGroup cap ns filter
      × Names tools syscalls name ns filter

  names_tool_iff :
      (ns filter name : String) (ts : List (ToolEntry Value))
      → (names_tool ns filter name ts ≡ true)
        ↔ Some (λ (t : ToolEntry Value). (t.name ≡ name) × IsTool ns filter t.name) ts
  names_tool_iff ns filter name [] = ((λ e. ground (arith, e)), (λ x. absurd x))
  names_tool_iff ns filter name (t ∷ ts) =
      either_iff (t.name == name && covers_tool ns filter t) (names_tool ns filter name ts)
        (both_iff (t.name == name) (covers_tool ns filter t) (string_eq.equal_iff t.name name)
          (covers_tool_iff ns filter t))
        (names_tool_iff ns filter name ts)

  names_syscall_iff :
      (ns filter name : String) (ss : List (SyscallDescriptor Value))
      → (names_syscall ns filter name ss ≡ true)
        ↔ Some
            (λ (s : SyscallDescriptor Value). (s.name ≡ name) × IsCall ns filter s.domain s.name)
            ss
  names_syscall_iff ns filter name [] = ((λ e. ground (arith, e)), (λ x. absurd x))
  names_syscall_iff ns filter name (s ∷ ss) =
      either_iff (s.name == name && covers_syscall ns filter s) (names_syscall ns filter name ss)
        (both_iff (s.name == name) (covers_syscall ns filter s) (string_eq.equal_iff s.name name)
          (covers_syscall_iff ns filter s))
        (names_syscall_iff ns filter name ss)

  module _ (tools : List (ToolEntry Value)) (syscalls : List (SyscallDescriptor Value))
      (name : String) where
    Asks-iff :
        (cap : String)
        → ((names_tool (parts_of cap).0 (parts_of cap).1 name tools
              || names_syscall (parts_of cap).0 (parts_of cap).1 name syscalls)
            ≡ true)
          ↔ Asks tools syscalls name cap
    Asks-iff cap =
        let (ns, filter) = parts_of cap in
        let named =
          either_iff (names_tool ns filter name tools) (names_syscall ns filter name syscalls)
            (names_tool_iff ns filter name tools) (names_syscall_iff ns filter name syscalls) in
        (
          (λ e. (ns, filter, parts_of-IsGroup cap, named.0 e)),
          (λ a.
              let (ns', filter', group, names) = a in
              let same = parts_of_unique cap ns' filter' group in
              named.1 (subst (λ p. Names tools syscalls name p.0 p.1) (sym same) names)),
        )

    asked_for_iff :
        (caps : List String)
        → (asked_for tools syscalls name caps ≡ true) ↔ Some (Asks tools syscalls name) caps
    asked_for_iff [] = ((λ e. ground (arith, e)), (λ x. absurd x))
    asked_for_iff (group ∷ caps) =
        let (ns, filter) = parts_of group in
        either_iff (names_tool ns filter name tools || names_syscall ns filter name syscalls)
          (asked_for tools syscalls name caps) (Asks-iff group) (asked_for_iff caps)

  check_entry-resolve_capabilities :
      (registry : ToolRegistry Value) (syscalls : List (SyscallDescriptor Value))
      (caps : List String) (name : String) (pid : ℕ) (entry : ProcessEntry)
      → entry.granted_tools ≡ resolve_capabilities registry syscalls caps
      → (check_entry name pid entry ≡ ok tt) ↔ (
          (contains always_present name || asked_for (get_all_entries registry) syscalls name caps)
          ≡ true)
  unfolding check_entry
  check_entry-resolve_capabilities registry syscalls caps name pid entry h =
      rw (h, check_entry)
        (ground (arith, contains-resolve_capabilities registry syscalls caps name))

  check_capability-asked_for :
      (registry : ToolRegistry Value) (syscalls : List (SyscallDescriptor Value))
      (caps : List String) (name : String) (pid : ℕ) (table : ProcessTable) (entry : ProcessEntry)
      → get_entry pid table ≡ some entry
      → entry.granted_tools ≡ resolve_capabilities registry syscalls caps
      → (check_capability name pid table ≡ ok tt) ↔ (
          (contains always_present name || asked_for (get_all_entries registry) syscalls name caps)
          ≡ true)
  unfolding check_capability
  check_capability-asked_for registry syscalls caps name pid table entry e h =
      elim (Bool-cases (contains always_present name)) [
        | inl t ↦ rw (t, check_capability) ((λ _. refl), (λ _. refl))
        | inr f ↦
            let inner = check_entry-resolve_capabilities registry syscalls caps name pid entry h in
            rw (f, e, check_capability) (ground (arith, inner, f))
      ]

  -- When an agent was spawned with what its capabilities stand for, the router lets it call exactly the tools
  -- that are always present and those that a capability asks for. A capability is read as `namespace:filter`
  -- at its first colon, and one without a colon as a namespace with the filter `*`. It asks for the tools
  -- registered at the spawning whose names begin with the namespace, a slash and the filter (only the
  -- namespace and the slash where the filter is `*`); for every system call where it is `kernel:*`; for
  -- those of the domain `filter` where the namespace is `kernel`; and otherwise for those of the domain
  -- `namespace` whose names begin with `kernel/`, the namespace, a slash and the filter (all of them where
  -- the filter is `*`).
  pub check_capability-resolve_capabilities :
      (registry : ToolRegistry Value) (syscalls : List (SyscallDescriptor Value))
      (caps : List String) (name : String) (pid : ℕ) (table : ProcessTable) (entry : ProcessEntry)
      → get_entry pid table ≡ some entry
      → entry.granted_tools ≡ resolve_capabilities registry syscalls caps
      → (check_capability name pid table ≡ ok tt) ↔ (
          Some
            (λ present. present ≡ name)
            ("cap/request-tool" ∷ "cap/escalate" ∷ "cap/list" ∷ "job/watch" ∷ [])
          ⊎ Some (Asks (get_all_entries registry) syscalls name) caps)
  check_capability-resolve_capabilities registry syscalls caps name pid table entry e h =
      let tools = get_all_entries registry in
      let passes = check_capability-asked_for registry syscalls caps name pid table entry e h in
      let described =
        either_iff (contains always_present name) (asked_for tools syscalls name caps)
          (contains_iff name always_present) (asked_for_iff tools syscalls name caps) in
      ((λ c. described.0 (passes.0 c)), (λ d. passes.1 (described.1 d)))
