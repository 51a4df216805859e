-- ===== src/Memfs/Tools.antt =====
-- crates/avix-core/src/memfs/router.rs: what fills the directory of tools from the registry. `field` stands for
-- `desc.get(key).and_then(as_str)`, `to_yaml` for serde_yaml on a list of names, `utf8` for the bytes of a text.
use Prim.Native.Char.{code}
use avix.Base.{
  ℕ, String, Bool, true, false, not, ◌&&◌, ◌==◌, nat_eq, string_eq, if◌then◌else◌, starts_with,
  ◌+++◌, List, [], ◌∷◌, ◌++◌, map, Option, none, some,
}
use avix.Base.Dict.{Dict, get, insert, keys}
use avix.Types.Tool.{ToolState, available, degraded, unavailable, namespace}
use avix.Types.Token.{CapabilityToken, has_tool, join}
use avix.ToolRegistry.Registry.{ToolEntry, ToolRegistry, get_all_entries}
use avix.ToolRegistry.Listing.{ToolSummary, list_all}
use avix.Memfs.Vfs.{MemFs}
use avix.Memfs.Context.{VfsCallerContext}

-- `replace('/', "-")`
unfoldable pub dashed : String → String
dashed String.[] = ""
dashed (String.◌∷◌ c s) =
    let rest = dashed s in if code c == b'/' then String.◌∷◌ "-" rest else String.◌∷◌ c rest

-- `str::lines`: a line ends with a line feed, and a carriage return before it.
abbrev pub onto_first : String → List String → List String
onto_first c [] = c ∷ []
onto_first c (line ∷ lines) = (c +++ line) ∷ lines

unfoldable pub lines : String → List String
lines String.[] = []
lines (String.◌∷◌ c s) =
    let rest = lines s in
    if code c == 10
    then "" ∷ rest
    else if code c == 13 && starts_with s "\n"
    then rest
    else onto_first (String.◌∷◌ c "") rest

abbrev pub name_groups : List String → Dict String (List String) → Dict String (List String)
name_groups [] groups = groups
name_groups (name ∷ names) groups =
    let ns = namespace name in
    let so_far : List String = elim (get ns groups) [ none ↦ [] | some found ↦ found ] in
    name_groups names (insert ns (so_far ++ name ∷ []) groups)

abbrev pub all_granted : CapabilityToken → List String → Bool
all_granted token [] = true
all_granted token (cap ∷ caps) = has_tool token cap && all_granted token caps

abbrev pub state_text : ToolState → String
state_text available = "available"
state_text degraded = "degraded"
state_text unavailable = "unavailable"

abbrev pub or_text : String → Option String → String
or_text other none = other
or_text other (some s) = s

abbrev pub no_names : List String → Bool
no_names [] = true
no_names (_ ∷ _) = false

abbrev pub each_line : String → List String → String
each_line before [] = ""
each_line before (s ∷ ss) = before +++ s +++ "\n" +++ each_line before ss

module _ {Value : Type 0} (field : Value → String → Option String) (to_yaml : List String → String)
    (utf8 : String → List ℕ) where
  -- Whether the tool is there for the caller, or its state where no caller is given
  unfoldable pub state_for : ToolEntry Value → Option VfsCallerContext → String
  state_for entry none = state_text entry.state
  state_for entry (some caller) = elim caller.token [
    | some token ↦
        if all_granted token entry.capabilities_required then "available" else "unavailable"
    | none ↦ if caller.is_admin then "available" else "unavailable"
  ]

  unfoldable pub generate_tool_yaml : ToolEntry Value → Option VfsCallerContext → String
  unfolding state_for lines
  generate_tool_yaml entry caller =
      let caps = entry.capabilities_required in
      let description = or_text "" (field entry.descriptor "description") in
      let handler_sig = or_text "" (field entry.descriptor "handler_signature") in
      let state = state_for entry caller in
      let crew = if entry.permissions.crew == "" then "---" else entry.permissions.crew in
      let request =
        if state == "unavailable" && not (no_names caps)
        then "request_access: cap/request-tool\n"
        else "" in
      let handler =
        if handler_sig == "" then "" else "handler_signature: " +++ handler_sig +++ "\n" in
      "name: "
      +++ entry.name
      +++ "\ndescription: "
      +++ description
      +++ "\nshort: "
      +++ or_text description (field entry.descriptor "short")
      +++ "\ndetailed: |\n"
      +++ each_line "  " (lines (or_text "" (field entry.descriptor "detailed")))
      +++ "domain: "
      +++ or_text "" (field entry.descriptor "domain")
      +++ "\ncapabilities_required:\n"
      +++ each_line "  - " caps
      +++ "state: "
      +++ state
      +++ "\nowner: "
      +++ entry.owner
      +++ "\npermissions:\n  owner: "
      +++ entry.permissions.owner
      +++ "\n  crew: "
      +++ crew
      +++ "\n  all: "
      +++ entry.permissions.all
      +++ "\n"
      +++ request
      +++ handler

  abbrev pub yaml_names : List String → List String
  yaml_names = map (λ n. dashed n +++ ".yaml")

  abbrev pub add_directories : Dict String (List String) → MemFs → MemFs
  add_directories [] files = files
  add_directories ((ns, names) ∷ rest) files =
      add_directories rest (insert ("/tools/" +++ ns) (utf8 (join "\n" (yaml_names names))) files)

  abbrev pub add_descriptors : List (ToolEntry Value) → MemFs → MemFs
  add_descriptors [] files = files
  add_descriptors (entry ∷ rest) files = add_descriptors rest (
      insert ("/tools/" +++ dashed entry.name +++ ".yaml") (utf8 (generate_tool_yaml entry none))
        files)

  unfoldable pub populate_tools_memfs : ToolRegistry Value → MemFs → MemFs
  unfolding list_all get_all_entries dashed generate_tool_yaml
  populate_tools_memfs registry files =
      let tool_names =
        map (λ (t : ToolSummary). t.name) (list_all (λ v. field v "description") registry) in
      let by_ns = name_groups tool_names [] in
      let root = utf8 (join "\n" (map (λ ns. ns +++ "/") (keys by_ns))) in
      insert "/tools/index.yaml" (utf8 (to_yaml tool_names)) (
        add_descriptors (get_all_entries registry)
          (insert "/tools" root (add_directories by_ns files)))
