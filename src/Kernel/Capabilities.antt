-- ===== src/Kernel/Capabilities.antt =====
-- crates/avix-core/src/kernel/capability_resolver.rs: the tools that the capabilities of a manifest stand for.
-- A `BTreeSet` is a list without repetition, sorted when it is listed. `Value` is the JSON value of serde_json.
pub mod Groups
pub mod Granted
use Prim.Native.Char.{code}
use Prim.Native.String
use avix.Base.{
  String, string_eq, nat_eq, Bool, true, false, ◌&&◌, ◌||◌, ◌==◌, if◌then◌else◌, starts_with, ◌+++◌,
  List, [], ◌∷◌, map, keep, add_to, Option, none, some, map_option,
}
use avix.Base.Sort.{sort}
use avix.Router.Capability.{always_present}
use avix.ToolRegistry.Registry.{ToolEntry, ToolRegistry, get_all_entries}

pub record SyscallDescriptor (Value : Type 0) : Type 0 where
  pub name : String
  pub description : String
  pub short : String
  pub detailed : String
  pub domain : String
  pub input_schema : Value
  pub output_schema : Value
  pub capabilities_required : List String
  pub handler_signature : String

-- `split_once(':')`
unfoldable pub split_colon : String → Option (String × String)
split_colon String.[] = none
split_colon (String.◌∷◌ c s) =
    let rest = split_colon s in
    if code c == b':'
    then some ("", s)
    else map_option (λ (p : String × String). (String.◌∷◌ c p.0, p.1)) rest

abbrev pub or_all : String → Option (String × String) → String × String
or_all cap none = (cap, "*")
or_all cap (some parts) = parts

-- The namespace and the filter of a capability
unfoldable pub parts_of : String → String × String
unfolding split_colon
parts_of cap = or_all cap (split_colon cap)

abbrev pub tool_prefix : String → String → String
tool_prefix ns filter = if filter == "*" then ns +++ "/" else ns +++ "/" +++ filter

-- Adding names to the set, in their order
abbrev pub grant : List String → List String → List String
grant [] granted = granted
grant (name ∷ names) granted = grant names (add_to name granted)

module _ {Value : Type 0} where
  abbrev pub covers_syscall : String → String → SyscallDescriptor Value → Bool
  covers_syscall ns filter syscall =
      if ns == "kernel"
      then filter == "*" || syscall.domain == filter
      else syscall.domain == ns
        && (filter == "*" || starts_with syscall.name ("kernel/" +++ ns +++ "/" +++ filter))

  abbrev pub covers_tool : String → String → ToolEntry Value → Bool
  covers_tool ns filter tool = starts_with tool.name (tool_prefix ns filter)

  module _ (tools : List (ToolEntry Value)) (syscalls : List (SyscallDescriptor Value)) where
    abbrev pub grant_capability : String → List String → List String
    grant_capability cap granted =
        let (ns, filter) = parts_of cap in
        grant (map (λ t. t.name) (keep (covers_tool ns filter) tools))
          (grant (map (λ s. s.name) (keep (covers_syscall ns filter) syscalls)) granted)

    abbrev pub grant_capabilities : List String → List String → List String
    grant_capabilities [] granted = granted
    grant_capabilities (cap ∷ caps) granted = grant_capabilities caps (grant_capability cap granted)

  unfoldable pub resolve_capabilities :
      ToolRegistry Value → List (SyscallDescriptor Value) → List String → List String
  unfolding parts_of get_all_entries sort
  resolve_capabilities registry syscalls caps =
      sort (grant always_present (grant_capabilities (get_all_entries registry) syscalls caps []))
