-- ===== src/ToolRegistry/Scanner.antt =====
-- crates/avix-core/src/tool_registry/descriptor.rs and scanner.rs: the tools that a service declares in
-- files. `Value` is the JSON value of serde_json; `from_yaml` stands for serde_yaml, and a directory for
-- what the file system says of it.
pub mod Declared
use Prim.Native.String
use avix.Base.{
  String, string_eq, Bool, true, false, ◌||◌, ◌==◌, if◌then◌else◌, ◌+++◌, List, [], ◌∷◌, Option,
  none, some,
}
use avix.Errors.{AvixError, config_parse, Result, ok, err, ◌>>=◌, map_err}
use avix.Types.Tool.{
  parse, ToolState, available, degraded, unavailable, ToolVisibility, everyone, crew, user,
}
use avix.ToolRegistry.Registry.{ToolPermissions, default_permissions, ToolEntry}

pub record ToolDescriptorStatus : Type 0 where
  pub state : String
  pub reason : Option String

pub record IpcBinding : Type 0 where
  pub transport : String
  pub endpoint : String
  pub method : String

pub data ToolVisibilitySpec : Type 0 where
  any : ToolVisibilitySpec
  only_user only_crew : String → ToolVisibilitySpec

pub record ToolDescriptor (Value : Type 0) : Type 0 where
  pub name : String
  pub path : Option String
  pub owner : Option String
  pub permissions : Option ToolPermissions
  pub description : String
  pub status : ToolDescriptorStatus
  pub ipc : Option IpcBinding
  pub streaming : Bool
  pub job : Bool
  pub job_timeout : Option String
  pub capabilities_required : List String
  pub input : Value
  pub output : Value
  pub visibility : ToolVisibilitySpec

-- `default_state` and `ToolDescriptorStatus::default`
abbrev pub default_state : String
default_state = "available"

abbrev pub default_status : ToolDescriptorStatus
default_status = record { state = default_state; reason = none }

-- `str::ends_with`
unfoldable pub ends_with : String → String → Bool
ends_with String.[] t = t == ""
ends_with (String.◌∷◌ c s) t = let rest = ends_with s t in String.◌∷◌ c s == t || rest

-- A file of a directory: its path as it is shown, its name, and what reading it gives.
pub record File : Type 0 where
  pub path : String
  pub name : String
  pub content : Result String String

-- `tools/` of a service, where it exists: an error, or what the iteration over it gives.
abbrev pub ToolsDir : Type 0
ToolsDir = Option (Result String (List (Result String File)))

abbrev pub declared_state : String → ToolState
declared_state state =
    if state == "available"
    then available
    else if state == "degraded"
    then degraded
    else unavailable

abbrev pub visibility_of : ToolVisibilitySpec → ToolVisibility
visibility_of any = everyone
visibility_of (only_user u) = user u
visibility_of (only_crew c) = crew c

-- An explicit block, else the owner, else the default
abbrev pub permissions_of : Option ToolPermissions → Option String → ToolPermissions
permissions_of (some p) owner = p
permissions_of none (some o) = record default_permissions { owner = o }
permissions_of none none = default_permissions

module _ {Value : Type 0} (from_yaml : String → Result String (ToolDescriptor Value)) where
  abbrev pub read_descriptor : File → Result AvixError (ToolDescriptor Value)
  read_descriptor file =
      map_err (λ e. config_parse (file.path +++ ": " +++ e)) (file.content >>= from_yaml)

  -- The loop over the directory: the first error ends it, and a file of another name is passed over.
  unfoldable pub scan_files :
      List (Result String File) → Result AvixError (List (ToolDescriptor Value))
  unfolding ends_with
  scan_files [] = ok []
  scan_files (err e ∷ entries) = err (config_parse e)
  scan_files (ok file ∷ entries) =
      let others = scan_files entries in
      if ends_with file.name ".tool.yaml"
      then (read_descriptor file >>= λ desc. others >>= λ descs. ok (desc ∷ descs))
      else others

  unfoldable pub scan : ToolsDir → Result AvixError (List (ToolDescriptor Value))
  unfolding scan_files
  scan none = ok []
  scan (some (err e)) = err (config_parse e)
  scan (some (ok entries)) = scan_files entries

module _ {Value : Type 0} (to_value : ToolDescriptor Value → Value) where
  unfoldable pub entry_of : String → String → ToolDescriptor Value → ToolEntry Value
  entry_of service_name name desc = record {
    name = name;
    owner = service_name;
    state = declared_state desc.status.state;
    visibility = visibility_of desc.visibility;
    descriptor = to_value desc;
    capabilities_required = desc.capabilities_required;
    permissions = permissions_of desc.permissions desc.owner;
  }

  -- The `filter_map`: a descriptor whose name is none is passed over.
  unfoldable pub entries_of : String → List (ToolDescriptor Value) → List (ToolEntry Value)
  unfolding entry_of
  entries_of service_name [] = []
  entries_of service_name (desc ∷ descs) =
      let others = entries_of service_name descs in
      elim (parse desc.name) [ err _ ↦ others | ok name ↦ entry_of service_name name desc ∷ others ]

  unfoldable pub scan_as_entries :
      (String → Result String (ToolDescriptor Value))
      → String
      → ToolsDir
      → Result AvixError (List (ToolEntry Value))
  unfolding scan entries_of
  scan_as_entries from_yaml service_name tools =
      scan from_yaml tools >>= λ descs. ok (entries_of service_name descs)
