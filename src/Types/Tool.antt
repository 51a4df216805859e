-- ===== src/Types/Tool.antt =====
-- crates/avix-core/src/types/tool.rs and crates/avix-core/src/router/mangle.rs: tool names, their
-- mangled form on the wire, and the states and classes of tools.
pub mod Mangling
use Prim.Native.Char.{Char, code}
use Prim.Native.String
use avix.Base.{
  ℕ, ◌≡◌, refl, String, Bool, true, false, not, ◌||◌, ◌&&◌, ◌==◌, nat_eq, string_eq, if◌then◌else◌,
  arith, ◌+++◌, has_text,
}
use avix.Errors.{AvixError, invalid_tool_name, Result, ok, err}

-- `name.replace('/', "__")`
unfoldable pub mangle : String → String
mangle String.[] = ""
mangle (String.◌∷◌ c s) =
    let rest = mangle s in
    if code c == b'/' then String.◌∷◌ "_" (String.◌∷◌ "_" rest) else String.◌∷◌ c rest

-- `name.replace("__", "/")`, which takes the matches from the left.
unfoldable pub unmangle : String → String
unmangle String.[] = ""
unmangle (String.◌∷◌ c String.[]) = String.◌∷◌ c ""
unmangle (String.◌∷◌ c (String.◌∷◌ d s)) =
    let skip = unmangle s in
    let next = unmangle (String.◌∷◌ d s) in
    if code c == b'_' && code d == b'_' then String.◌∷◌ "/" skip else String.◌∷◌ c next

unfoldable pub validate_tool_name : String → Result AvixError (Unit {0})
validate_tool_name name =
    if has_text name "__"
    then err
        (invalid_tool_name name "tool names must not contain '__' (reserved for wire mangling)")
    else ok tt

-- `ToolName::parse`; a `ToolName` is the text that it holds.
unfoldable pub parse : String → Result AvixError String
parse s =
    if s == ""
    then err (invalid_tool_name s "name must not be empty")
    else if has_text s "__"
    then err (invalid_tool_name s "name must not contain '__' (reserved for wire mangling)")
    else ok s

-- `ToolName::unmangle`
unfoldable pub unmangle_name : String → Result AvixError String
unmangle_name mangled = parse (unmangle mangled)

pub data ToolState : Type 0 where
  available degraded unavailable : ToolState

abbrev is_available : ToolState → Bool
is_available available = true
is_available degraded = false
is_available unavailable = false

unfoldable pub can_transition_to : ToolState → ToolState → Bool
can_transition_to self next = not (is_available self && is_available next)

pub data ToolCategory : Type 0 where
  direct avix_behaviour transparent : ToolCategory

-- `split('/').next()`: the text before the first slash.
unfoldable pub namespace : String → String
namespace String.[] = ""
namespace (String.◌∷◌ c s) = if code c == b'/' then "" else String.◌∷◌ c (namespace s)

unfoldable pub classify : String → ToolCategory
unfolding namespace
classify tool_name =
    let ns = namespace tool_name in
    if ns == "agent" || ns == "pipe" || ns == "cap" || ns == "job" then avix_behaviour else direct

pub data ToolVisibility : Type 0 where
  everyone : ToolVisibility
  crew user : String → ToolVisibility
