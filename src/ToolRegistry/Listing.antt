-- ===== src/ToolRegistry/Listing.antt =====
-- The list of tools that clients see: `list_all` and ToolSummary of crates/avix-core/src/tool_registry/registry.rs.
use avix.Base.{string_eq, String, List, map, Option, none, some}
use avix.Base.Dict.{values}
use avix.Types.Tool.{ToolState, available, degraded, unavailable, namespace}
use avix.ToolRegistry.Registry.{ToolEntry, ToolRegistry}

pub record ToolSummary : Type 0 where
  pub name : String
  pub namespace : String
  pub description : String
  pub state : String

abbrev state_name : ToolState → String
state_name available = "available"
state_name unavailable = "unavailable"
state_name degraded = "degraded"

abbrev text_or_empty : Option String → String
text_or_empty none = ""
text_or_empty (some s) = s

-- `description_of` stands for `descriptor.get("description").and_then(as_str)`.
summary : {Value : Type 0} → (Value → Option String) → ToolEntry Value → ToolSummary
summary description_of entry = record {
  name = entry.name;
  namespace = namespace entry.name;
  description = text_or_empty (description_of entry.descriptor);
  state = state_name entry.state;
}

unfoldable pub list_all :
    {Value : Type 0} → (Value → Option String) → ToolRegistry Value → List ToolSummary
unfolding summary
list_all description_of reg = map (λ r. summary description_of r.entry) (values reg.inner)
