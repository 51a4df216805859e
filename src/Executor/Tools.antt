-- ===== src/Executor/Tools.antt =====
-- crates/avix-core/src/executor/tool_registration.rs and crates/avix-core/src/executor/tool_manager.rs: the
-- tools that the model of an agent is offered.
pub mod Offered
use avix.Base.{
  ℕ, String, string_eq, Bool, true, false, not, ◌||◌, ◌==◌, if◌then◌else◌, List, [], ◌∷◌, ◌++◌,
  contains, keep, Option, none, some,
}
use avix.Base.Dict.{Dict}
use avix.Types.Token.{CapabilityToken, has_tool}
use avix.Types.Tool.{ToolVisibility, user, mangle}
use avix.Types.CapabilityMap.{map_always_present, all_gated_cat2_tools}
use avix.Executor.Validation.{ToolBudgets, set_budget}
use avix.Base.Json.{Json}
use avix.Executor.Descriptors.{cat2_tool_descriptor, descriptor_name}

abbrev pub all_for : String → List String → List (String × ToolVisibility)
all_for username [] = []
all_for username (name ∷ rest) = (name, user username) ∷ all_for username rest

-- `tools.retain(|(name, _)| seen.insert(name.clone()))`
unfoldable pub first_of_each :
    List String → List (String × ToolVisibility) → List (String × ToolVisibility)
first_of_each seen [] = []
first_of_each seen ((name, visibility) ∷ rest) = elim (contains seen name) [
  | true ↦ first_of_each seen rest
  | false ↦ (name, visibility) ∷ first_of_each (name ∷ seen) rest
]

unfoldable pub compute_cat2_tools : CapabilityToken → String → List (String × ToolVisibility)
unfolding first_of_each
compute_cat2_tools token username = first_of_each [] (
    all_for username map_always_present
    ++ all_for username (keep (λ name. has_tool token name) all_gated_cat2_tools))

pub record ToolManager : Type 0 where
  pub tool_list : List Json
  pub tool_budgets : ToolBudgets
  pub hil_required_tools : List String
  pub removed_tools : List String
  pub registered_cat2 : List String
  pub cat1_descriptors : Dict String Json

abbrev pub new_tool_manager : List String → ToolManager
new_tool_manager registered_cat2 = record {
  tool_list = [];
  tool_budgets = [];
  hil_required_tools = [];
  removed_tools = [];
  registered_cat2 = registered_cat2;
  cat1_descriptors = [];
}

abbrev pub cat2_descriptors : List String → List (String × ToolVisibility) → List Json
cat2_descriptors removed [] = []
cat2_descriptors removed ((name, _) ∷ rest) =
    if contains removed name
    then cat2_descriptors removed rest
    else cat2_tool_descriptor name ∷ cat2_descriptors removed rest

abbrev pub cat1_left : List String → Dict String Json → List Json
cat1_left removed [] = []
cat1_left removed ((name, d) ∷ rest) =
    if contains removed name then cat1_left removed rest else d ∷ cat1_left removed rest

unfoldable pub refresh_tool_list : CapabilityToken → String → ToolManager → ToolManager
unfolding compute_cat2_tools
refresh_tool_list token spawned_by m = record m {
  tool_list =
      cat2_descriptors m.removed_tools (compute_cat2_tools token spawned_by)
      ++ cat1_left m.removed_tools m.cat1_descriptors;
}

-- Whether a name is that of a removed tool, plain or mangled.
abbrev pub is_removed : List String → String → Bool
is_removed [] name = false
is_removed (r ∷ rest) name = name == r || name == mangle r || is_removed rest name

abbrev pub is_shown : List String → Option String → Bool
is_shown removed none = true
is_shown removed (some name) = not (is_removed removed name)

unfoldable pub current_tool_list : ToolManager → List Json
current_tool_list m = keep (λ d. is_shown m.removed_tools (descriptor_name d)) m.tool_list

unfoldable pub is_cat2_tool : String → ToolManager → Bool
is_cat2_tool name m = contains m.registered_cat2 name

unfoldable pub handle_tool_changed : String → String → ToolManager → ToolManager
handle_tool_changed op tool_name m =
    if op == "removed"
    then if contains m.removed_tools tool_name
      then m
      else record m { removed_tools = m.removed_tools ++ tool_name ∷ [] }
    else if op == "added"
    then record m { removed_tools = keep (λ t. not (t == tool_name)) m.removed_tools }
    else m

unfoldable pub set_tool_budget : String → ℕ → ToolManager → ToolManager
unfolding set_budget
set_tool_budget tool n m = record m { tool_budgets = set_budget tool n m.tool_budgets }

unfoldable pub require_hil_for : String → ToolManager → ToolManager
require_hil_for tool m = record m { hil_required_tools = m.hil_required_tools ++ tool ∷ [] }
