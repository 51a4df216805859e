-- ===== src/Executor/Validation.antt =====
-- crates/avix-core/src/executor/validation.rs. Of a tool call only the name matters.
pub mod Budget
pub mod Agreement
use avix.Base.{
  ℕ, ◌-◌, String, Bool, true, false, not, ◌&&◌, if◌then◌else◌, ◌==◌, string_eq, nat_eq, nat_beq,
  List, [], ◌∷◌, Option, none, some, contains, ◌+++◌,
}
use avix.Base.Dict.{Dict, get, insert, modify}
use avix.Errors.{AvixError, capability_denied, Result, ok, err}
use avix.Types.Token.{CapabilityToken, has_tool, token_expired}

abbrev pub executor_always_present : List String
executor_always_present =
    "cap/request-tool" ∷ "cap/escalate" ∷ "cap/list" ∷ "job/watch" ∷ "sys/tools" ∷ []

abbrev pub ToolBudgets : Type 0
ToolBudgets = Dict String ℕ

unfoldable pub set_budget : String → ℕ → ToolBudgets → ToolBudgets
set_budget tool budget budgets = insert tool budget budgets

unfoldable pub remaining : String → ToolBudgets → Option ℕ
remaining tool budgets = get tool budgets

-- `saturating_sub` stops at 0, as subtraction does here.
unfoldable pub decrement : String → ToolBudgets → ToolBudgets
decrement tool budgets = modify tool (λ b. b - 1) budgets

abbrev pub no_tools : List String → Bool
no_tools [] = true
no_tools (t ∷ ts) = false

abbrev pub Checked : Type 0
Checked = Result AvixError (Unit {0}) × ToolBudgets

unfoldable pub check_budget : String → ToolBudgets → Checked
unfolding remaining decrement
check_budget name budgets = elim (remaining name budgets) [
  | none ↦ (ok tt, budgets)
  | some left ↦
      if nat_beq left 0
      then (err (capability_denied ("budget exhausted for tool: " +++ name)), budgets)
      else (ok tt, decrement name budgets)
]

unfoldable pub validate_tool_call : CapabilityToken → String → ℕ → ToolBudgets → Checked
unfolding check_budget
validate_tool_call token name now budgets =
    if token_expired token now
    then (err (capability_denied "capability token has expired"), budgets)
    else if not (no_tools token.granted_tools)
        && not (has_tool token name)
        && not (contains executor_always_present name)
    then (err (capability_denied ("Tool not granted: " +++ name)), budgets)
    else check_budget name budgets
