-- ===== src/Executor/Validation/Agreement.antt =====
-- The executor's check of a call against the router's.
use avix.Base.{
  ℕ, ◌≡◌, ◌↔◌, ◌⊎◌, String, true, false, ◌||◌, ◌==◌, string_eq, nat_eq, none, some, arith, eq_iff,
  contains,
}
use avix.Errors.{ok}
use avix.Types.Token.{CapabilityToken, has_tool, token_expired}
use avix.Process.Table.{ProcessEntry, ProcessTable, get_entry}
use avix.Router.Capability.{always_present, check_entry, check_capability}
use avix.Executor.Validation.{
  ToolBudgets, remaining, check_budget, validate_tool_call, executor_always_present, no_tools,
}
use avix.Executor.Validation.Budget.{is_ok}

always_present-contains :
    (name : String)
    → contains executor_always_present name
      ≡ (contains always_present name || ("sys/tools" == name))
always_present-contains name = ground arith

check_capability_eq :
    (name : String) (pid : ℕ) (table : ProcessTable) (entry : ProcessEntry)
    → get_entry pid table ≡ some entry
    → (check_capability name pid table ≡ ok tt)
      ↔ ((contains always_present name || contains entry.granted_tools name) ≡ true)
unfolding check_capability check_entry
check_capability_eq name pid table entry e = ground arith

is_ok-validate_tool_call :
    (token : CapabilityToken) (name : String) (now : ℕ) (budgets : ToolBudgets)
    → token_expired token now ≡ false
    → remaining name budgets ≡ none
    → is_ok (validate_tool_call token name now budgets) ≡ (
        no_tools token.granted_tools
        || contains token.granted_tools name
        || contains executor_always_present name)
unfolding validate_tool_call check_budget has_tool
is_ok-validate_tool_call token name now budgets h k = ground arith

-- Of a running agent whose token has not expired and has the tools of its process entry, and for a tool
-- with no budget, the executor passes a call exactly when the router's capability check does, save that
-- it also passes "sys/tools", and every tool when the list of granted tools is empty.
pub validate_tool_call-check_capability :
    (token : CapabilityToken) (name : String) (now pid : ℕ) (budgets : ToolBudgets)
    (table : ProcessTable) (entry : ProcessEntry)
    → token_expired token now ≡ false
    → remaining name budgets ≡ none
    → get_entry pid table ≡ some entry
    → entry.granted_tools ≡ token.granted_tools
    → (is_ok (validate_tool_call token name now budgets) ≡ true) ↔ (
        (no_tools token.granted_tools ≡ true)
        ⊎ (name ≡ "sys/tools")
        ⊎ (check_capability name pid table ≡ ok tt))
validate_tool_call-check_capability token name now pid budgets table entry fresh free found same =
    let always = always_present-contains name in
    let router = check_capability_eq name pid table entry found in
    let executor = is_ok-validate_tool_call token name now budgets fresh free in
    ground (arith, always, router, executor, same, eq_iff "sys/tools" name)
