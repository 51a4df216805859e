-- ===== src/Executor/Tests.antt =====
-- Tests and witnesses of the executor.
use avix.Base.{
  ℕ, ◌+◌, ◌≡◌, ◌↔◌, ◌⊎◌, refl, String, true, false, List, [], ◌∷◌, some, none, string_eq, nat_eq,
}
use avix.Base.Dict.{get}
use avix.Errors.{ok}
use avix.Types.Token.{CapabilityToken, token_expired}
use avix.Process.Table.{ProcessEntry, default_entry, get_entry}
use avix.Router.Capability.{check_capability}
use avix.Executor.Validation.{ToolBudgets, validate_tool_call, remaining}
use avix.Executor.Validation.Budget.{is_ok, passed, passed_lem, budgets_after}
use avix.Executor.Validation.Agreement.{validate_tool_call-check_capability}

abbrev token : CapabilityToken
token = record {
  granted_tools = "fs/read" ∷ "fs/write" ∷ [];
  issued_at = 0;
  expires_at = 100;
  issued_to = none;
  signature = "";
}

abbrev piper : CapabilityToken
piper = record token { granted_tools = "pipe/open" ∷ "fs/read" ∷ [] }

abbrev budgets : ToolBudgets
budgets = ("fs/read", 1) ∷ []

abbrev calls : List (ℕ × String)
calls = (1, "fs/read") ∷ (2, "fs/write") ∷ (3, "fs/read") ∷ (200, "fs/read") ∷ []

passed_lem_example :
    (left : ℕ) × (remaining "fs/read" (budgets_after token calls budgets) ≡ some left)
    × (passed token "fs/read" calls budgets + left ≡ 1)
unfolding remaining get
passed_lem_example = passed_lem token "fs/read" calls 1 budgets refl

abbrev entry : ProcessEntry
entry = record (default_entry 3) { pid = 7; granted_tools = "fs/read" ∷ "fs/write" ∷ [] }

validate_tool_call-check_capability_example :
    (is_ok (validate_tool_call token "fs/write" 5 budgets) ≡ true) ↔ (
      (false ≡ true)
      ⊎ (◌≡◌ {A = String} "fs/write" "sys/tools")
      ⊎ (check_capability "fs/write" 7 ((7, entry) ∷ []) ≡ ok tt))
unfolding remaining get get_entry token_expired
validate_tool_call-check_capability_example =
    validate_tool_call-check_capability token "fs/write" 5 7 budgets ((7, entry) ∷ []) entry refl
      refl refl refl
