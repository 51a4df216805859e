-- ===== src/Executor/Validation/Budget.antt =====
-- How many calls a budget lets through.
use avix.Base.{
  ℕ, suc, ◌+◌, ◌-◌, ◌≤◌, ◌≡◌, String, Bool, true, false, if◌then◌else◌, ◌==◌, string_eq, nat_eq,
  List, [], ◌∷◌, some, arith, eq_iff,
}
use avix.Base.Dict.{get-modify}
use avix.Errors.{ok, err}
use avix.Types.Token.{CapabilityToken}
use avix.Executor.Validation.{
  ToolBudgets, remaining, decrement, check_budget, validate_tool_call, Checked,
}

abbrev pub is_ok : Checked → Bool
is_ok (ok _, budgets) = true
is_ok (err _, budgets) = false

-- The budgets after calls at their times, and how many calls of `tool` were let through.
unfoldable pub budgets_after : CapabilityToken → List (ℕ × String) → ToolBudgets → ToolBudgets
budgets_after token [] budgets = budgets
budgets_after token ((now, name) ∷ calls) budgets =
    budgets_after token calls (validate_tool_call token name now budgets).1

unfoldable pub passed : CapabilityToken → String → List (ℕ × String) → ToolBudgets → ℕ
passed token tool [] budgets = 0
passed token tool ((now, name) ∷ calls) budgets =
    let answer = validate_tool_call token name now budgets in
    let rest = passed token tool calls answer.1 in
    if name == tool then (if is_ok answer then suc rest else rest) else rest

-- One call takes one from the budget of its tool when it passes, and nothing else.
remaining-validate_tool_call :
    (token : CapabilityToken) (name tool : String) (now left : ℕ) (budgets : ToolBudgets)
    → remaining tool budgets ≡ some left
    → let answer = validate_tool_call token name now budgets in
      (remaining tool answer.1
        ≡ some (if name == tool then (if is_ok answer then left - 1 else left) else left))
      × (name ≡ tool → is_ok answer ≡ true → 1 ≤ left)
unfolding validate_tool_call check_budget remaining decrement
remaining-validate_tool_call token name tool now left budgets h =
    ground (arith, get-modify name tool (λ b. b - 1) budgets, eq_iff name tool)

-- Whatever calls an agent makes, those of a tool with a budget that pass, and the budget left for it,
-- add up to the budget that it had.
pub passed_lem :
    (token : CapabilityToken) (tool : String) (calls : List (ℕ × String)) (budget : ℕ)
    (budgets : ToolBudgets)
    → remaining tool budgets ≡ some budget
    → (left : ℕ) × (remaining tool (budgets_after token calls budgets) ≡ some left)
      × (passed token tool calls budgets + left ≡ budget)
unfolding budgets_after passed
passed_lem token tool [] budget budgets h = (budget, h, omega arith)
passed_lem token tool ((now, name) ∷ calls) budget budgets h =
    let (next, enough) = remaining-validate_tool_call token name tool now budget budgets h in
    let (left, last, sum) =
      passed_lem token tool calls _ (validate_tool_call token name now budgets).1 next in
    (left, last, ground (arith, eq_iff name tool, sum, enough))
