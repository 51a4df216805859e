-- ===== src/Router/Dispatcher.antt =====
-- crates/avix-core/src/router/dispatcher.rs. `begin` is what `dispatch` does up to the call of the
-- service, `finish` what it does with the answer; the guards of the tool and of the dispatcher are
-- dropped with the refusal or at the end.
pub mod Guards
pub mod Forwarding
use avix.Base.{
  ℕ, String, Bool, true, false, if◌then◌else◌, List, Option, none, some, ◌+++◌, string_eq, nat_eq,
}
use avix.Base.Int.{ℤ, minus}
use avix.Errors.{AvixError, display, ipc_timeout, Result, ok, err}
use avix.Types.Tool.{ToolState, available, degraded, unavailable}
use avix.Process.Table.{ProcessTable}
use avix.ToolRegistry.Registry.{ToolEntry, ToolRegistry, lookup, acquire, release}
use avix.Router.Message.{JsonRpcRequest, JsonRpcResponse, err_response, Json, inject_into}
use avix.Router.Services.{ServiceRegistry, service_for_tool, lookup_service, is_caller_scoped}
use avix.Router.Capability.{check_capability}
use avix.Router.Concurrency.{ConcurrencyLimiter, try_acquire, drop_guard}

abbrev pub enotfound_method : ℤ
enotfound_method = minus 32601

abbrev pub eperm : ℤ
eperm = minus 32002

abbrev pub eunavail : ℤ
eunavail = minus 32005

abbrev pub etimeout : ℤ
etimeout = minus 32007

abbrev pub ebusy : ℤ
ebusy = minus 32008

pub record RouterDispatcher (Value : Type 0) : Type 0 where
  pub service_registry : ServiceRegistry
  pub tool_registry : ToolRegistry Value
  pub process_table : ProcessTable
  pub concurrency : ConcurrencyLimiter

pub data Admission (Value : Type 0) : Type 0 where
  refused : JsonRpcResponse Value → Admission Value
  forwarded : String → JsonRpcRequest Value → ℕ → Admission Value

abbrev pub is_unavailable : ToolState → Bool
is_unavailable unavailable = true
is_unavailable available = false
is_unavailable degraded = false

abbrev pub Answered : Type 0 → Type 0
Answered Value = Admission Value × RouterDispatcher Value

module _ {Value : Type 0} where
  -- Step 6: the endpoint, or the refusal.
  unfoldable pub resolve :
      JsonRpcRequest Value → ServiceRegistry → Result (JsonRpcResponse Value) String
  resolve request services = elim (service_for_tool request.method services) [
    | none ↦ err (
        err_response request.id enotfound_method
          ("no service registered for tool '" +++ request.method +++ "'") none)
    | some svc ↦ elim (lookup_service svc services) [
      | none ↦ err (
          err_response request.id eunavail ("endpoint for service '" +++ svc +++ "' not registered")
            none)
      | some endpoint ↦ ok endpoint
    ]
  ]

  -- The state after the guard of the tool is dropped.
  abbrev pub drop_call : ℕ → RouterDispatcher Value → RouterDispatcher Value
  drop_call g d = record d { tool_registry = release g d.tool_registry }

  -- The state after both guards are dropped.
  abbrev pub drop_both : ℕ → RouterDispatcher Value → RouterDispatcher Value
  drop_both g d = record (drop_call g d) { concurrency = drop_guard d.concurrency }

  -- Step 8: what the service's answer, or the failure of the call, becomes.
  unfoldable pub reply : String → Result AvixError (JsonRpcResponse Value) → JsonRpcResponse Value
  reply id (ok response) = response
  reply id (err ipc_timeout) = err_response id etimeout "call to service timed out" none
  reply id (err e) = err_response id eunavail (display e) none

  unfoldable pub finish :
      (String → JsonRpcRequest Value → Result AvixError (JsonRpcResponse Value))
      → String
      → Answered Value
      → JsonRpcResponse Value × RouterDispatcher Value
  unfolding reply
  finish call id (refused response, d) = (response, d)
  finish call id (forwarded endpoint request g, d) =
      (reply id (call endpoint request), drop_both g d)

module _ {Value : Type 0} (json : Json Value) where
  -- Step 7: the request with `_caller` where the service of the tool's record asks for it.
  unfoldable pub with_caller :
      ToolEntry Value
      → ℕ
      → String
      → String
      → ServiceRegistry
      → JsonRpcRequest Value
      → JsonRpcRequest Value
  with_caller entry pid user token services request =
      if is_caller_scoped entry.owner services
      then record request {
        params = inject_into json (record { pid = pid; user = user; token = token }) request.params;
      }
      else request

  -- Steps 6 and 7, with both guards held.
  unfoldable pub route :
      ToolEntry Value
      → ℕ
      → JsonRpcRequest Value
      → ℕ
      → String
      → String
      → RouterDispatcher Value
      → Answered Value
  unfolding with_caller resolve
  route entry g request pid user token d = elim (resolve request d.service_registry) [
    | err response ↦ (refused response, drop_both g d)
    | ok endpoint ↦
        (forwarded endpoint (with_caller entry pid user token d.service_registry request) g, d)
  ]

  -- Step 5, with the guard of the tool held.
  unfoldable pub take_slot :
      ToolEntry Value
      → ℕ
      → JsonRpcRequest Value
      → ℕ
      → String
      → String
      → RouterDispatcher Value
      → Answered Value
  unfolding route
  take_slot entry g request pid user token d = elim (try_acquire d.concurrency) [
    | none ↦
        (refused (err_response request.id ebusy "dispatcher at max capacity" none), drop_call g d)
    | some concurrency ↦
        route entry g request pid user token (record d { concurrency = concurrency })
  ]

  unfoldable pub guarded :
      ToolEntry Value
      → JsonRpcRequest Value
      → ℕ
      → String
      → String
      → RouterDispatcher Value
      → Result AvixError ℕ × ToolRegistry Value
      → Answered Value
  unfolding take_slot
  guarded entry request pid user token d (err e, tools) = (
    refused (err_response request.id eunavail (display e) none),
    record d { tool_registry = tools },
  )
  guarded entry request pid user token d (ok g, tools) =
      take_slot entry g request pid user token (record d { tool_registry = tools })

  -- Step 4: none where the call waits for a guard of the tool.
  unfoldable pub take_guard :
      ToolEntry Value
      → JsonRpcRequest Value
      → ℕ
      → String
      → String
      → RouterDispatcher Value
      → Option (Answered Value)
  unfolding guarded
  take_guard entry request pid user token d = elim (acquire request.method d.tool_registry) [
    | none ↦ none
    | some answer ↦ some (guarded entry request pid user token d answer)
  ]

  -- Steps 2 and 3
  unfoldable pub check_call :
      ToolEntry Value
      → JsonRpcRequest Value
      → ℕ
      → String
      → String
      → RouterDispatcher Value
      → Option (Answered Value)
  unfolding take_guard
  check_call entry request pid user token d =
      if is_unavailable entry.state
      then some (refused (err_response request.id eunavail "tool is unavailable" none), d)
      else elim (check_capability request.method pid d.process_table) [
        | err e ↦ some (refused (err_response request.id eperm (display e) none), d)
        | ok _ ↦ take_guard entry request pid user token d
      ]

  unfoldable pub begin :
      JsonRpcRequest Value → ℕ → String → String → RouterDispatcher Value → Option (Answered Value)
  unfolding check_call
  begin request pid user token d = elim (lookup request.method d.tool_registry) [
    | err _ ↦ some (
      refused (
          err_response request.id enotfound_method ("tool '" +++ request.method +++ "' not found")
            none),
      d,
    )
    | ok entry ↦ check_call entry request pid user token d
  ]

  -- `call` is the client of the inter-process calls.
  unfoldable pub dispatch :
      (String → JsonRpcRequest Value → Result AvixError (JsonRpcResponse Value))
      → JsonRpcRequest Value
      → ℕ
      → String
      → String
      → RouterDispatcher Value
      → Option (JsonRpcResponse Value × RouterDispatcher Value)
  unfolding begin finish
  dispatch call request pid user token d = elim (begin request pid user token d) [
    | none ↦ none
    | some answered ↦ some (finish call request.id answered)
  ]
