-- ===== src/Router/Tests.antt =====
-- Tests and witnesses of the router.
use avix.Base.{◌≡◌, refl, String, [], ◌∷◌, some, none, arith, string_eq, nat_eq}
use avix.Base.Dict.{get, insert}
use avix.Errors.{AvixError, ipc_timeout, Result, err}
use avix.Types.Tool.{available, everyone}
use avix.Process.Table.{default_entry, get_entry}
use avix.ToolRegistry.Registry.{
  new_entry, empty, add, add_entry, add_entries, send, lookup, acquire,
}
use avix.Router.Message.{JsonRpcRequest, JsonRpcResponse, Json, err_response}
use avix.Router.Services.{lookup_service, service_for_tool, is_caller_scoped}
use avix.Router.Capability.{check_capability, check_entry}
use avix.Router.Concurrency.{
  ConcurrencyLimiter, new_limiter, try_acquire, CallerScopedLimiter, acquire_for,
}
use avix.Router.Dispatcher.{RouterDispatcher, forwarded, begin, dispatch, etimeout}
use avix.Router.Dispatcher.Guards.{IsSame, dispatch-IsSame}
use avix.Router.Dispatcher.Forwarding.{running}

-- A JSON value is a text here, and none is an object.
abbrev json : Json String
json = record { as_object = λ v. none; object = λ m. "{}"; to_value = λ c. "caller" }

abbrev dispatcher : RouterDispatcher String
dispatcher = record {
  service_registry = record {
    services = ("fs.svc", "/run/fs.sock") ∷ [];
    tools = ("fs/read", "fs.svc") ∷ [];
    caller_scoped = [];
  };
  tool_registry = add (new_entry "fs/read" "fs.svc" available everyone "d" ∷ []) empty;
  process_table = (7, record (default_entry 3) { pid = 7; granted_tools = "fs/read" ∷ [] }) ∷ [];
  concurrency = new_limiter 20;
}

abbrev request : JsonRpcRequest String
request = record { jsonrpc = "2.0"; id = "r-1"; method = "fs/read"; params = "/users/a" }

-- A service that never answers in time
abbrev silent : String → JsonRpcRequest String → Result AvixError (JsonRpcResponse String)
silent endpoint sent = err ipc_timeout

begins :
    begin json request 7 "alice" "t" dispatcher
    ≡ some (forwarded "/run/fs.sock" request 0, running 0 dispatcher)
unfolding begin add add_entries add_entry send empty get insert new_limiter lookup acquire
    check_capability check_entry get_entry try_acquire lookup_service service_for_tool
    is_caller_scoped
begins = refl

abbrev after : RouterDispatcher String
after = elim (dispatch json silent request 7 "alice" "t" dispatcher) [
  | none ↦ dispatcher
  | some (r, d) ↦ d
]

dispatches :
    dispatch json silent request 7 "alice" "t" dispatcher
    ≡ some (err_response "r-1" etimeout "call to service timed out" none, after)
unfolding dispatch begin add add_entries add_entry send empty get insert new_limiter lookup acquire
    check_capability check_entry get_entry try_acquire lookup_service service_for_tool
    is_caller_scoped
dispatches = refl

dispatch-IsSame_example : IsSame dispatcher after
unfolding new_limiter
dispatch-IsSame_example =
    dispatch-IsSame json silent request 7 "alice" "t" dispatcher after
      (err_response "r-1" etimeout "call to service timed out" none) (omega arith) dispatches

abbrev one_left : ConcurrencyLimiter
one_left = record { free = 1; active = 1 }

first_taken : try_acquire (new_limiter 2) ≡ some one_left
unfolding try_acquire new_limiter
first_taken = refl

abbrev one_caller : CallerScopedLimiter
one_caller = record { max_per_pid = 1; limits = (7, record { free = 0; active = 1 }) ∷ [] }

caller_taken : acquire_for 7 (record { max_per_pid = 1; limits = [] }) ≡ some one_caller
unfolding acquire_for try_acquire new_limiter get insert
caller_taken = refl
