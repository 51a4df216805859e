-- ===== src/Router/Dispatcher/Forwarding.antt =====
-- When a dispatch reaches the service.
use avix.Base.{ℕ, ◌+◌, ◌-◌, ◌%◌, ◌<◌, ◌^◌, ◌≡◌, String, false, some, nat_eq, string_eq}
use avix.Errors.{ok}
use avix.ToolRegistry.Registry.{ToolEntry, lookup, acquire, take_permit}
use avix.Router.Message.{JsonRpcRequest, Json}
use avix.Router.Services.{service_for_tool, lookup_service}
use avix.Router.Capability.{check_capability}
use avix.Router.Dispatcher.{RouterDispatcher, is_unavailable, with_caller}

-- What a call needs to reach the service at `endpoint` as `sent`, with a guard of semaphore g.
pub record IsForwarded {Value : Type 0} (json : Json Value) (request : JsonRpcRequest Value)
    (pid : ℕ) (user token : String) (d : RouterDispatcher Value) (endpoint : String)
    (sent : JsonRpcRequest Value) (g : ℕ) : Type 0 where
  pub entry : ToolEntry Value
  pub known : lookup request.method d.tool_registry ≡ ok entry
  pub usable : is_unavailable entry.state ≡ false
  pub permitted : check_capability request.method pid d.process_table ≡ ok tt
  pub guard_free :
      acquire request.method d.tool_registry ≡ some (ok g, take_permit g d.tool_registry)
  pub slot_free : 0 < d.concurrency.free
  pub service : String
  pub owned : service_for_tool request.method d.service_registry ≡ some service
  pub registered : lookup_service service d.service_registry ≡ some endpoint
  pub sent_as : sent ≡ with_caller json entry pid user token d.service_registry request

-- The state in which a forwarded call runs.
abbrev pub running : {Value : Type 0} → ℕ → RouterDispatcher Value → RouterDispatcher Value
running g d = record d {
  tool_registry = take_permit g d.tool_registry;
  concurrency = record {
    free = d.concurrency.free - 1;
    active = (d.concurrency.active + 1) % 2 ^ 64;
  };
}
