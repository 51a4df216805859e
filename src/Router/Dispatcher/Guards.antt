-- ===== src/Router/Dispatcher/Guards.antt =====
-- No guard of a dispatch outlives it.
use avix.Base.{
  ℕ, ◌+◌, ◌-◌, ◌<◌, ◌^◌, ◌≡◌, refl, subst, String, none, some, arith, inl, inr, Option-cases,
  Bool-cases, nat_eq, string_eq, ◌+++◌,
}
use avix.Base.Dict.{get, insert, get-insert}
use avix.Errors.{display, AvixError, Result, ok, err, Result-cases}
use avix.ToolRegistry.Registry.{
  ToolEntry, ToolRegistry, lookup, acquire, release, permits, take_permit,
}
use avix.ToolRegistry.Registry.Balance.{acquire_eq_ok}
use avix.Router.Message.{JsonRpcRequest, JsonRpcResponse, err_response, Json}
use avix.Router.Capability.{check_capability}
use avix.Router.Concurrency.{ConcurrencyLimiter, try_acquire, drop_guard}
use avix.Router.Dispatcher.{
  RouterDispatcher, eunavail, eperm, enotfound_method, is_unavailable, refused, Answered, drop_call,
  drop_both, route, take_slot, guarded, take_guard, check_call, begin, resolve, finish, dispatch,
}

-- The same records, and the same number of free permits and active calls
pub record IsSame {Value : Type 0} (d d' : RouterDispatcher Value) : Type 0 where
  pub same_services : d'.service_registry ≡ d.service_registry
  pub same_processes : d'.process_table ≡ d.process_table
  pub same_tools : d'.tool_registry.inner ≡ d.tool_registry.inner
  pub same_concurrency : d'.concurrency ≡ d.concurrency
  pub same_permits : (s : ℕ) → permits s d'.tool_registry ≡ permits s d.tool_registry

drop_guard-try_acquire :
    (l l' : ConcurrencyLimiter) → l.active < 2 ^ 64 → try_acquire l ≡ some l' → drop_guard l' ≡ l
unfolding try_acquire drop_guard
drop_guard-try_acquire l l' bound e = ground arith

module _ {Value : Type 0} where
  permits-release-take_permit :
      (g s : ℕ) (reg : ToolRegistry Value)
      → 0 < permits g reg
      → permits s (release g (take_permit g reg)) ≡ permits s reg
  unfolding release
  permits-release-take_permit g s reg free =
      let taken = insert g (permits g reg - 1) reg.semaphores in
      ground (
        arith,
        get-insert g s (permits g (take_permit g reg) + 1) taken,
        get-insert g s (permits g reg - 1) reg.semaphores,
        get-insert g g (permits g reg - 1) reg.semaphores,
      )

  acquire_eq_err :
      (name : String) (e : AvixError) (reg reg' : ToolRegistry Value)
      → acquire name reg ≡ some (err e, reg')
      → reg' ≡ reg
  unfolding acquire
  acquire_eq_err name e reg reg' h = elim (Option-cases (get name reg.inner)) [
    | inl missing ↦ ground arith
    | inr (r, found) ↦ absurd (ground arith)
  ]

  -- `d` with a guard of semaphore g taken
  abbrev with_guard : ℕ → RouterDispatcher Value → RouterDispatcher Value
  with_guard g d = record d { tool_registry = take_permit g d.tool_registry }

  drop_call-IsSame :
      (g : ℕ) (d : RouterDispatcher Value)
      → 0 < permits g d.tool_registry
      → IsSame d (drop_call g (with_guard g d))
  unfolding release
  drop_call-IsSame g d free = record {
    same_services = refl;
    same_processes = refl;
    same_tools = refl;
    same_concurrency = refl;
    same_permits = λ s. permits-release-take_permit g s d.tool_registry free;
  }

  drop_both-IsSame :
      (g : ℕ) (l : ConcurrencyLimiter) (d : RouterDispatcher Value)
      → 0 < permits g d.tool_registry
      → d.concurrency.active < 2 ^ 64
      → try_acquire d.concurrency ≡ some l
      → IsSame d (drop_both g (record (with_guard g d) { concurrency = l }))
  unfolding release
  drop_both-IsSame g l d free bound taken = record {
    same_services = refl;
    same_processes = refl;
    same_tools = refl;
    same_concurrency = drop_guard-try_acquire d.concurrency l bound taken;
    same_permits = λ s. permits-release-take_permit g s d.tool_registry free;
  }

  self-IsSame : (d : RouterDispatcher Value) → IsSame d d
  self-IsSame d = record {
    same_services = refl;
    same_processes = refl;
    same_tools = refl;
    same_concurrency = refl;
    same_permits = λ s. refl;
  }

  refusal_leaves :
      (call : String → JsonRpcRequest Value → Result AvixError (JsonRpcResponse Value))
      (id : String) (d : RouterDispatcher Value) (response : JsonRpcResponse Value)
      (answered : Answered Value)
      → some (refused response, d) ≡ some answered
      → IsSame d (finish call id answered).1
  unfolding finish
  refusal_leaves call id d response answered h =
      subst (λ a. IsSame d (finish call id a).1) {x = (refused response, d)} {y = answered}
        (ground arith) (self-IsSame d)

  module _ (json : Json Value)
      (call : String → JsonRpcRequest Value → Result AvixError (JsonRpcResponse Value))
      (entry : ToolEntry Value) (request : JsonRpcRequest Value) (pid : ℕ) (user token : String)
      (d : RouterDispatcher Value) (bound : d.concurrency.active < 2 ^ 64) where
    -- What a dispatch that got so far leaves behind
    abbrev Leaves : Answered Value → Type 0
    Leaves answered = IsSame d (finish call request.id answered).1

    route-Leaves :
        (g : ℕ) (l : ConcurrencyLimiter)
        → 0 < permits g d.tool_registry
        → try_acquire d.concurrency ≡ some l
        → Leaves (
            route json entry g request pid user token (record (with_guard g d) { concurrency = l }))
    unfolding route finish
    route-Leaves g l free taken = elim (Result-cases (resolve request d.service_registry)) [
      | inl (endpoint, e) ↦ rw (e, route, finish) (drop_both-IsSame g l d free bound taken)
      | inr (response, e) ↦ rw (e, route, finish) (drop_both-IsSame g l d free bound taken)
    ]

    take_slot-Leaves :
        (g : ℕ)
        → 0 < permits g d.tool_registry
        → Leaves (take_slot json entry g request pid user token (with_guard g d))
    unfolding take_slot finish
    take_slot-Leaves g free = elim (Option-cases (try_acquire d.concurrency)) [
      | inl e ↦ rw (e, take_slot) (drop_call-IsSame g d free)
      | inr (l, e) ↦ rw (e, take_slot) (route-Leaves g l free e)
    ]

    guarded-Leaves :
        (answer : Result AvixError ℕ) (tools : ToolRegistry Value)
        → acquire request.method d.tool_registry ≡ some (answer, tools)
        → Leaves (guarded json entry request pid user token d (answer, tools))
    unfolding guarded finish
    guarded-Leaves (err e) tools h =
        rw (acquire_eq_err request.method e d.tool_registry tools h) (self-IsSame d)
    guarded-Leaves (ok g) tools h =
        let (r, found, same, free, taken) =
          acquire_eq_ok request.method g d.tool_registry tools h in
        rw taken (take_slot-Leaves g free)

    take_guard-Leaves :
        (answered : Answered Value)
        → take_guard json entry request pid user token d ≡ some answered
        → Leaves answered
    unfolding take_guard
    take_guard-Leaves answered h = elim (Option-cases (acquire request.method d.tool_registry)) [
      | inl e ↦ absurd (ground arith)
      | inr ((answer, tools), e) ↦ subst Leaves (ground arith) (guarded-Leaves answer tools e)
    ]

    check_call-Leaves :
        (answered : Answered Value)
        → check_call json entry request pid user token d ≡ some answered
        → Leaves answered
    unfolding check_call finish
    check_call-Leaves answered h = elim (Bool-cases (is_unavailable entry.state)) [
      | inl e ↦
          refusal_leaves call request.id d
            (err_response request.id eunavail "tool is unavailable" none) answered (ground arith)
      | inr available ↦ elim (Result-cases (check_capability request.method pid d.process_table)) [
        | inl (u, e) ↦ take_guard-Leaves answered (ground arith)
        | inr (x, e) ↦
            refusal_leaves call request.id d (err_response request.id eperm (display x) none)
              answered (ground arith)
      ]
    ]

  -- When a dispatch is over (and the count of active calls fits 64 bits), whatever way it took and
  -- whatever the service answered, every permit that it took is free again, the count of active calls is
  -- what it was, and no record has changed.
  pub dispatch-IsSame :
      (json : Json Value)
      (call : String → JsonRpcRequest Value → Result AvixError (JsonRpcResponse Value))
      (request : JsonRpcRequest Value) (pid : ℕ) (user token : String)
      (d d' : RouterDispatcher Value) (response : JsonRpcResponse Value)
      → d.concurrency.active < 2 ^ 64
      → dispatch json call request pid user token d ≡ some (response, d')
      → IsSame d d'
  unfolding dispatch begin finish
  dispatch-IsSame json call request pid user token d d' response bound h =
      elim (Option-cases (begin json request pid user token d)) [
        | inl e ↦ absurd (ground arith)
        | inr (answered, e) ↦
            subst (IsSame d) (ground arith)
              (elim (Result-cases (lookup request.method d.tool_registry)) [
                | inl (entry, found) ↦
                    check_call-Leaves json call entry request pid user token d bound answered
                      (ground arith)
                | inr (x, missing) ↦
                    refusal_leaves call request.id d
                      (err_response request.id enotfound_method
                        ("tool '" +++ request.method +++ "' not found") none)
                      answered (ground arith)
              ])
      ]
