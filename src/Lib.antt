-- ===== src/Lib.antt =====
-- Verification library of Avix, an operating system for AI agents (Rust). Paths are from the
-- repository's root; what is modelled lies under crates/avix-core/src.
--
-- The program is a kernel with services around it. A client's command comes through the gateway, which
-- checks its token, its role and its id. Agents call tools through the router and the executor, which
-- check the agent's capabilities.
--
-- The files:
-- - Base: names of the libraries, Boolean tests, lists, texts; Base/Dict is `HashMap`, Base/Int the signed
--   codes, Base/Sort `sort` on texts.
-- - Errors: error.rs and gateway/atp/error.rs; `Result` and its bind stand for `Result` and `?`.
-- - Types: Types/Role is types/role.rs, Types/Tool is types/tool.rs with router/mangle.rs, Types/Pid is
--   types/pid.rs, Types/Token is types/token.rs, Types/CapabilityMap is types/capability_map.rs.
-- - Gateway: Gateway/Acl is gateway/acl.rs, Gateway/Replay is gateway/replay.rs, Gateway/Token is
--   auth/atp_token.rs, Gateway/Validator is gateway/validator.rs.
-- - Jobs: Jobs/Job is jobs/job.rs and jobs/event.rs, Jobs/Registry is jobs/registry.rs; in its
--   Calls `step` is one call with its time and `run` a sequence of them. Jobs/Watch is
--   jobs/watch_handler.rs and jobs/start_job.rs.
-- - Process: Process/Table is process/entry.rs and process/table.rs, Process/StatusFile is
--   process/status_file.rs.
-- - ToolRegistry: ToolRegistry/Registry is tool_registry/; the three phases of `remove` are
--   `mark_unavailable`, `is_drained` and `remove_entries`, so that other calls can come between them.
--   ToolRegistry/PermissionsStore and ToolRegistry/Scanner are the files of those names.
-- - Router: Router/Message is ipc/message.rs and router/caller.rs, Router/Services is router/registry.rs,
--   Router/Capability, Router/Concurrency and Router/Dispatcher are the files of those names.
-- - Executor: Executor/Validation is executor/validation.rs.
-- - Pipe: Pipe/Config, Pipe/Channel, Pipe/Registry and Pipe/Manager are the files of pipe/.
-- - Memfs: Memfs/Path, Memfs/Vfs, Memfs/Context and Memfs/Router are the files of memfs/ of the same names;
--   Memfs/Context/Users has the users of config/users.rs,
--   Memfs/Tools what router.rs fills the directory of tools with,
--   Memfs/LocalProvider is local_provider.rs, and Memfs/Host puts the parts together.
-- - Kernel: Kernel/Approval is kernel/approval_token.rs, Kernel/Hil is kernel/hil.rs and
--   kernel/hil_manager.rs, Kernel/Hil/Waiting the files of executor/hil/.
-- - Ipc: Ipc/Frame is ipc/frame.rs.
-- - Params: Params/Constraint, Params/Defaults, Params/Limits, Params/Resolver and Params/Loader are the
--   files of params/; Params/Loader is the loader of resolver.rs, Params/Files the files around defaults and
--   limits, Params/ResolvedFile is resolved_file.rs.
-- - Cron: Cron/Schema, Cron/Scheduler, Cron/Loader and Cron/Runner are the files of cron_svc/. The loop of
--   attempts runs on fuel, as much as the attempts that the policy allows, which is enough.
-- - Gateway/EventBus: gateway/event_bus.rs, the kinds of events of gateway/atp/types.rs and the event of
--   gateway/atp/frame.rs.
-- - Session: Session/Record is session/record.rs, Session/Store is session/persistence.rs and
--   kernel/proc/session.rs.
-- - History: the files of history/, and History/Manager is kernel/proc/history.rs. Base/SortBy is the `sort_by_key` of the language.
-- - Invocation: Invocation/Record is invocation/record.rs with the entries of invocation/conversation.rs,
--   Invocation/Store is invocation/store.rs, Invocation/Manager is kernel/proc/invocation.rs.
-- - Signal: Signal/Kind, Signal/Channels, Signal/Bus and Signal/PipePayload are the files of signal/ of the same names.
-- - Executor/Descriptors and Executor/Tools: executor/tool_registration.rs and executor/tool_manager.rs.
-- - Kernel/Signals: kernel/proc/signals.rs.
-- - Kernel/Resource: kernel/resource_request.rs.
-- - Kernel/Capabilities: kernel/capability_resolver.rs, with the descriptor of syscall/descriptor.rs.
-- - Base/Redb: the interface of the crates redb and serde_json, not code of the repository; Base/Json is
--   `serde_json::Value`.
-- - Auth: Auth/Session is auth/session.rs, Auth/Service is auth/service.rs and auth/validate.rs,
--   Auth/Config is config/auth.rs.
-- - Llm: Llm/Routing is llm_svc/routing.rs and types/modality.rs, Llm/Config is config/llm.rs,
--   Llm/Usage is llm_svc/usage.rs.
--
-- Not modelled: the command line, the desktop client, the installers, the adapters and HTTP clients of the
-- language models, the bridge to MCP, the memory service, the services with their watchdog, the manifests of
-- agents, secrets and snapshots, the system calls, the spawning of agents, the loops that read sockets, and
-- the executor's conversation loop: they are input and output for the most part, or tables of other parts.
--
-- Conventions. Rust names become snake_case names of the same words. A method that changes its object
-- returns the new object beside its result. Locks are left out: each function is one critical section
-- of the code. `Utc::now()` is an argument `now`, in nanoseconds since the epoch. HMAC, base64, serde_json
-- and fresh UUIDs are arguments. Numbers of type f64 are a weak order without NaN. `decimal` writes at most
-- 20 digits, enough for any `u64`; the loop of a cron job's attempts takes as
-- much as it has attempts; no other definition takes fuel. Tracing is left out. A HashMap is an association
-- list and a HashSet a list without repetition; their iteration order, which Rust leaves open, is the list's.
pub mod Base
pub mod Errors
pub mod Types
pub mod Gateway
pub mod Jobs
pub mod Process
pub mod ToolRegistry
pub mod Router
pub mod Executor
pub mod Pipe
pub mod Memfs
pub mod Cron
pub mod Session
pub mod History
pub mod Invocation
pub mod Signal
pub mod Kernel
pub mod Ipc
pub mod Params
pub mod Auth
pub mod Llm
