-- ===== src/Kernel/Tests.antt =====
-- Tests and witnesses of the kernel.
use avix.Base.{
  ℕ, ◌≤◌, ◌≡◌, ◌↔◌, refl, String, false, List, [], ◌∷◌, some, none, string_eq, nat_eq,
  if◌then◌else◌, ◌==◌, ◌⊎◌,
}
use avix.Base.Dict.{get, insert}
use avix.Base.Sort.{sort, insert_sorted, text_leb}
use avix.Errors.{capability_denied, Result, ok, err}
use avix.Router.Capability.{check_capability}
use avix.Process.Table.{ProcessEntry, default_entry, get_entry}
use avix.Types.Tool.{available, everyone}
use avix.ToolRegistry.Registry.{ToolRegistry, new_entry, empty, add_entry, send, get_all_entries}
use avix.Kernel.Capabilities.{SyscallDescriptor, split_colon, parts_of, resolve_capabilities}
use avix.Kernel.Capabilities.Granted.{Some, Asks, check_capability-resolve_capabilities}
use avix.Kernel.Approval.{consume}
use avix.Kernel.Hil.{
  HilRequest, HilManager, HilCall, opens, resolves, times_out, resolve_hil, timeout_hil,
  tool_call_approval, normal, waiting,
}
use avix.Base.Json.{json_string, json_object, members_of}
use avix.Signal.Kind.{sig_resume}
use avix.Kernel.Hil.Waiting.{
  member_at, signals_to, await_signal, CapabilityUpgrader, request_tool, escalate,
}
use avix.Kernel.Hil.Unheard.{request_tool-resolve_hil}
use avix.Kernel.Hil.Once.{approvals, approvals_at_most_one}
use avix.Kernel.Hil.Settled.{resolve_hil_iff, resolve_hil_settles}

abbrev question : HilRequest ℕ
question = record {
  api_version = "avix/v1";
  kind = "HilRequest";
  hil_id = "h-1";
  pid = 7;
  agent_name = "scout";
  hil_type = tool_call_approval;
  tool = some "mail/send";
  args = none;
  reason = none;
  context = none;
  options = none;
  urgency = normal;
  approval_token = "t-1";
  created_at = 0;
  expires_at = 600;
  state = waiting;
  atp_session_id = "s-1";
}

-- Every request has the same text here.
abbrev to_yaml : HilRequest ℕ → Result String (List ℕ)
to_yaml req = ok (1 ∷ [])

abbrev manager : HilManager ℕ
manager = record {
  pending = ("h-1", question) ∷ [];
  tokens = ("t-1", false) ∷ [];
  vfs = [];
  events = [];
  signals = [];
  timers = ("h-1", 7) ∷ [];
}

abbrev calls : List (ℕ × HilCall ℕ)
calls =
    (1, resolves "h-1" "t-1" "approved" "ann")
    ∷ (2, opens question)
    ∷ (3, resolves "h-1" "t-1" "denied" "bob")
    ∷ (4, times_out "h-1" 7)
    ∷ []

approvals_at_most_one_example : approvals to_yaml "t-1" calls manager ≤ 1
approvals_at_most_one_example = approvals_at_most_one to_yaml "t-1" calls manager

-- The token of one request, used for another that nobody asked for
resolve_hil_iff_example :
    ((resolve_hil to_yaml "h-9" "t-1" "approved" "ann" 1 manager).0 ≡ ok tt)
    ↔ (get "t-1" manager.tokens ≡ some false)
resolve_hil_iff_example = resolve_hil_iff to_yaml "h-9" "t-1" "approved" "ann" 1 manager

resolves_once : (resolve_hil to_yaml "h-1" "t-1" "approved" "ann" 1 manager).0 ≡ ok tt
unfolding resolve_hil consume get
resolves_once = refl

resolve_hil_settles_example :
    let m' = (resolve_hil to_yaml "h-1" "t-1" "approved" "ann" 1 manager).1 in
    ((other : String)
      → get other m'.pending ≡ (if "h-1" == other then none else get other manager.pending))
    × (timeout_hil to_yaml "h-1" 7 9 m' ≡ m')
resolve_hil_settles_example =
    resolve_hil_settles to_yaml "h-1" "t-1" "approved" "ann" 1 7 9 manager resolves_once

abbrev scout : CapabilityUpgrader
scout = record {
  pid = 7;
  token = record {
    granted_tools = [];
    issued_at = 0;
    expires_at = 600;
    issued_to = none;
    signature = "";
  };
}

-- The approved request of the agent itself
request_tool-resolve_hil_example :
    let m' = (resolve_hil to_yaml "h-1" "t-1" "approved" "ann" 1 manager).1 in
    (m'.signals ≡ manager.signals)
    × (request_tool (λ v. none) "h-1" (signals_to 7 m'.signals) scout
        ≡ (err (capability_denied "HIL timeout"), scout))
request_tool-resolve_hil_example =
    request_tool-resolve_hil to_yaml (λ v. none) "h-1" "t-1" "approved" "ann" 1 manager scout

-- A signal that names the request is heard.
heard :
    escalate "h-1"
      (record {
        target = 7;
        kind = sig_resume;
        payload = json_object (
            members_of (
              ("hilId", json_string "h-1")
              ∷ ("selectedOption", json_string "b")
              ∷ ("guidance", json_string "wait")
              ∷ []));
      }
        ∷ [])
      (record { pid = 7; pending_messages = [] })
    ≡ (
      ok (record { selected_option = "b"; guidance = "wait" }),
      record { pid = 7; pending_messages = "[Human guidance]: wait" ∷ [] },
    )
unfolding escalate await_signal member_at
heard = refl

abbrev two_tools : ToolRegistry ℕ
two_tools =
    add_entry (new_entry "fs/read" "fs.svc" available everyone 1)
      (add_entry (new_entry "mail/send" "mail.svc" available everyone 2) empty)

abbrev spawn_call : SyscallDescriptor ℕ
spawn_call = record {
  name = "kernel/proc/spawn";
  description = "";
  short = "";
  detailed = "";
  domain = "proc";
  input_schema = 0;
  output_schema = 0;
  capabilities_required = [];
  handler_signature = "";
}

abbrev requested : List String
requested = "fs:*" ∷ "proc:sp" ∷ []

resolved_names :
    resolve_capabilities two_tools (spawn_call ∷ []) requested
    ≡ "cap/escalate" ∷ "cap/list" ∷ "cap/request-tool" ∷ "fs/read" ∷ "job/watch"
      ∷ "kernel/proc/spawn" ∷ []
unfolding resolve_capabilities parts_of split_colon get_all_entries add_entry send empty get insert
    sort insert_sorted text_leb
resolved_names = refl

abbrev spawned : ProcessEntry
spawned = record (default_entry 3) {
  pid = 7;
  granted_tools = resolve_capabilities two_tools (spawn_call ∷ []) requested;
}

check_capability-resolve_capabilities_example :
    (check_capability "fs/read" 7 ((7, spawned) ∷ []) ≡ ok tt) ↔ (
      Some
        (λ (present : String). present ≡ "fs/read")
        ("cap/request-tool" ∷ "cap/escalate" ∷ "cap/list" ∷ "job/watch" ∷ [])
      ⊎ Some (Asks (get_all_entries two_tools) (spawn_call ∷ []) "fs/read") requested)
unfolding get_entry get
check_capability-resolve_capabilities_example =
    check_capability-resolve_capabilities two_tools (spawn_call ∷ []) requested "fs/read" 7
      ((7, spawned) ∷ []) spawned refl refl
