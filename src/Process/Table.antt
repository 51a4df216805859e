-- ===== src/Process/Table.antt =====
-- crates/avix-core/src/process/entry.rs and crates/avix-core/src/process/table.rs. `u32` and `u64`
-- counters saturate. Times are nanoseconds since the epoch.
pub mod Frame
pub mod Counters
use avix.Base.{
  ℕ, ◌+◌, ◌-◌, ◌^◌, min, String, Bool, true, false, if◌then◌else◌, ◌==◌, nat_eq, nat_beq, string_eq,
  List, [], ◌∷◌, Option, none, some, length, keep,
}
use avix.Base.Dict.{Dict, get, insert, remove, values}
use avix.Errors.{AvixError, invalid_pid, Result, ok, err}
use avix.Types.Pid.{display_pid}

pub data ProcessKind : Type 0 where
  agent service kernel : ProcessKind

pub data ProcessStatus : Type 0 where
  pending running paused waiting stopped crashed : ProcessStatus

pub data WaitingOn : Type 0 where
  human_approval pipe_read pipe_write signal : WaitingOn

pub record ProcessEntry : Type 0 where
  pub pid : ℕ
  pub name : String
  pub kind : ProcessKind
  pub status : ProcessStatus
  pub parent : Option ℕ
  pub spawned_by_user : String
  pub granted_tools : List String
  pub token_expires_at : Option ℕ
  pub tool_chain_depth : ℕ
  pub goal : String
  pub spawned_at : ℕ
  pub context_used : ℕ
  pub context_limit : ℕ
  pub last_activity_at : ℕ
  pub waiting_on : Option WaitingOn
  pub denied_tools : List String
  pub last_signal_received : Option String
  pub pending_signal_count : ℕ
  pub tokens_consumed : ℕ
  pub tool_calls_total : ℕ

abbrev pub default_entry : ℕ → ProcessEntry
default_entry now = record {
  pid = 0;
  name = "";
  kind = agent;
  status = pending;
  parent = none;
  spawned_by_user = "";
  granted_tools = [];
  token_expires_at = none;
  tool_chain_depth = 0;
  goal = "";
  spawned_at = now;
  context_used = 0;
  context_limit = 0;
  last_activity_at = now;
  waiting_on = none;
  denied_tools = [];
  last_signal_received = none;
  pending_signal_count = 0;
  tokens_consumed = 0;
  tool_calls_total = 0;
}

abbrev pub u32_max : ℕ
u32_max = 2 ^ 32 - 1

abbrev pub u64_max : ℕ
u64_max = 2 ^ 64 - 1

abbrev pub ProcessTable : Type 0
ProcessTable = Dict ℕ ProcessEntry

abbrev pub Answer : Type 0
Answer = Result AvixError (Unit {0}) × ProcessTable

unfoldable pub insert_entry : ProcessEntry → ProcessTable → ProcessTable
insert_entry entry table = insert entry.pid entry table

unfoldable pub remove_entry : ℕ → ProcessTable → ProcessTable
remove_entry pid table = remove pid table

unfoldable pub get_entry : ℕ → ProcessTable → Option ProcessEntry
get_entry pid table = get pid table

-- `match guard.get_mut(&pid) { Some(e) => { change(e); Ok(()) }, None => Err(InvalidPid) }`
unfoldable pub on_entry : ℕ → (ProcessEntry → ProcessEntry) → ProcessTable → Answer
on_entry pid change table = elim (get pid table) [
  | none ↦ (err (invalid_pid (display_pid pid)), table)
  | some e ↦ (ok tt, insert pid (change e) table)
]

unfoldable pub set_status : ℕ → ProcessStatus → ProcessTable → Answer
set_status pid status = on_entry pid (λ e. record e { status = status })

unfoldable pub set_token : ℕ → List String → Option ℕ → ProcessTable → Answer
set_token pid granted_tools token_expires_at =
    on_entry pid
      (λ e. record e { granted_tools = granted_tools; token_expires_at = token_expires_at })

unfoldable pub increment_chain_depth : ℕ → ProcessTable → Answer
increment_chain_depth pid =
    on_entry pid (λ e. record e { tool_chain_depth = min (e.tool_chain_depth + 1) u32_max })

unfoldable pub reset_chain_depth : ℕ → ProcessTable → Answer
reset_chain_depth pid = on_entry pid (λ e. record e { tool_chain_depth = 0 })

unfoldable pub record_tokens : ℕ → ℕ → ℕ → ProcessTable → Answer
record_tokens pid tokens now = on_entry pid (λ e. record e {
  tokens_consumed = min (e.tokens_consumed + tokens) u64_max;
  last_activity_at = now;
})

unfoldable pub set_state : ℕ → ProcessStatus → Option WaitingOn → ProcessTable → Answer
set_state pid status waiting_on =
    on_entry pid (λ e. record e { status = status; waiting_on = waiting_on })

unfoldable pub increment_tool_calls_total : ℕ → ℕ → ProcessTable → Answer
increment_tool_calls_total pid now = on_entry pid (λ e. record e {
  tool_calls_total = min (e.tool_calls_total + 1) u32_max;
  last_activity_at = now;
})

unfoldable pub update_context : ℕ → ℕ → ProcessTable → Answer
update_context pid used = on_entry pid (λ e. record e { context_used = used })

unfoldable pub record_signal : ℕ → String → ProcessTable → Answer
record_signal pid signal_name = on_entry pid (λ e. record e {
  last_signal_received = some signal_name;
  pending_signal_count = min (e.pending_signal_count + 1) u32_max;
})

unfoldable pub resolve_pending_signal : ℕ → ProcessTable → Answer
resolve_pending_signal pid =
    on_entry pid (λ e. record e { pending_signal_count = e.pending_signal_count - 1 })

unfoldable pub touch_activity : ℕ → ℕ → ProcessTable → Answer
touch_activity pid now = on_entry pid (λ e. record e { last_activity_at = now })

-- The derived `PartialEq`s
abbrev kind_code : ProcessKind → ℕ
kind_code agent = 0
kind_code service = 1
kind_code kernel = 2

abbrev status_code : ProcessStatus → ℕ
status_code pending = 0
status_code running = 1
status_code paused = 2
status_code waiting = 3
status_code stopped = 4
status_code crashed = 5

abbrev is_parent : ℕ → Option ℕ → Bool
is_parent parent none = false
is_parent parent (some p) = p == parent

unfoldable pub list_all : ProcessTable → List ProcessEntry
list_all table = values table

unfoldable pub list_by_kind : ProcessKind → ProcessTable → List ProcessEntry
list_by_kind kind table = keep (λ e. nat_beq (kind_code e.kind) (kind_code kind)) (values table)

unfoldable pub list_by_status : ProcessStatus → ProcessTable → List ProcessEntry
list_by_status status table =
    keep (λ e. nat_beq (status_code e.status) (status_code status)) (values table)

unfoldable pub list_children : ℕ → ProcessTable → List ProcessEntry
list_children parent table = keep (λ e. is_parent parent e.parent) (values table)

abbrev first : {A : Type 0} → (A → Bool) → List A → Option A
first p [] = none
first p (x ∷ xs) = if p x then some x else first p xs

unfoldable pub find_by_name : String → ProcessTable → Option ProcessEntry
find_by_name name table = first (λ (e : ProcessEntry). e.name == name) (values table)

pub count : ProcessTable → ℕ
count table = length table
