-- ===== src/Process/StatusFile.antt =====
-- crates/avix-core/src/process/status_file.rs: the snapshot of a process that is written to its status file.
-- `to_string` stands for serde_yaml.
use avix.Base.{ℕ, ◌-◌, ◌/◌, ◌≤◌, String, List, Option, arith}
use avix.Process.Table.{ProcessStatus, WaitingOn, ProcessEntry}

pub record AgentStatusMetadata : Type 0 where
  pub name : String
  pub pid : ℕ
  pub spawned_at : ℕ
  pub spawned_by : String

pub record AgentStatusTools : Type 0 where
  pub granted : List String
  pub denied : List String

pub record AgentStatusPipe : Type 0 where
  pub id : String
  pub target_pid : ℕ
  pub direction : String
  pub state : String

pub record AgentStatusSignals : Type 0 where
  pub last_received : Option String
  pub pending_count : ℕ

pub record AgentStatusMetrics : Type 0 where
  pub tokens_consumed : ℕ
  pub tool_calls_total : ℕ
  pub wall_time_sec : ℕ

pub record AgentStatusSpec : Type 0 where
  pub state : ProcessStatus
  pub goal : String
  pub context_used : ℕ
  pub context_limit : ℕ
  pub tool_calls_this_turn : ℕ
  pub last_activity_at : ℕ
  pub waiting_on : Option WaitingOn
  pub tools : AgentStatusTools
  pub pipes : List AgentStatusPipe
  pub signals : AgentStatusSignals
  pub metrics : AgentStatusMetrics

pub record AgentStatusFile : Type 0 where
  pub api_version : String
  pub kind : String
  pub metadata : AgentStatusMetadata
  pub status : AgentStatusSpec

-- Whole seconds, none where the clock has gone back
unfoldable pub wall_time : ProcessEntry → ℕ → ℕ
wall_time entry now = (now - entry.spawned_at) / 1_000_000_000

unfoldable pub from_entry : ProcessEntry → List AgentStatusPipe → ℕ → AgentStatusFile
unfolding wall_time
from_entry entry pipes now = record {
  api_version = "avix/v1";
  kind = "AgentStatus";
  metadata = record {
    name = entry.name;
    pid = entry.pid;
    spawned_at = entry.spawned_at;
    spawned_by = entry.spawned_by_user;
  };
  status = record {
    state = entry.status;
    goal = entry.goal;
    context_used = entry.context_used;
    context_limit = entry.context_limit;
    tool_calls_this_turn = entry.tool_chain_depth;
    last_activity_at = entry.last_activity_at;
    waiting_on = entry.waiting_on;
    tools = record { granted = entry.granted_tools; denied = entry.denied_tools };
    pipes = pipes;
    signals = record {
      last_received = entry.last_signal_received;
      pending_count = entry.pending_signal_count;
    };
    metrics = record {
      tokens_consumed = entry.tokens_consumed;
      tool_calls_total = entry.tool_calls_total;
      wall_time_sec = wall_time entry now;
    };
  };
}

-- A later snapshot of a process shows no shorter time.
pub wall_time_mono :
    (entry : ProcessEntry) (now later : ℕ)
    → now ≤ later
    → wall_time entry now ≤ wall_time entry later
unfolding wall_time
wall_time_mono entry now later h = omega arith
