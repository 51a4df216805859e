-- ===== src/Invocation/Record.antt =====
-- crates/avix-core/src/invocation/record.rs and the entries of invocation/conversation.rs. `JsonValue`
-- stands for the values of serde_json.
use avix.Base.{ℕ, String, List, [], Option, none}

pub data InvocationStatus : Type 0 where
  running idle paused completed failed killed : InvocationStatus

pub record InvocationRecord : Type 0 where
  pub id : String
  pub agent_name : String
  pub agent_version : String
  pub username : String
  pub pid : ℕ
  pub goal : String
  pub session_id : String
  pub spawned_at : ℕ
  pub ended_at : Option ℕ
  pub status : InvocationStatus
  pub tokens_consumed : ℕ
  pub tool_calls_total : ℕ
  pub exit_reason : Option String

unfoldable pub new_invocation :
    (id agent_name username : String) (pid : ℕ) (goal session_id : String) (now : ℕ)
    → InvocationRecord
new_invocation id agent_name username pid goal session_id now = record {
  id = id;
  agent_name = agent_name;
  agent_version = "";
  username = username;
  pid = pid;
  goal = goal;
  session_id = session_id;
  spawned_at = now;
  ended_at = none;
  status = running;
  tokens_consumed = 0;
  tool_calls_total = 0;
  exit_reason = none;
}

pub data ConversationRole : Type 0 where
  user assistant tool system hil_request hil_response : ConversationRole

pub record ToolCallEntry (JsonValue : Type 0) : Type 0 where
  pub id : String
  pub name : String
  pub args : JsonValue
  pub result : Option JsonValue

pub record FileDiffEntry : Type 0 where
  pub path : String
  pub diff : Option String
  pub content : Option String

pub record ConversationEntry (JsonValue : Type 0) : Type 0 where
  pub role : ConversationRole
  pub content : String
  pub tool_calls : List (ToolCallEntry JsonValue)
  pub files_changed : List FileDiffEntry
  pub thought : Option String

abbrev pub from_role_content :
    {JsonValue : Type 0} → ConversationRole → String → ConversationEntry JsonValue
from_role_content role content = record {
  role = role;
  content = content;
  tool_calls = [];
  files_changed = [];
  thought = none;
}
