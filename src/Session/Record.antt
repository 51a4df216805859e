-- ===== src/Session/Record.antt =====
-- crates/avix-core/src/session/record.rs. A UUID is the text that it is written as; `now` is the clock.
pub mod Members
use avix.Base.{
  ℕ, ◌+◌, ◌%◌, ◌^◌, String, string_eq, nat_eq, Bool, true, false, not, ◌||◌, ◌==◌, if◌then◌else◌,
  List, [], ◌∷◌, ◌++◌, contains, keep, Option, none,
}

pub record PidInvocationMeta : Type 0 where
  pub pid : ℕ
  pub invocation_id : String
  pub agent_name : String
  pub agent_version : String
  pub spawned_at : ℕ

pub data SessionStatus : Type 0 where
  running idle paused completed failed archived : SessionStatus

pub record SessionRecord : Type 0 where
  pub id : String
  pub parent_id : Option String
  pub project_id : Option String
  pub title : String
  pub goal : String
  pub username : String
  pub spawned_at : ℕ
  pub last_updated : ℕ
  pub status : SessionStatus
  pub summary : Option String
  pub tokens_total : ℕ
  pub origin_agent : String
  pub primary_agent : String
  pub participants : List String
  pub owner_pid : ℕ
  pub pids : List ℕ
  pub invocation_pids : List PidInvocationMeta

unfoldable pub new_session :
    (id username origin_agent title goal : String) (owner_pid now : ℕ) → SessionRecord
new_session id username origin_agent title goal owner_pid now = record {
  id = id;
  parent_id = none;
  project_id = none;
  title = title;
  goal = goal;
  username = username;
  spawned_at = now;
  last_updated = now;
  status = running;
  summary = none;
  tokens_total = 0;
  origin_agent = origin_agent;
  primary_agent = origin_agent;
  participants = [];
  owner_pid = owner_pid;
  pids = owner_pid ∷ [];
  invocation_pids = [];
}

-- `mark_idle`, `mark_running`, `mark_completed`, `mark_failed` and `mark_paused`
unfoldable pub mark : SessionStatus → ℕ → SessionRecord → SessionRecord
mark status now r = record r { status = status; last_updated = now }

abbrev pub has_meta : List PidInvocationMeta → ℕ → Bool
has_meta [] pid = false
has_meta (m ∷ ms) pid = m.pid == pid || has_meta ms pid

unfoldable pub add_invocation_pid : PidInvocationMeta → ℕ → SessionRecord → SessionRecord
add_invocation_pid meta now r = record r {
  invocation_pids =
      if has_meta r.invocation_pids meta.pid
      then r.invocation_pids
      else r.invocation_pids ++ meta ∷ [];
  last_updated = now;
}

unfoldable pub add_pid : ℕ → ℕ → SessionRecord → SessionRecord
add_pid pid now r = record r {
  pids = if contains r.pids pid then r.pids else r.pids ++ pid ∷ [];
  last_updated = now;
}

unfoldable pub remove_pid : ℕ → ℕ → SessionRecord → SessionRecord
remove_pid pid now r = record r { pids = keep (λ p. not (p == pid)) r.pids; last_updated = now }

unfoldable pub add_participant : String → Bool → ℕ → SessionRecord → SessionRecord
add_participant agent_name make_primary now r = record r {
  participants =
      if contains r.participants agent_name
      then r.participants
      else r.participants ++ agent_name ∷ [];
  primary_agent = if make_primary then agent_name else r.primary_agent;
  last_updated = now;
}

unfoldable pub set_primary : String → ℕ → SessionRecord → SessionRecord
set_primary agent_name now r =
    if contains r.participants agent_name || agent_name == r.origin_agent
    then record r { primary_agent = agent_name; last_updated = now }
    else r

-- An addition on `u64`, which wraps where overflow is not checked
unfoldable pub add_tokens : ℕ → ℕ → SessionRecord → SessionRecord
add_tokens tokens now r = record r {
  tokens_total = (r.tokens_total + tokens) % 2 ^ 64;
  last_updated = now;
}
