-- ===== src/Kernel/Signals/Tests.antt =====
-- Tests and witnesses of the signals from the kernel to agents.
use native.Mathlib.Decide.{ℕ_discrete}
use avix.Base.{ℕ, ◌≡◌, refl, nat_eq, [], ◌∷◌, none, some}
use avix.Base.Dict.{get, insert}
use avix.Base.Redb.{Json, get_record, put_record}
use avix.Base.Redb.Samples.{texts, string_discrete, names, names-IsFaithful}
use avix.Errors.{config_parse, ok, err}
use avix.Process.Table.{ProcessEntry, ProcessStatus, default_entry}
use avix.Invocation.Record.{InvocationRecord}
use avix.Session.Record.{SessionRecord, SessionStatus, new_session, add_pid, mark}
use avix.Kernel.Signals.{Parts, SignalHandler, signal_kind, send_signal, pause_agent, resume_agent}
use avix.Kernel.Signals.Cascade.Resumed.{IsOwner, resume_agent-pause_agent}

unfoldable session_discrete : Discrete SessionRecord
session_discrete = hlevel (ℕ_discrete, string_discrete)

abbrev session : SessionRecord
session = add_pid 8 101 (new_session "u-1" "ann" "scout" "notes" "write notes" 7 100)

abbrev paused_session : SessionRecord
paused_session = mark SessionStatus.paused 200 session

abbrev no_json : Json InvocationRecord
no_json = record { to_json = λ r. err "none"; from_json = λ t. err "none" }

-- The texts of UUIDs are taken as they are.
abbrev parts : Parts
parts = record {
  db = texts;
  invocation_json = no_json;
  session_json = names session_discrete session paused_session;
  parse_uuid = λ s. some s;
  Payload = Unit;
  null = tt;
}

abbrev entry : ℕ → ProcessEntry
entry pid = record (default_entry 3) { pid = pid; status = ProcessStatus.running }

abbrev handler : SignalHandler parts
handler = record {
  channels = [];
  process_table = (7, entry 7) ∷ (8, entry 8) ∷ (9, entry 9) ∷ [];
  invocation_store = none;
  session_store = some (("u-1", "first") ∷ []);
  active_invocations = [];
  active_sessions = (7, "u-1") ∷ [];
}

owner : IsOwner parts 7 "u-1" (("u-1", "first") ∷ []) session handler
unfolding get get_record add_pid new_session
owner = record { owns = refl; active = refl; uuid = refl; store = refl; found = refl }

saved :
    (put_record texts
      (names session_discrete session paused_session)
      "u-1"
      paused_session
      (("u-1", "first") ∷ [])).0
    ≡ ok tt
unfolding put_record session_discrete string_discrete add_pid new_session mark insert ℕ_discrete
saved = refl

resume_agent-pause_agent_example :
    get 8 (resume_agent parts 7 300 (pause_agent parts 7 200 handler).1).1.process_table
    ≡ some (entry 8)
unfolding get add_pid new_session
resume_agent-pause_agent_example =
    resume_agent-pause_agent parts 7 "u-1" (("u-1", "first") ∷ []) session 200 300 8 handler
      (names-IsFaithful session_discrete session paused_session) owner saved

-- The signals that go from agents to the kernel cannot be sent to an agent.
usr1_is_refused :
    (send_signal parts 7 "SIGUSR1" tt 5 handler).0 ≡ err (config_parse "unknown signal: SIGUSR1")
unfolding send_signal signal_kind
usr1_is_refused = refl
