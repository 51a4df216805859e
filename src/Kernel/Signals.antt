-- ===== src/Kernel/Signals.antt =====
-- crates/avix-core/src/kernel/proc/signals.rs: signals to agents, and the sessions that are paused and resumed
-- with them. `parse_uuid` gives the text that a UUID is stored under; the payload of a signal is of the
-- type `Payload`. Where the source throws a result away, so does the model.
pub mod Cascade
mod Tests
use avix.Base.{
  ℕ, String, string_eq, nat_eq, Bool, true, false, not, ◌==◌, if◌then◌else◌, ◌+++◌, decimal, List,
  [], ◌∷◌, keep, Option, none, some, and_then,
}
use avix.Base.Dict.{Dict, get}
use avix.Base.Redb.{Redb, Json, get_record, put_record}
use avix.Errors.{AvixError, config_parse, not_found, Result, ok, err}
use avix.Process.Table.{ProcessStatus, ProcessTable, set_status}
use avix.Invocation.Record.{InvocationStatus, InvocationRecord}
use avix.Invocation.Store.{update_status}
use avix.Session.Record.{SessionStatus, SessionRecord, mark}
use avix.Signal.Kind.{
  SignalKind, sig_start, sig_pause, sig_resume, sig_kill, sig_stop, sig_save, sig_pipe,
  sig_escalate, Signal,
}
use avix.Signal.Channels.{SignalChannelRegistry, send_signal_to}

-- What the handler shares with the rest of the kernel.
pub record Parts : Type 1 where
  pub db : Redb
  pub invocation_json : Json InvocationRecord
  pub session_json : Json SessionRecord
  pub parse_uuid : String → Option String
  pub Payload : Type 0
  pub null : Payload

module _ (parts : Parts) where
  pub record SignalHandler : Type 0 where
    pub channels : SignalChannelRegistry parts.Payload
    pub process_table : ProcessTable
    pub invocation_store : Option parts.db.Database
    pub session_store : Option parts.db.Database
    pub active_invocations : Dict ℕ String
    pub active_sessions : Dict ℕ String

  unfoldable pub deliver_to : ℕ → SignalKind → parts.Payload → SignalHandler → Bool × SignalHandler
  deliver_to pid kind payload h =
      let (sent, channels) =
        send_signal_to pid (record { target = pid; kind = kind; payload = payload }) h.channels in
      (sent, record h { channels = channels })

  unfoldable pub broadcast_to : List ℕ → SignalKind → parts.Payload → SignalHandler → SignalHandler
  unfolding deliver_to
  broadcast_to [] kind payload h = h
  broadcast_to (pid ∷ rest) kind payload h =
      broadcast_to rest kind payload (deliver_to pid kind payload h).1

  unfoldable pub change_process : ℕ → ProcessStatus → SignalHandler → SignalHandler
  change_process pid status h = record h {
    process_table = (set_status pid status h.process_table).1;
  }

  abbrev pub with_invocation :
      Option String → InvocationStatus → Option parts.db.Database → Option parts.db.Database
  with_invocation none status store = store
  with_invocation (some id) status none = none
  with_invocation (some id) status (some d) =
      some (update_status parts.db parts.invocation_json id status d).1

  -- The invocation that the agent is running, where there is one and a store.
  unfoldable pub change_invocation_of : ℕ → InvocationStatus → SignalHandler → SignalHandler
  change_invocation_of pid status h = record h {
    invocation_store = with_invocation (get pid h.active_invocations) status h.invocation_store;
  }

  unfoldable pub change_siblings :
      List ℕ → ProcessStatus → InvocationStatus → SignalHandler → SignalHandler
  unfolding change_process change_invocation_of
  change_siblings [] status inv_status h = h
  change_siblings (pid ∷ rest) status inv_status h =
      change_siblings rest status inv_status
        (change_invocation_of pid inv_status (change_process pid status h))

  -- The session of the agent, and the database that it stands in.
  abbrev pub found_session :
      parts.db.Database → Option String → Option (parts.db.Database × SessionRecord)
  found_session d none = none
  found_session d (some uuid) = elim (get_record parts.db parts.session_json uuid d) [
    | err _ ↦ none
    | ok none ↦ none
    | ok (some session) ↦ some (d, session)
  ]

  unfoldable pub session_of : ℕ → SignalHandler → Option (parts.db.Database × SessionRecord)
  session_of pid h =
      and_then (get pid h.active_sessions)
        (λ sid. and_then h.session_store (λ d. found_session d (parts.parse_uuid sid)))

  abbrev pub save_session : parts.db.Database → SessionRecord → SignalHandler → SignalHandler
  save_session d session h = record h {
    session_store = some (put_record parts.db parts.session_json session.id session d).1;
  }

  -- Every other agent of the session gets the signal and its new status.
  unfoldable pub cascade :
      SignalKind
      → ProcessStatus
      → InvocationStatus
      → SessionStatus
      → ℕ
      → ℕ
      → parts.db.Database × SessionRecord
      → SignalHandler
      → SignalHandler
  unfolding broadcast_to change_siblings mark
  cascade kind status inv_status session_status pid now (d, session) h =
      let others = keep (λ p. not (p == pid)) session.pids in
      save_session d (mark session_status now session)
        (change_siblings others status inv_status (broadcast_to others kind parts.null h))

  -- The agent itself: its process, its invocation, and the signal.
  unfoldable pub change_agent :
      SignalKind → ProcessStatus → InvocationStatus → ℕ → SignalHandler → SignalHandler
  unfolding change_process change_invocation_of deliver_to
  change_agent kind status inv_status pid h =
      (deliver_to pid kind parts.null
        (change_invocation_of pid inv_status (change_process pid status h))).1

  abbrev pub is_paused : SessionStatus → Bool
  is_paused SessionStatus.paused = true
  is_paused _ = false

  abbrev pub pause_session :
      ℕ → ℕ → Option (parts.db.Database × SessionRecord) → SignalHandler → SignalHandler
  pause_session pid now none h = h
  pause_session pid now (some (d, session)) h =
      if pid == session.owner_pid
      then cascade sig_pause ProcessStatus.paused InvocationStatus.paused SessionStatus.paused pid
          now (d, session) h
      else h

  unfoldable pub pause_agent : ℕ → ℕ → SignalHandler → Result AvixError (Unit {0}) × SignalHandler
  unfolding change_agent session_of cascade
  pause_agent pid now h =
      let h = change_agent sig_pause ProcessStatus.paused InvocationStatus.paused pid h in
      (ok tt, pause_session pid now (session_of pid h) h)

  abbrev pub resume_session :
      ℕ → ℕ → Option (parts.db.Database × SessionRecord) → SignalHandler → SignalHandler
  resume_session pid now none h = h
  resume_session pid now (some (d, session)) h =
      if is_paused session.status
      then cascade sig_resume ProcessStatus.running InvocationStatus.running SessionStatus.running
          pid now (d, session) h
      else h

  unfoldable pub resume_agent : ℕ → ℕ → SignalHandler → Result AvixError (Unit {0}) × SignalHandler
  unfolding change_agent session_of cascade
  resume_agent pid now h =
      let h = change_agent sig_resume ProcessStatus.running InvocationStatus.running pid h in
      (ok tt, resume_session pid now (session_of pid h) h)

  unfoldable pub signal_kind : String → Option SignalKind
  signal_kind signal =
      if signal == "SIGSTART"
      then some sig_start
      else if signal == "SIGKILL"
      then some sig_kill
      else if signal == "SIGSTOP"
      then some sig_stop
      else if signal == "SIGSAVE"
      then some sig_save
      else if signal == "SIGPIPE"
      then some sig_pipe
      else if signal == "SIGESCALATE"
      then some sig_escalate
      else none

  abbrev pub delivered : ℕ → Bool × SignalHandler → Result AvixError (Unit {0}) × SignalHandler
  delivered pid (true, h) = (ok tt, h)
  delivered pid (false, h) = (err (not_found ("no signal channel for pid " +++ decimal pid)), h)

  unfoldable pub send_signal :
      ℕ → String → parts.Payload → ℕ → SignalHandler → Result AvixError (Unit {0}) × SignalHandler
  unfolding pause_agent resume_agent signal_kind deliver_to
  send_signal pid signal payload now h =
      if signal == "SIGPAUSE"
      then pause_agent pid now h
      else if signal == "SIGRESUME"
      then resume_agent pid now h
      else elim (signal_kind signal) [
        | none ↦ (err (config_parse ("unknown signal: " +++ signal)), h)
        | some kind ↦ delivered pid (deliver_to pid kind payload h)
      ]
