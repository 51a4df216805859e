-- ===== src/Kernel/Signals/Cascade/Resumed.antt =====
-- crates/avix-core/src/kernel/proc/signals.rs: a session that is paused and resumed by its owner.
use avix.Base.{
  ℕ, String, nat_eq, Bool, true, false, not, ◌&&◌, ◌||◌, ◌==◌, if◌then◌else◌, List, [], ◌∷◌,
  contains, keep, Option, none, some, and_then, map_option, ◌≡◌, refl, ap, ◌∙◌,
}
use avix.Base.Dict.{get}
use avix.Base.Redb.{IsFaithful, get_record, put_record, get_record-put_record}
use avix.Errors.{AvixError, Result, ok}
use avix.Process.Table.{ProcessEntry, ProcessStatus}
use avix.Invocation.Record.{InvocationStatus}
use avix.Session.Record.{SessionStatus, SessionRecord, mark}
use avix.Signal.Kind.{SignalKind, sig_pause}
use avix.Kernel.Signals.{
  Parts, SignalHandler, deliver_to, broadcast_to, change_process, change_invocation_of,
  change_siblings, found_session, session_of, save_session, cascade, change_agent, pause_session,
  pause_agent, resume_agent,
}
use avix.Kernel.Signals.Cascade.{with_status, pauses, resumes, set_where, pause_and_resume_reach}

-- What is paused and then running is running.
running_last :
    (e : Option ProcessEntry)
    → map_option
        (with_status ProcessStatus.running)
        (map_option (with_status ProcessStatus.paused) e)
      ≡ map_option (with_status ProcessStatus.running) e
running_last none = refl
running_last (some e) = refl

running_wins :
    (reached : Bool) (before between after : Option ProcessEntry)
    → between ≡ (if reached then map_option (with_status ProcessStatus.paused) before else before)
    → after ≡ (if reached then map_option (with_status ProcessStatus.running) between else between)
    → after ≡ (if reached then map_option (with_status ProcessStatus.running) before else before)
running_wins true before between after h k =
    k ∙ ap (map_option (with_status ProcessStatus.running)) h ∙ running_last before
running_wins false before between after h k = k ∙ h

module _ (parts : Parts) where
  active-broadcast_to :
      (pids : List ℕ) (kind : SignalKind) (payload : parts.Payload) (h : SignalHandler parts)
      → (broadcast_to parts pids kind payload h).active_sessions ≡ h.active_sessions
  unfolding broadcast_to deliver_to
  active-broadcast_to [] kind payload h = refl
  active-broadcast_to (pid ∷ rest) kind payload h =
      active-broadcast_to rest kind payload (deliver_to parts pid kind payload h).1

  active-change_siblings :
      (pids : List ℕ) (status : ProcessStatus) (inv : InvocationStatus) (h : SignalHandler parts)
      → (change_siblings parts pids status inv h).active_sessions ≡ h.active_sessions
  unfolding change_siblings change_process change_invocation_of
  active-change_siblings [] status inv h = refl
  active-change_siblings (pid ∷ rest) status inv h =
      active-change_siblings rest status inv
        (change_invocation_of parts pid inv (change_process parts pid status h))

  -- What the owner of a stored session is, and what is stored for it.
  pub record IsOwner (pid : ℕ) (sid : String) (d : parts.db.Database) (session : SessionRecord)
      (h : SignalHandler parts) : Type 0 where
    pub owns : (pid == session.owner_pid) ≡ true
    pub active : get pid h.active_sessions ≡ some sid
    pub uuid : parts.parse_uuid sid ≡ some session.id
    pub store : h.session_store ≡ some d
    pub found : get_record parts.db parts.session_json session.id d ≡ ok (some session)

  module _ (pid : ℕ) (sid : String) (d : parts.db.Database) (session : SessionRecord) where
    session_of-IsOwner :
        (h : SignalHandler parts)
        → IsOwner pid sid d session h
        → session_of parts pid h ≡ some (d, session)
    unfolding session_of
    session_of-IsOwner h o =
        rw (session_of, o.active, and_then, o.store, and_then, o.uuid, found_session, o.found) refl

    abbrev put : ℕ → Result AvixError (Unit {0}) × parts.db.Database
    put now =
        put_record parts.db parts.session_json session.id (mark SessionStatus.paused now session) d

    session_of-cascade :
        (now : ℕ) (h : SignalHandler parts)
        → IsFaithful parts.db parts.session_json
        → get pid h.active_sessions ≡ some sid
        → parts.parse_uuid sid ≡ some session.id
        → (put now).0 ≡ ok tt
        → session_of parts pid (
            cascade parts sig_pause ProcessStatus.paused InvocationStatus.paused
              SessionStatus.paused pid now
              (d, session)
              h)
          ≡ some ((put now).1, mark SessionStatus.paused now session)
    unfolding session_of cascade mark
    session_of-cascade now h faithful active uuid saved =
        let others = keep (λ q. not (q == pid)) session.pids in
        let told = broadcast_to parts others sig_pause parts.null h in
        let kept : (change_siblings parts others ProcessStatus.paused InvocationStatus.paused
              told).active_sessions
            ≡ h.active_sessions =
          active-change_siblings others ProcessStatus.paused InvocationStatus.paused told
          ∙ active-broadcast_to others sig_pause parts.null h in
        let reads =
          get_record-put_record parts.db parts.session_json session.id
            (mark SessionStatus.paused now session) d faithful saved in
        rw (session_of, cascade, save_session, kept, active, and_then, uuid, found_session, reads)
          refl

    session_of-pause_agent :
        (now : ℕ) (h : SignalHandler parts)
        → IsFaithful parts.db parts.session_json
        → IsOwner pid sid d session h
        → (put now).0 ≡ ok tt
        → session_of parts pid (pause_agent parts pid now h).1
          ≡ some ((put now).1, mark SessionStatus.paused now session)
    unfolding pause_agent change_agent change_process change_invocation_of deliver_to session_of
    session_of-pause_agent now h faithful o saved =
        let agent =
          change_agent parts sig_pause ProcessStatus.paused InvocationStatus.paused pid h in
        let stays : session_of parts pid agent ≡ some (d, session) = session_of-IsOwner h o in
        rw (pause_agent, stays, pause_session, o.owns)
          (session_of-cascade now agent faithful o.active o.uuid saved)

    -- When the owner of a stored session is paused and later resumed, and the paused session was saved in a
    -- database that keeps what is written, the processes of the whole session, the owner's too, have the
    -- status running, as far as the table has them, and no other process has changed.
    pub resume_agent-pause_agent :
        (now later p : ℕ) (h : SignalHandler parts)
        → IsFaithful parts.db parts.session_json
        → IsOwner pid sid d session h
        → (put now).0 ≡ ok tt
        → get p (resume_agent parts pid later (pause_agent parts pid now h).1).1.process_table
          ≡ set_where parts (p == pid || contains session.pids p) ProcessStatus.running p h
    unfolding mark
    resume_agent-pause_agent now later p h faithful o saved =
        let reached = p == pid || contains session.pids p in
        let after_pause : get p (pause_agent parts pid now h).1.process_table
            ≡ set_where parts reached ProcessStatus.paused p h =
          (pause_and_resume_reach parts pid now p h).0
          ∙ ap (λ f. set_where parts (pauses parts f pid p) ProcessStatus.paused p h)
              (session_of-IsOwner h o)
          ∙ ap
              (λ t.
                set_where parts (p == pid || t && contains session.pids p) ProcessStatus.paused p h)
              o.owns in
        let h' = (pause_agent parts pid now h).1 in
        running_wins reached _ _ _ after_pause (
          (pause_and_resume_reach parts pid later p h').1
          ∙ ap (λ f. set_where parts (resumes parts f pid p) ProcessStatus.running p h')
              (session_of-pause_agent now h faithful o saved))
