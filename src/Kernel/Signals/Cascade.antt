-- ===== src/Kernel/Signals/Cascade.antt =====
-- crates/avix-core/src/kernel/proc/signals.rs: whose processes a pause or a resumption reaches.
pub mod Resumed
use avix.Base.{
  ℕ, String, nat_eq, string_eq, Bool, true, false, not, ◌&&◌, ◌||◌, ◌==◌, beq_self, if◌then◌else◌,
  List, [], ◌∷◌, contains, contains-keep, keep, Option, none, some, and_then, map_option,
  Option-cases, Bool-cases, eq_of_beq, ◌≡◌, ◌⊎◌, inl, inr, refl, sym, ap, ◌∙◌, arith,
}
use avix.Base.Dict.{Dict, get, get-insert}
use avix.Base.Redb.{Redb, Json, IsFaithful, get_record, put_record, get_record-put_record}
use avix.Errors.{AvixError, Result, ok, err}
use avix.Process.Table.{ProcessEntry, ProcessStatus, ProcessTable, on_entry, set_status}
use avix.Invocation.Record.{InvocationStatus}
use avix.Session.Record.{SessionStatus, SessionRecord, mark}
use avix.Signal.Kind.{SignalKind, sig_pause, sig_resume}
use avix.Kernel.Signals.{
  Parts, SignalHandler, deliver_to, broadcast_to, change_process, change_invocation_of,
  change_siblings, found_session, session_of, save_session, cascade, change_agent, is_paused,
  pause_session, pause_agent, resume_session, resume_agent,
}

abbrev pub with_status : ProcessStatus → ProcessEntry → ProcessEntry
with_status status e = record e { status = status }

get-set_status :
    (pid p : ℕ) (status : ProcessStatus) (table : ProcessTable)
    → get p (set_status pid status table).1
      ≡ (if pid == p then map_option (with_status status) (get p table) else get p table)
unfolding set_status on_entry
get-set_status pid p status table = elim (Option-cases (get pid table)) [
  | inl e ↦ rw (e, set_status, on_entry) (ground (arith, e, nat_eq.equal_iff pid p))
  | inr (x, e) ↦
      rw (e, set_status, on_entry)
        (ground (arith, e, nat_eq.equal_iff pid p, get-insert pid p (with_status status x) table))
]

contains_of_keep :
    (q : ℕ → Bool) (xs : List ℕ) (a : ℕ) → contains (keep q xs) a ≡ (contains xs a && q a)
contains_of_keep q xs a = ground (arith, contains-keep q xs a)

module _ (parts : Parts) where
  broadcast_to_table :
      (pids : List ℕ) (kind : SignalKind) (payload : parts.Payload) (h : SignalHandler parts)
      → (broadcast_to parts pids kind payload h).process_table ≡ h.process_table
  unfolding broadcast_to deliver_to
  broadcast_to_table [] kind payload h = refl
  broadcast_to_table (pid ∷ rest) kind payload h =
      broadcast_to_table rest kind payload (deliver_to parts pid kind payload h).1

  get-change_siblings :
      (pids : List ℕ) (p : ℕ) (status : ProcessStatus) (inv : InvocationStatus)
      (h : SignalHandler parts)
      → get p (change_siblings parts pids status inv h).process_table ≡ (
          if contains pids p
          then map_option (with_status status) (get p h.process_table)
          else get p h.process_table)
  unfolding change_siblings change_process change_invocation_of
  get-change_siblings [] p status inv h = refl
  get-change_siblings (pid ∷ rest) p status inv h = ground (
    arith,
    get-change_siblings rest p status inv
        (change_invocation_of parts pid inv (change_process parts pid status h)),
    get-set_status pid p status h.process_table,
  )

  get-cascade :
      (kind : SignalKind) (status : ProcessStatus) (inv : InvocationStatus) (st : SessionStatus)
      (pid now p : ℕ) (d : parts.db.Database) (session : SessionRecord) (h : SignalHandler parts)
      → get p (cascade parts kind status inv st pid now (d, session) h).process_table ≡ (
          if contains session.pids p && not (p == pid)
          then map_option (with_status status) (get p h.process_table)
          else get p h.process_table)
  unfolding cascade
  get-cascade kind status inv st pid now p d session h =
      let others = keep (λ q. not (q == pid)) session.pids in
      let told = broadcast_to parts others kind parts.null h in
      ground (
        arith,
        get-change_siblings others p status inv told,
        broadcast_to_table others kind parts.null h,
        contains_of_keep (λ q. not (q == pid)) session.pids p,
      )

  get-change_agent :
      (kind : SignalKind) (status : ProcessStatus) (inv : InvocationStatus) (pid p : ℕ)
      (h : SignalHandler parts)
      → get p (change_agent parts kind status inv pid h).process_table ≡ (
          if pid == p
          then map_option (with_status status) (get p h.process_table)
          else get p h.process_table)
  unfolding change_agent change_process change_invocation_of deliver_to
  get-change_agent kind status inv pid p h = get-set_status pid p status h.process_table

  -- Whom a pause of `pid` reaches: the agent, and its whole session when it owns one.
  abbrev pub pauses : Option (parts.db.Database × SessionRecord) → ℕ → ℕ → Bool
  pauses none pid p = p == pid
  pauses (some (d, session)) pid p = p == pid || pid == session.owner_pid && contains session.pids p

  -- Whom a resumption of `pid` reaches: the agent, and its whole session when that is paused.
  abbrev pub resumes : Option (parts.db.Database × SessionRecord) → ℕ → ℕ → Bool
  resumes none pid p = p == pid
  resumes (some (d, session)) pid p =
      p == pid || is_paused parts session.status && contains session.pids p

  abbrev pub set_where : Bool → ProcessStatus → ℕ → SignalHandler parts → Option ProcessEntry
  set_where reached status p h =
      if reached
      then map_option (with_status status) (get p h.process_table)
      else get p h.process_table

  get-pause_session :
      (pid now p : ℕ) (found : Option (parts.db.Database × SessionRecord))
      (h h0 : SignalHandler parts)
      → get p h.process_table ≡ set_where (pid == p) ProcessStatus.paused p h0
      → get p (pause_session parts pid now found h).process_table
        ≡ set_where (pauses found pid p) ProcessStatus.paused p h0
  get-pause_session pid now p none h h0 k = ground (arith, k)
  get-pause_session pid now p (some (d, session)) h h0 k =
      let spread =
        get-cascade sig_pause ProcessStatus.paused InvocationStatus.paused SessionStatus.paused pid
          now p d session h in
      elim (Bool-cases (pid == session.owner_pid)) [
        | inl t ↦ rw (t, pause_session) (ground (arith, k, spread))
        | inr f ↦ rw (f, pause_session) (ground (arith, k))
      ]

  get-resume_session :
      (pid now p : ℕ) (found : Option (parts.db.Database × SessionRecord))
      (h h0 : SignalHandler parts)
      → get p h.process_table ≡ set_where (pid == p) ProcessStatus.running p h0
      → get p (resume_session parts pid now found h).process_table
        ≡ set_where (resumes found pid p) ProcessStatus.running p h0
  get-resume_session pid now p none h h0 k = ground (arith, k)
  get-resume_session pid now p (some (d, session)) h h0 k =
      let spread =
        get-cascade sig_resume ProcessStatus.running InvocationStatus.running SessionStatus.running
          pid now p d session h in
      elim (Bool-cases (is_paused parts session.status)) [
        | inl t ↦ rw (t, resume_session) (ground (arith, k, spread))
        | inr f ↦ rw (f, resume_session) (ground (arith, k))
      ]

  -- A pause sets the status of the agent's process to paused, and that of every process of its session when
  -- the agent owns the session; a resumption sets the agent's to running, and those of its session when
  -- the session is paused. No other process changes.
  pub pause_and_resume_reach :
      (pid now p : ℕ) (h : SignalHandler parts)
      → (get p (pause_agent parts pid now h).1.process_table
          ≡ set_where (pauses (session_of parts pid h) pid p) ProcessStatus.paused p h)
        × (get p (resume_agent parts pid now h).1.process_table
            ≡ set_where (resumes (session_of parts pid h) pid p) ProcessStatus.running p h)
  unfolding pause_agent resume_agent
  pause_and_resume_reach pid now p h = (
    get-pause_session pid now p (session_of parts pid h) _ h
        (get-change_agent sig_pause ProcessStatus.paused InvocationStatus.paused pid p h),
    get-resume_session pid now p (session_of parts pid h) _ h
        (get-change_agent sig_resume ProcessStatus.running InvocationStatus.running pid p h),
  )
