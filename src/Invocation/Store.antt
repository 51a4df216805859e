-- ===== src/Invocation/Store.antt =====
-- crates/avix-core/src/invocation/store.rs. A conversation is a file of lines on the disk of the host, which
-- is the parameter `Files`; the lines of text are kept apart, one for each entry.
pub mod Updates
use avix.Base.{
  ℕ, String, string_eq, Bool, true, false, ◌&&◌, ◌==◌, ◌+++◌, decimal, List, [], ◌∷◌, keep, Option,
  none, some,
}
use avix.Base.Redb.{Redb, Json, Saved, put_record, get_record, all_records}
use avix.Errors.{AvixError, config_parse, io, display, Result, ok, err, map_err, ◌>>=◌}
use avix.Invocation.Record.{InvocationStatus, InvocationRecord, ConversationEntry}

-- `LocalProvider`, for files of lines; `blank` says of a line that only spaces are on it.
pub record Files : Type 1 where
  pub Disk : Type 0
  pub write_lines : String → List String → Disk → Result AvixError (Unit {0}) × Disk
  pub read_lines : String → Disk → Result AvixError (List String)
  pub utf8_error : Disk → String → Option String
  pub blank : String → Bool

module _ {JsonValue : Type 0} (files : Files) (lines : Json (ConversationEntry JsonValue)) where
  abbrev pub conversation_path : String → String → ℕ → String
  conversation_path username session_id pid =
      username +++ "/.sessions/" +++ session_id +++ "/" +++ decimal pid +++ ".jsonl"

  abbrev pub line_texts : List (ConversationEntry JsonValue) → Result AvixError (List String)
  line_texts [] = ok []
  line_texts (e ∷ es) =
      map_err config_parse (lines.to_json e) >>= λ line. line_texts es >>= λ rest. ok (line ∷ rest)

  abbrev pub wrote :
      Result AvixError (Unit {0}) × files.Disk → Result AvixError (Unit {0}) × Option files.Disk
  wrote (result, disk) = (map_err (λ e. io (display e)) result, some disk)

  -- The store may have no provider, and then writes no conversation.
  unfoldable pub write_conversation_structured :
      (pid : ℕ) (session_id username : String)
      → List (ConversationEntry JsonValue)
      → Option files.Disk
      → Result AvixError (Unit {0}) × Option files.Disk
  write_conversation_structured pid session_id username entries none = (ok tt, none)
  write_conversation_structured pid session_id username entries (some disk) =
      elim (line_texts entries) [
        | err e ↦ (err e, some disk)
        | ok texts ↦
            wrote (files.write_lines (conversation_path username session_id pid) texts disk)
      ]

  -- A line that does not parse is passed over, and so is a blank one.
  abbrev pub parse_lines : List String → List (ConversationEntry JsonValue)
  parse_lines [] = []
  parse_lines (line ∷ rest) = elim (files.blank line) [
    | true ↦ parse_lines rest
    | false ↦ elim (lines.from_json line) [
      | ok entry ↦ entry ∷ parse_lines rest
      | err _ ↦ parse_lines rest
    ]
  ]

  unfoldable pub read_conversation :
      (session_id : String) (pid : ℕ) (username : String)
      → Option files.Disk
      → Result AvixError (List (ConversationEntry JsonValue))
  read_conversation session_id pid username none = ok []
  read_conversation session_id pid username (some disk) =
      let path = conversation_path username session_id pid in
      elim (files.read_lines path disk) [
        | err _ ↦ ok []
        | ok texts ↦ elim (files.utf8_error disk path) [
          | some e ↦ err (config_parse e)
          | none ↦ ok (parse_lines texts)
        ]
      ]

module _ (db : Redb) (json : Json InvocationRecord) where
  abbrev pub create_invocation : InvocationRecord → db.Database → Saved db json
  create_invocation r d = put_record db json r.id r d

  abbrev pub get_invocation : String → db.Database → Result AvixError (Option InvocationRecord)
  get_invocation id d = get_record db json id d

  -- `match self.get(id)? { Some(r) => …, None => return Ok(()) }` and a write of the changed record
  abbrev pub changed :
      String
      → (InvocationRecord → InvocationRecord)
      → db.Database
      → Result AvixError (Option InvocationRecord)
      → Saved db json
  changed id change d (err e) = (err e, d)
  changed id change d (ok none) = (ok tt, d)
  changed id change d (ok (some r)) = put_record db json id (change r) d

  unfoldable pub change_invocation :
      String → (InvocationRecord → InvocationRecord) → db.Database → Saved db json
  change_invocation id change d = changed id change d (get_invocation id d)

  unfoldable pub finalize :
      (id : String) (status : InvocationStatus) (ended_at tokens_consumed tool_calls_total : ℕ)
      (exit_reason : Option String)
      → db.Database
      → Saved db json
  unfolding change_invocation
  finalize id status ended_at tokens_consumed tool_calls_total exit_reason d =
      change_invocation id
        (λ r. record r {
          status = status;
          ended_at = some ended_at;
          tokens_consumed = tokens_consumed;
          tool_calls_total = tool_calls_total;
          exit_reason = exit_reason;
        })
        d

  unfoldable pub update_status : String → InvocationStatus → db.Database → Saved db json
  unfolding change_invocation
  update_status id status d = change_invocation id (λ r. record r { status = status }) d

  unfoldable pub update_goal : String → String → db.Database → Saved db json
  unfolding change_invocation
  update_goal id goal d = change_invocation id (λ r. record r { goal = goal }) d

  unfoldable pub list_all_invocations : db.Database → Result AvixError (List InvocationRecord)
  list_all_invocations d = all_records db json d

  abbrev pub list_where :
      (InvocationRecord → Bool) → db.Database → Result AvixError (List InvocationRecord)
  list_where p d = list_all_invocations d >>= λ records. ok (keep p records)

  unfoldable pub invocations_for_user :
      String → db.Database → Result AvixError (List InvocationRecord)
  invocations_for_user username d = list_where (λ r. r.username == username) d

  unfoldable pub invocations_for_agent :
      String → String → db.Database → Result AvixError (List InvocationRecord)
  invocations_for_agent username agent_name d =
      list_where (λ r. r.username == username && r.agent_name == agent_name) d

  unfoldable pub invocations_for_session :
      String → db.Database → Result AvixError (List InvocationRecord)
  invocations_for_session session_id d = list_where (λ r. r.session_id == session_id) d

  module _ {JsonValue : Type 0} (files : Files) (lines : Json (ConversationEntry JsonValue)) where
    abbrev pub Persisted : Type 0
    Persisted = Result AvixError (Unit {0}) × db.Database × Option files.Disk

    abbrev pub with_conversation :
        InvocationRecord
        → List (ConversationEntry JsonValue)
        → Option files.Disk
        → Saved db json
        → Persisted
    with_conversation r entries disk (err e, d) = (err e, d, disk)
    with_conversation r [] disk (ok _, d) = (ok tt, d, disk)
    with_conversation r (e ∷ es) disk (ok _, d) =
        let (result, disk') =
          write_conversation_structured files lines r.pid r.session_id r.username (e ∷ es) disk in
        (result, d, disk')

    abbrev pub interim :
        (id : String)
        → List (ConversationEntry JsonValue)
        → (tokens_consumed tool_calls_total : ℕ) → db.Database
        → Option files.Disk
        → Result AvixError (Option InvocationRecord)
        → Persisted
    interim id entries tokens calls d disk (err e) = (err e, d, disk)
    interim id entries tokens calls d disk (ok none) = (ok tt, d, disk)
    interim id entries tokens calls d disk (ok (some r)) =
        let r' = record r { tokens_consumed = tokens; tool_calls_total = calls } in
        with_conversation r' entries disk (put_record db json id r' d)

    -- `persist_interim` and `persist_interim_structured`
    unfoldable pub persist_interim :
        (id : String)
        → List (ConversationEntry JsonValue)
        → (tokens_consumed tool_calls_total : ℕ) → db.Database
        → Option files.Disk
        → Persisted
    unfolding write_conversation_structured
    persist_interim id entries tokens calls d disk =
        interim id entries tokens calls d disk (get_invocation id d)
