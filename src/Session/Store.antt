-- ===== src/Session/Store.antt =====
-- crates/avix-core/src/session/persistence.rs and crates/avix-core/src/kernel/proc/session.rs: the records
-- of sessions in a database.
use avix.Base.{ℕ, String, string_eq, ◌==◌, List, [], keep, Option, none, some}
use avix.Base.Redb.{Redb, Json, Saved, put_record, delete_record, get_record, all_records}
use avix.Errors.{AvixError, not_found, Result, ok, err, ◌>>=◌}
use avix.Session.Record.{SessionRecord, new_session}

module _ (db : Redb) (json : Json SessionRecord) where
  abbrev pub create_session_record : SessionRecord → db.Database → Saved db json
  create_session_record record_ d = put_record db json record_.id record_ d

  abbrev pub get_session_record : String → db.Database → Result AvixError (Option SessionRecord)
  get_session_record id d = get_record db json id d

  abbrev pub update_session_record : SessionRecord → db.Database → Saved db json
  update_session_record record_ d = put_record db json record_.id record_ d

  abbrev pub delete_session_record : String → db.Database → Saved db json
  delete_session_record id d = delete_record db json id d

  unfoldable pub sessions_for_user : String → db.Database → Result AvixError (List SessionRecord)
  sessions_for_user username d = all_records db json d >>= λ records.
      ok (keep (λ (r : SessionRecord). r.username == username) records)

  -- `SessionManager`, which may have no store.
  abbrev pub no_session_store : AvixError
  no_session_store = not_found "session store not configured"

  abbrev pub created :
      SessionRecord → Saved db json → Result AvixError SessionRecord × Option db.Database
  created r (ok _, d) = (ok r, some d)
  created r (err e, d) = (err e, some d)

  unfoldable pub create_session :
      (id username origin_agent title goal : String) (owner_pid now : ℕ)
      → Option db.Database
      → Result AvixError SessionRecord × Option db.Database
  unfolding new_session
  create_session id username origin_agent title goal owner_pid now none =
      (err no_session_store, none)
  create_session id username origin_agent title goal owner_pid now (some d) =
      let r = new_session id username origin_agent title goal owner_pid now in
      created r (create_session_record r d)

  unfoldable pub list_sessions : String → Option db.Database → Result AvixError (List SessionRecord)
  unfolding sessions_for_user
  list_sessions username none = ok []
  list_sessions username (some d) = sessions_for_user username d

  unfoldable pub get_session : String → Option db.Database → Result AvixError (Option SessionRecord)
  get_session id none = ok none
  get_session id (some d) = get_session_record id d

  unfoldable pub update_session :
      SessionRecord → Option db.Database → Result AvixError (Unit {0}) × Option db.Database
  update_session r none = (err no_session_store, none)
  update_session r (some d) = let (result, d') = update_session_record r d in (result, some d')
