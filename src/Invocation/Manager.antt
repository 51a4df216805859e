-- ===== src/Invocation/Manager.antt =====
-- crates/avix-core/src/kernel/proc/invocation.rs: invocations by way of a store that may be missing.
use avix.Base.{String, Bool, true, false, not, ◌+++◌, List, [], keep, Option, none, some}
use avix.Base.Redb.{Redb, Json}
use avix.Errors.{AvixError, not_found, invalid_input, Result, ok, err, ok_or, ◌>>=◌}
use avix.Invocation.Record.{
  InvocationStatus, running, idle, paused, InvocationRecord, ConversationEntry,
}
use avix.Invocation.Store.{
  Files, get_invocation, update_status, invocations_for_user, invocations_for_agent,
  persist_interim,
}

abbrev pub no_invocation_store : AvixError
no_invocation_store = not_found "invocation store not configured"

abbrev pub is_live : InvocationStatus → Bool
is_live running = true
is_live idle = true
is_live paused = true
is_live _ = false

module _ (db : Redb) (json : Json InvocationRecord) where
  abbrev pub of_user :
      String → Option String → db.Database → Result AvixError (List InvocationRecord)
  of_user username none d = invocations_for_user db json username d
  of_user username (some name) d = invocations_for_agent db json username name d

  unfoldable pub list_invocations :
      String → Option String → Bool → Option db.Database → Result AvixError (List InvocationRecord)
  list_invocations username agent_name live store = do
    d ← ok_or store no_invocation_store
    records ← of_user username agent_name d
    ok (elim live [
      | true ↦ records
      | false ↦ keep (λ (r : InvocationRecord). not (is_live r.status)) records
    ])

  unfoldable pub manager_get :
      String → Option db.Database → Result AvixError (Option InvocationRecord)
  manager_get id none = ok none
  manager_get id (some d) = get_invocation db json id d

  unfoldable pub manager_update_status :
      String
      → InvocationStatus
      → Option db.Database
      → Result AvixError (Unit {0}) × Option db.Database
  manager_update_status id status none = (err no_invocation_store, none)
  manager_update_status id status (some d) =
      let (result, d') = update_status db json id status d in (result, some d')

  module _ {JsonValue : Type 0} (files : Files) (lines : Json (ConversationEntry JsonValue)) where
    abbrev pub missing_invocation : String → AvixError
    missing_invocation id = not_found ("invocation " +++ id +++ " not found")

    abbrev pub stored :
        String → Result AvixError (Option InvocationRecord) → Result AvixError InvocationRecord
    stored id found = found >>= λ r. ok_or r (missing_invocation id)

    abbrev pub read_again :
        String
        → Result AvixError (Unit {0}) × db.Database × Option files.Disk
        → Result AvixError InvocationRecord × Option db.Database
    read_again id (err e, d, disk) = (err e, some d)
    read_again id (ok _, d, disk) = (stored id (get_invocation db json id d), some d)

    -- The snapshot of an invocation that is over is refused.
    abbrev pub snapshot_of :
        String
        → db.Database
        → Option files.Disk
        → Result AvixError InvocationRecord
        → Result AvixError InvocationRecord × Option db.Database
    snapshot_of id d disk (err e) = (err e, some d)
    snapshot_of id d disk (ok r) = elim (is_live r.status) [
      | false ↦ (err (invalid_input "cannot snapshot a finalized invocation"), some d)
      | true ↦
          read_again id
            (persist_interim db json files lines id [] r.tokens_consumed r.tool_calls_total d disk)
    ]

    unfoldable pub snapshot_invocation :
        String
        → Option db.Database
        → Option files.Disk
        → Result AvixError InvocationRecord × Option db.Database
    snapshot_invocation id none disk = (err no_invocation_store, none)
    snapshot_invocation id (some d) disk =
        snapshot_of id d disk (stored id (get_invocation db json id d))
