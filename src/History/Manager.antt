-- ===== src/History/Manager.antt =====
-- crates/avix-core/src/kernel/proc/history.rs: the history by way of a store that may be missing.
use avix.Base.{String, List, [], Option, none, some, ◌≡◌, arith}
use avix.Base.Redb.{Redb, Json as Format, IsFaithful, get_record-put_record}
use avix.Errors.{AvixError, not_found, Result, ok, err}
use avix.History.Record.{MessageRecord, PartRecord}
use avix.History.Store.{
  HistoryStore, create_message, get_message, list_messages, create_part, get_part, list_parts,
}

abbrev pub no_history_store : AvixError
no_history_store = not_found "history store not configured"

module _ (db : Redb) (message_json : Format MessageRecord) (part_json : Format PartRecord) where
  abbrev pub Kept : Type 0
  Kept = Option (HistoryStore db message_json part_json)

  -- A call on the store, where there is one
  abbrev pub on_store :
      (HistoryStore db message_json part_json
        → Result AvixError (Unit {0}) × HistoryStore db message_json part_json)
      → Kept
      → Result AvixError (Unit {0}) × Kept
  on_store call none = (err no_history_store, none)
  on_store call (some s) = let (result, s') = call s in (result, some s')

  unfoldable pub manager_create_message : MessageRecord → Kept → Result AvixError (Unit {0}) × Kept
  manager_create_message msg = on_store (create_message db message_json part_json msg)

  unfoldable pub manager_get_message : String → Kept → Result AvixError (Option MessageRecord)
  manager_get_message id none = ok none
  manager_get_message id (some s) = get_message db message_json part_json id s

  unfoldable pub manager_list_messages : String → Kept → Result AvixError (List MessageRecord)
  manager_list_messages session_id none = ok []
  manager_list_messages session_id (some s) = list_messages db message_json part_json session_id s

  unfoldable pub manager_create_part : PartRecord → Kept → Result AvixError (Unit {0}) × Kept
  manager_create_part part = on_store (create_part db message_json part_json part)

  unfoldable pub manager_get_part : String → Kept → Result AvixError (Option PartRecord)
  manager_get_part id none = ok none
  manager_get_part id (some s) = get_part db message_json part_json id s

  unfoldable pub manager_list_parts : String → Kept → Result AvixError (List PartRecord)
  manager_list_parts message_id none = ok []
  manager_list_parts message_id (some s) = list_parts db message_json part_json message_id s

  -- A message that the manager has taken is found under its identifier.
  pub manager_get_message-manager_create_message :
      (msg : MessageRecord) (kept : Kept)
      → IsFaithful db message_json
      → (manager_create_message msg kept).0 ≡ ok tt
      → manager_get_message msg.id (manager_create_message msg kept).1 ≡ ok (some msg)
  unfolding manager_get_message manager_create_message get_message create_message
  manager_get_message-manager_create_message msg none faithful h = absurd (ground arith)
  manager_get_message-manager_create_message msg (some s) faithful h =
      get_record-put_record db message_json msg.id msg s.messages faithful h

  -- So is a part.
  pub manager_get_part-manager_create_part :
      (part : PartRecord) (kept : Kept)
      → IsFaithful db part_json
      → (manager_create_part part kept).0 ≡ ok tt
      → manager_get_part part.id (manager_create_part part kept).1 ≡ ok (some part)
  unfolding manager_get_part manager_create_part get_part create_part
  manager_get_part-manager_create_part part none faithful h = absurd (ground arith)
  manager_get_part-manager_create_part part (some s) faithful h =
      get_record-put_record db part_json part.id part s.parts faithful h
