-- ===== src/History/Store.antt =====
-- crates/avix-core/src/history/store.rs: the two tables of a store, each on the interface of Base/Redb.
pub mod Order
use avix.Base.{ℕ, String, string_eq, ◌==◌, List, [], ◌∷◌, ◌++◌, keep, Option, none, some}
use avix.Base.Redb.{Redb, Json as Format, put_record, get_record, all_records}
use avix.Base.SortBy.{sort_by}
use avix.Errors.{AvixError, Result, ok, err, ◌>>=◌}
use avix.History.Record.{MessageRecord, PartType, tool_call, file_diff, same_part_type, PartRecord}

module _ (db : Redb) (message_json : Format MessageRecord) (part_json : Format PartRecord) where
  pub record HistoryStore : Type 0 where
    pub messages : db.Database
    pub parts : db.Database

  unfoldable pub create_message :
      MessageRecord → HistoryStore → Result AvixError (Unit {0}) × HistoryStore
  create_message msg store =
      let (result, messages) = put_record db message_json msg.id msg store.messages in
      (result, record store { messages = messages })

  unfoldable pub get_message : String → HistoryStore → Result AvixError (Option MessageRecord)
  get_message id store = get_record db message_json id store.messages

  unfoldable pub list_messages : String → HistoryStore → Result AvixError (List MessageRecord)
  list_messages session_id store = all_records db message_json store.messages >>= λ messages. ok (
      sort_by (λ m. m.sequence) (keep (λ (m : MessageRecord). m.session_id == session_id) messages))

  unfoldable pub create_part :
      PartRecord → HistoryStore → Result AvixError (Unit {0}) × HistoryStore
  create_part part store =
      let (result, parts) = put_record db part_json part.id part store.parts in
      (result, record store { parts = parts })

  unfoldable pub get_part : String → HistoryStore → Result AvixError (Option PartRecord)
  get_part id store = get_record db part_json id store.parts

  unfoldable pub list_parts : String → HistoryStore → Result AvixError (List PartRecord)
  list_parts message_id store = all_records db part_json store.parts >>= λ parts.
      ok (sort_by (λ p. p.part_index) (keep (λ (p : PartRecord). p.message_id == message_id) parts))

  unfoldable pub parts_of_messages :
      PartType → HistoryStore → List MessageRecord → Result AvixError (List PartRecord)
  unfolding list_parts
  parts_of_messages part_type store [] = ok []
  parts_of_messages part_type store (msg ∷ rest) = do
    parts ← list_parts msg.id store
    others ← parts_of_messages part_type store rest
    ok (keep (λ (p : PartRecord). same_part_type p.part_type part_type) parts ++ others)

  unfoldable pub get_session_parts_by_type :
      String → PartType → HistoryStore → Result AvixError (List PartRecord)
  unfolding list_messages parts_of_messages
  get_session_parts_by_type session_id part_type store =
      list_messages session_id store >>= parts_of_messages part_type store

  unfoldable pub get_session_tool_calls : String → HistoryStore → Result AvixError (List PartRecord)
  unfolding get_session_parts_by_type
  get_session_tool_calls session_id store = get_session_parts_by_type session_id tool_call store

  unfoldable pub get_session_file_diffs : String → HistoryStore → Result AvixError (List PartRecord)
  unfolding get_session_parts_by_type
  get_session_file_diffs session_id store = get_session_parts_by_type session_id file_diff store
