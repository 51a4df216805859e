-- ===== src/History/Store/Order.antt =====
-- crates/avix-core/src/history/store.rs: what is listed, and in which order.
use mathlib.Core.List.{Permᴰ}
use avix.Base.{String, string_eq, nat_eq, ◌==◌, List, [], ◌∷◌, ◌++◌, keep, ◌≡◌, refl}
use avix.Base.Redb.{Redb, Json as Format, all_records}
use avix.Base.SortBy.{sort_by, IsAscending, sort_by_perm, sort_by-IsAscending}
use avix.Errors.{ok}
use avix.History.Record.{MessageRecord, PartType, same_part_type, PartRecord}
use avix.History.Store.{
  HistoryStore, list_messages, list_parts, parts_of_messages, get_session_parts_by_type,
}

module _ (db : Redb) (message_json : Format MessageRecord) (part_json : Format PartRecord) where
  abbrev pub Store : Type 0
  Store = HistoryStore db message_json part_json

  -- When the table of messages can be read, the messages that are listed for a session are its messages in
  -- the table, each as often as it is there, by ascending sequence.
  pub list_messages-IsAscending :
      (session_id : String) (store : Store) (all : List MessageRecord)
      → all_records db message_json store.messages ≡ ok all
      → (listed : List MessageRecord) × (list_messages db message_json part_json session_id store
          ≡ ok listed)
        × Permᴰ listed (keep (λ (m : MessageRecord). m.session_id == session_id) all)
        × IsAscending (λ (m : MessageRecord). m.sequence) listed
  unfolding list_messages
  list_messages-IsAscending session_id store all h =
      let own = keep (λ (m : MessageRecord). m.session_id == session_id) all in
      (
        sort_by (λ m. m.sequence) own,
        rw (list_messages, h) refl,
        sort_by_perm (λ m. m.sequence) own,
        sort_by-IsAscending (λ m. m.sequence) own,
      )

  -- The parts of one message of a type, as the store lists them
  abbrev pub parts_in : List PartRecord → PartType → MessageRecord → List PartRecord
  parts_in all part_type msg =
      keep (λ (p : PartRecord). same_part_type p.part_type part_type)
        (sort_by (λ p. p.part_index) (keep (λ (p : PartRecord). p.message_id == msg.id) all))

  abbrev pub parts_in_all : List PartRecord → PartType → List MessageRecord → List PartRecord
  parts_in_all all part_type [] = []
  parts_in_all all part_type (m ∷ ms) = parts_in all part_type m ++ parts_in_all all part_type ms

  parts_of_messages_lem :
      (part_type : PartType) (store : Store) (all : List PartRecord) (ms : List MessageRecord)
      → all_records db part_json store.parts ≡ ok all
      → parts_of_messages db message_json part_json part_type store ms
        ≡ ok (parts_in_all all part_type ms)
  unfolding parts_of_messages list_parts
  parts_of_messages_lem part_type store all [] h = refl
  parts_of_messages_lem part_type store all (m ∷ ms) h =
      rw (parts_of_messages, list_parts, h, parts_of_messages_lem part_type store all ms h) refl

  -- When both tables can be read, the parts of a type that are found for a session are those of its
  -- messages, message by message in ascending sequence, and within a message by their index.
  pub get_session_parts_by_type_lem :
      (session_id : String) (part_type : PartType) (store : Store) (all : List MessageRecord)
      (all_parts : List PartRecord)
      → all_records db message_json store.messages ≡ ok all
      → all_records db part_json store.parts ≡ ok all_parts
      → (listed : List MessageRecord) × (get_session_parts_by_type db message_json part_json
            session_id part_type store
          ≡ ok (parts_in_all all_parts part_type listed))
        × Permᴰ listed (keep (λ (m : MessageRecord). m.session_id == session_id) all)
        × IsAscending (λ (m : MessageRecord). m.sequence) listed
  unfolding get_session_parts_by_type
  get_session_parts_by_type_lem session_id part_type store all all_parts h k =
      let (listed, reads, same, sorted) = list_messages-IsAscending session_id store all h in
      (
        listed,
        rw (get_session_parts_by_type, reads)
            (parts_of_messages_lem part_type store all_parts listed k),
        same,
        sorted,
      )
