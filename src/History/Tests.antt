-- ===== src/History/Tests.antt =====
-- Tests and witnesses of the history. Each table holds two records at most.
use native.Mathlib.Decide.{ℕ_discrete}
use mathlib.Core.List.{Permᴰ}
use avix.Base.{string_eq, ◌==◌, List, [], ◌∷◌, keep, none, if◌then◌else◌, ◌≡◌, refl}
use avix.Base.Redb.{Json as Format, all_records}
use avix.Base.Redb.Samples.{texts, string_discrete, names}
use avix.Base.SortBy.{insert_by, sort_by, IsAscending}
use avix.Errors.{ok}
use avix.History.Record.{MessageRecord, PartRecord, PartType, Role, text_part, thought_part}
use avix.History.Store.{
  HistoryStore, list_messages, list_parts, parts_of_messages, get_session_parts_by_type,
}
use avix.History.Store.Order.{parts_in_all, get_session_parts_by_type_lem}

unfoldable message_discrete : Discrete MessageRecord
message_discrete = hlevel (ℕ_discrete, string_discrete)

abbrev later : MessageRecord
later = record {
  id = "m-2";
  session_id = "s-1";
  sequence = 2;
  role = Role.assistant;
  timestamp = 20;
  content = "two files";
  tokens = none;
}

abbrev earlier : MessageRecord
earlier = record later { id = "m-1"; sequence = 1; role = Role.user; content = "what is here?" }

abbrev messages : Format MessageRecord
messages = names message_discrete later earlier

abbrev said : PartRecord
said = text_part "p-1" "m-2" 1 "two files"

abbrev considered : PartRecord
considered = thought_part "p-2" "m-2" 0 "look first"

-- Parts are only read here.
abbrev parts : Format PartRecord
parts = record {
  to_json = λ p. ok p.id;
  from_json = λ t. if t == "p-1" then ok said else ok considered;
}

abbrev store : HistoryStore texts messages parts
store = record {
  messages = ("m-2", "first") ∷ ("m-1", "second") ∷ [];
  parts = ("p-1", "p-1") ∷ ("p-2", "p-2") ∷ [];
}

messages_read : all_records texts messages store.messages ≡ ok (later ∷ earlier ∷ [])
unfolding all_records
messages_read = refl

parts_read : all_records texts parts store.parts ≡ ok (said ∷ considered ∷ [])
unfolding all_records
parts_read = refl

get_session_parts_by_type_lem_example :
    (listed : List MessageRecord) × (get_session_parts_by_type texts messages parts "s-1"
        PartType.thought store
      ≡ ok (parts_in_all texts messages parts (said ∷ considered ∷ []) PartType.thought listed))
    × Permᴰ listed (keep (λ (m : MessageRecord). m.session_id == "s-1") (later ∷ earlier ∷ []))
    × IsAscending (λ (m : MessageRecord). m.sequence) listed
get_session_parts_by_type_lem_example =
    get_session_parts_by_type_lem texts messages parts "s-1" PartType.thought store
      (later ∷ earlier ∷ []) (said ∷ considered ∷ []) messages_read parts_read

one_thought :
    get_session_parts_by_type texts messages parts "s-1" PartType.thought store
    ≡ ok (considered ∷ [])
unfolding get_session_parts_by_type list_messages parts_of_messages list_parts all_records sort_by
    insert_by thought_part text_part
one_thought = refl
