-- ===== src/History/Record.antt =====
-- crates/avix-core/src/history/record.rs. A UUID is the text that it is written as; the identifier that a
-- part gets is an argument.
use avix.Base.{ℕ, String, nat_eq, ◌==◌, Bool, List, [], ◌∷◌, Option, none, some}
use avix.Base.Json.{Json, json_string, json_other, json_object, members_of}

pub data Role : Type 0 where
  user assistant tool system : Role

pub record MessageRecord : Type 0 where
  pub id : String
  pub session_id : String
  pub sequence : ℕ
  pub role : Role
  pub timestamp : ℕ
  pub content : String
  pub tokens : Option ℕ

pub data PartType : Type 0 where
  text tool_call file_diff code_block thought image embedding summary : PartType

abbrev pub part_tag : PartType → ℕ
part_tag text = 0
part_tag tool_call = 1
part_tag file_diff = 2
part_tag code_block = 3
part_tag thought = 4
part_tag image = 5
part_tag embedding = 6
part_tag summary = 7

-- `PartType: PartialEq`
abbrev pub same_part_type : PartType → PartType → Bool
same_part_type s t = part_tag s == part_tag t

pub record PartRecord : Type 0 where
  pub id : String
  pub message_id : String
  pub part_index : ℕ
  pub part_type : PartType
  pub data_ : Json

abbrev pub json_option : Option Json → Json
json_option none = json_other "null"
json_option (some j) = j

abbrev pub json_text_option : Option String → Json
json_text_option none = json_other "null"
json_text_option (some s) = json_string s

abbrev pub part : PartType → List (String × Json) → String → String → ℕ → PartRecord
part part_type members uuid message_id index = record {
  id = uuid;
  message_id = message_id;
  part_index = index;
  part_type = part_type;
  data_ = json_object (members_of members);
}

unfoldable pub text_part : (uuid message_id : String) (index : ℕ) (content : String) → PartRecord
text_part uuid message_id index content =
    part text (("content", json_string content) ∷ []) uuid message_id index

unfoldable pub tool_call_part :
    (uuid message_id : String) (index : ℕ) (call_id tool_name : String) (args : Json)
    (result : Option Json)
    → PartRecord
tool_call_part uuid message_id index call_id tool_name args result =
    part tool_call
      (("call_id", json_string call_id)
        ∷ ("tool_name", json_string tool_name)
        ∷ ("args", args)
        ∷ ("result", json_option result)
        ∷ [])
      uuid message_id index

unfoldable pub file_diff_part :
    (uuid message_id : String) (index : ℕ) (path : String) (diff content : Option String)
    → PartRecord
file_diff_part uuid message_id index path diff content =
    part file_diff
      (("path", json_string path)
        ∷ ("diff", json_text_option diff)
        ∷ ("content", json_text_option content)
        ∷ [])
      uuid message_id index

unfoldable pub thought_part :
    (uuid message_id : String) (index : ℕ) (reasoning : String) → PartRecord
thought_part uuid message_id index reasoning =
    part thought (("reasoning", json_string reasoning) ∷ []) uuid message_id index
