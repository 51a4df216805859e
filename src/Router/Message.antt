-- ===== src/Router/Message.antt =====
-- crates/avix-core/src/ipc/message.rs and router/caller.rs. `Value` is the JSON value of serde_json, and
-- `Json Value` is what the router uses of it.
use avix.Base.{ℕ, String, Option, none, some, string_eq}
use avix.Base.Int.{ℤ}
use avix.Base.Dict.{Dict, insert}

pub record JsonRpcRequest (Value : Type 0) : Type 0 where
  pub jsonrpc : String
  pub id : String
  pub method : String
  pub params : Value

pub record JsonRpcError (Value : Type 0) : Type 0 where
  pub code : ℤ
  pub message : String
  pub data_value : Option Value

pub record JsonRpcResponse (Value : Type 0) : Type 0 where
  pub jsonrpc : String
  pub id : String
  pub result : Option Value
  pub error : Option (JsonRpcError Value)

abbrev pub ok_response : {Value : Type 0} → String → Value → JsonRpcResponse Value
ok_response id result = record { jsonrpc = "2.0"; id = id; result = some result; error = none }

abbrev pub err_response :
    {Value : Type 0} → String → ℤ → String → Option Value → JsonRpcResponse Value
err_response id code message data_value = record {
  jsonrpc = "2.0";
  id = id;
  result = none;
  error = some (record { code = code; message = message; data_value = data_value });
}

pub record CallerInfo : Type 0 where
  pub pid : ℕ
  pub user : String
  pub token : String

pub record Json (Value : Type 0) : Type 0 where
  pub as_object : Value → Option (Dict String Value)
  pub object : Dict String Value → Value
  pub to_value : CallerInfo → Value

unfoldable pub inject_into : {Value : Type 0} → Json Value → CallerInfo → Value → Value
inject_into json caller params = elim (json.as_object params) [
  | none ↦ params
  | some members ↦ json.object (insert "_caller" (json.to_value caller) members)
]
