-- ===== src/Errors.antt =====
-- crates/avix-core/src/error.rs and crates/avix-core/src/gateway/atp/error.rs: the error values, with
-- their texts, since the gateway reads the text of an error. `Result` is Rust's, with `?` as bind.
use avix.Base.{String, ◌+++◌, Option, none, some, ◌≡◌, refl, ◌⊎◌, inl, inr, arith}

pub data AvixError : Type 0 where
  invalid_pid : String → AvixError
  invalid_ipc_addr : String → AvixError
  invalid_tool_name : (name reason : String) → AvixError
  unknown_credential_type : String → AvixError
  config_parse : String → AvixError
  capability_denied : String → AvixError
  no_provider_available : String → AvixError
  provider_not_permitted : String → AvixError
  adapter_error : String → AvixError
  io : String → AvixError
  ipc_timeout : AvixError
  ipc_frame_too_large : AvixError
  invalid_input : String → AvixError
  not_found : String → AvixError
  manifest_not_found : (path : String) → AvixError
  manifest_signature_mismatch : (path : String) → AvixError
  manifest_kind_mismatch : (expected found : String) → AvixError
  required_tool_denied : (tool agent : String) → AvixError
  model_requirements_not_met : (reason : String) → AvixError
  serialization : String → AvixError
  mcp_protocol : String → AvixError
  mcp_unreachable : String → AvixError
  cancelled : String → AvixError

-- `Display`, which `to_string` calls.
unfoldable pub display : AvixError → String
display (invalid_pid s) = "invalid PID: " +++ s
display (invalid_ipc_addr s) = "invalid IPC address: " +++ s
display (invalid_tool_name name reason) = "invalid tool name '" +++ name +++ "': " +++ reason
display (unknown_credential_type s) = "unknown credential type: " +++ s
display (config_parse s) = "config parse error: " +++ s
display (capability_denied s) = "capability denied: " +++ s
display (no_provider_available s) = "no provider available for modality: " +++ s
display (provider_not_permitted s) = "provider not permitted: " +++ s
display (adapter_error s) = "adapter error: " +++ s
display (io s) = "IO error: " +++ s
display ipc_timeout = "IPC call timed out"
display ipc_frame_too_large = "IPC frame too large"
display (invalid_input s) = "invalid input: " +++ s
display (not_found s) = "not found: " +++ s
display (manifest_not_found path) = "manifest not found at path: " +++ path
display (manifest_signature_mismatch path) = "manifest signature mismatch at path: " +++ path
display (manifest_kind_mismatch expected found) =
    "manifest kind mismatch: expected '" +++ expected +++ "', found '" +++ found +++ "'"
display (required_tool_denied tool agent) =
    "required tool '" +++ tool +++ "' denied for agent '" +++ agent +++ "'"
display (model_requirements_not_met reason) = "model requirements not met: " +++ reason
display (serialization s) = "serialization error: " +++ s
display (mcp_protocol s) = "MCP protocol error: " +++ s
display (mcp_unreachable s) = "MCP server unreachable: " +++ s
display (cancelled s) = "cancelled: " +++ s

pub data AtpErrorCode : Type 0 where
  eauth eexpired esession eperm enotfound econflict eused elimit eparse einternal eunavail :
      AtpErrorCode

-- `detail` is left out: no code that is modelled here sets it.
pub record AtpError : Type 0 where
  pub code : AtpErrorCode
  pub message : String

abbrev pub atp_error : AtpErrorCode → String → AtpError
atp_error code message = record { code = code; message = message }

pub data Result (E A : Type 0) : Type 0 where
  err : E → Result E A
  ok : A → Result E A

abbrev pub map_err : {E F A : Type 0} → (E → F) → Result E A → Result F A
map_err f (ok a) = ok a
map_err f (err e) = err (f e)

abbrev pub ok_or : {E A : Type 0} → Option A → E → Result E A
ok_or none e = err e
ok_or (some a) e = ok a

-- The operator `?`
module _ {E A B : Type 0} where
  infixl 5 ◌>>=◌ ◌>>◌
  abbrev pub ◌>>=◌ : Result E A → (A → Result E B) → Result E B
  err e >>= next = err e
  ok a >>= next = next a

  abbrev pub ◌>>◌ : Result E A → Result E B → Result E B
  err e >> after = err e
  ok a >> after = after

-- Inversion of results: what a success says of the steps before it.
pub bind_eq_ok :
    {E A B : Type 0} (step : Result E A) (next : A → Result E B) {b : B}
    → (step >>= next) ≡ ok b
    → (a : A) × (step ≡ ok a) × (next a ≡ ok b)
bind_eq_ok (err e) next h = absurd (ground arith)
bind_eq_ok (ok a) next h = (a, refl, h)

pub map_err_eq_ok :
    {E F A : Type 0} (f : E → F) (m : Result E A) {a : A} → map_err f m ≡ ok a → m ≡ ok a
map_err_eq_ok f (ok a) h = ground arith
map_err_eq_ok f (err e) h = cc

pub Result-cases :
    {E A : Type 0} (m : Result E A) → ((a : A) × (m ≡ ok a)) ⊎ ((e : E) × (m ≡ err e))
Result-cases (ok a) = inl (a, refl)
Result-cases (err e) = inr (e, refl)
