-- ===== src/Gateway/Validator.antt =====
-- crates/avix-core/src/gateway/validator.rs: the pipeline that each command goes through. The body of a
-- command is a JSON value of serde_json: `path_of` stands for `body["path"].as_str()`.
pub mod Accepted
pub mod History
use avix.Base.{
  ℕ, String, Bool, true, false, not, if◌then◌else◌, ◌==◌, string_eq, ◌+++◌, has_text, Option, none,
  some,
}
use avix.Errors.{
  AvixError, display, AtpError, atp_error, eexpired, eauth, esession, Result, ok, err, ◌>>=◌, ◌>>◌,
  map_err,
}
use avix.Types.Role.{Role}
use avix.Gateway.Acl.{AtpDomain, fs, check_domain_role, check_admin_port, check_fs_hard_veto}
use avix.Gateway.Replay.{ReplayGuard, check_and_register}
use avix.Gateway.Token.{AtpTokenClaims, Codec, AtpTokenStore, validate_stored}

pub record AtpCmd (Value : Type 0) : Type 0 where
  pub msg_type : String
  pub id : String
  pub token : String
  pub domain : AtpDomain
  pub op : String
  pub body : Value

pub record ValidatedCmd (Value : Type 0) : Type 0 where
  pub cmd : AtpCmd Value
  pub caller_identity : String
  pub caller_role : Role
  pub caller_session_id : String

token_error : AvixError → AtpError
token_error e =
    let msg = display e in
    if has_text msg "expired"
    then atp_error eexpired "token expired"
    else atp_error eauth ("invalid token: " +++ msg)

abbrev unwrap_or_empty : Option String → String
unwrap_or_empty none = ""
unwrap_or_empty (some s) = s

abbrev is_fs : AtpDomain → Bool
is_fs fs = true
is_fs domain = false

module _ {Value : Type 0} where
  veto : (Value → Option String) → AtpCmd Value → Result AtpError (Unit {0})
  veto path_of cmd =
      if is_fs cmd.domain
      then check_fs_hard_veto (unwrap_or_empty (path_of cmd.body)) cmd.op
      else ok tt

  gates :
      (Value → Option String) → AtpCmd Value → Bool → AtpTokenClaims → Result AtpError (Unit {0})
  unfolding veto
  gates path_of cmd is_admin_port claims = do
    check_domain_role cmd.domain cmd.op claims.role
    check_admin_port cmd.domain cmd.op is_admin_port
    veto path_of cmd

  -- Steps 4 to 8, once the token has given its claims.
  admit :
      (Value → Option String)
      → AtpCmd Value
      → String
      → Bool
      → AtpTokenClaims
      → Result AtpError AtpTokenClaims
  unfolding gates
  admit path_of cmd bound_session_id is_admin_port claims =
      if not (claims.session_id == bound_session_id)
      then err (atp_error esession "session ID mismatch")
      else do gates path_of cmd is_admin_port claims; ok claims

  abbrev pub validated : AtpCmd Value → AtpTokenClaims → ValidatedCmd Value
  validated cmd claims = record {
    cmd = cmd;
    caller_identity = claims.sub;
    caller_role = claims.role;
    caller_session_id = claims.session_id;
  }

  register :
      AtpCmd Value
      → ReplayGuard
      → Result AtpError AtpTokenClaims
      → Result AtpError (ValidatedCmd Value) × ReplayGuard
  register cmd guard (err e) = (err e, guard)
  register cmd guard (ok claims) =
      let (taken, guard') = check_and_register guard cmd.id in
      (taken >>= (λ _. ok (validated cmd claims)), guard')

module _ {Value : Type 0} (codec : Codec) (path_of : Value → Option String)
    (store : AtpTokenStore) where
  -- Every step before the replay protection; none of them changes a state.
  checks : AtpCmd Value → String → Bool → ℕ → Result AtpError AtpTokenClaims
  checks cmd bound_session_id is_admin_port now = do
    claims ← map_err token_error (validate_stored codec store cmd.token now)
    admit path_of cmd bound_session_id is_admin_port claims

  unfoldable pub validate_cmd :
      AtpCmd Value
      → ReplayGuard
      → String
      → Bool
      → ℕ
      → Result AtpError (ValidatedCmd Value) × ReplayGuard
  unfolding register checks admit token_error
  validate_cmd cmd guard bound_session_id is_admin_port now =
      register cmd guard (checks cmd bound_session_id is_admin_port now)
