-- ===== src/Auth/Service.antt =====
-- crates/avix-core/src/auth/service.rs and validate.rs. The fresh id of a session is an argument; hex and
-- HMAC are the record `Digest`.
pub mod Refresh
use Prim.Native.Char.{code}
use avix.Base.{
  ℕ, ◌+◌, ◌*◌, String, Bool, true, false, not, ◌&&◌, if◌then◌else◌, ◌==◌, string_eq, nat_eq,
  nat_beq, List, [], ◌∷◌, Option, none, some, length, ◌+++◌,
}
use avix.Base.Dict.{Dict, get, insert, remove}
use avix.Errors.{AvixError, capability_denied, Result, ok, err, ◌>>=◌}
use avix.Types.Role.{Role}
use avix.Gateway.Token.{AtpTokenClaims, Codec, AtpTokenStore, issue, validate_stored}
use avix.Auth.Session.{SessionEntry, active, session_expired}

pub data CredentialType : Type 0 where
  api_key : String → Option String → CredentialType
  password : String → CredentialType

pub record AuthIdentity : Type 0 where
  pub name : String
  pub uid : ℕ
  pub role : Role
  pub credential : CredentialType

pub record Digest : Type 0 where
  pub hex_decode : String → Option (List ℕ)
  pub hmac : String → String → List ℕ

unfoldable pub strip_prefix : String → String → Option String
strip_prefix String.[] s = some s
strip_prefix (String.◌∷◌ c p) String.[] = none
strip_prefix (String.◌∷◌ c p) (String.◌∷◌ d s) =
    let rest = strip_prefix p s in if nat_beq (code c) (code d) then rest else none

abbrev pub same_bytes : List ℕ → List ℕ → Bool
same_bytes [] [] = true
same_bytes [] (b ∷ bs) = false
same_bytes (a ∷ more) [] = false
same_bytes (a ∷ more) (b ∷ bs) = nat_beq a b && same_bytes more bs

unfoldable pub verify_api_key : Digest → String → String → Bool
verify_api_key digest key_hash presented = elim (strip_prefix "hmac-sha256:" key_hash) [
  | none ↦ false
  | some hex_part ↦ elim (digest.hex_decode hex_part) [
    | none ↦ false
    | some stored_bytes ↦ same_bytes (digest.hmac "config-init-secret" presented) stored_bytes
  ]
]

-- Any password that is not empty is accepted, as in the code.
unfoldable pub validate_credential : Digest → CredentialType → String → Bool
unfolding verify_api_key
validate_credential digest (api_key key_hash header) presented =
    verify_api_key digest key_hash presented
validate_credential digest (password hash) presented = not (presented == "")

pub record AuthService : Type 0 where
  pub identities : List AuthIdentity
  pub sessions : Dict String SessionEntry
  pub ttl : ℕ

unfoldable pub find_identity : String → List AuthIdentity → Option AuthIdentity
find_identity name [] = none
find_identity name (i ∷ is) =
    let rest = find_identity name is in if i.name == name then some i else rest

abbrev pub first_scope : List String
first_scope = "proc" ∷ "signal" ∷ "fs" ∷ "snap" ∷ "cron" ∷ []

abbrev pub new_session : AuthIdentity → String → ℕ → ℕ → SessionEntry
new_session identity session_id ttl now = record {
  session_id = session_id;
  identity_name = identity.name;
  uid = identity.uid;
  role = identity.role;
  crews = [];
  scope = first_scope;
  state = active;
  connected_at = now;
  last_activity_at = now;
  idle_since = none;
  closed_at = none;
  closed_reason = none;
  agents = [];
  ttl = ttl;
}

unfoldable pub login :
    Digest
    → String
    → String
    → String
    → ℕ
    → AuthService
    → Result AvixError SessionEntry × AuthService
unfolding find_identity validate_credential
login digest identity_name credential session_id now auth =
    elim (find_identity identity_name auth.identities) [
      | none ↦ (err (capability_denied ("unknown identity: " +++ identity_name)), auth)
      | some identity ↦
          if not (validate_credential digest identity.credential credential)
          then (err (capability_denied "invalid credential"), auth)
          else let entry = new_session identity session_id auth.ttl now in
            (ok entry, record auth { sessions = insert session_id entry auth.sessions })
    ]

unfoldable pub validate_session : String → ℕ → AuthService → Result AvixError SessionEntry
validate_session session_id now auth = elim (get session_id auth.sessions) [
  | none ↦ err (capability_denied "invalid session")
  | some entry ↦
      if session_expired entry now then err (capability_denied "session expired") else ok entry
]

unfoldable pub revoke_session : String → AuthService → Result AvixError (Unit {0}) × AuthService
revoke_session session_id auth = elim (get session_id auth.sessions) [
  | none ↦ (err (capability_denied "session not found"), auth)
  | some _ ↦ (ok tt, record auth { sessions = remove session_id auth.sessions })
]

pub active_session_count : AuthService → ℕ
active_session_count auth = length auth.sessions

abbrev pub eight_hours : ℕ
eight_hours = 8 * 3600 * 1_000_000_000

unfoldable pub refresh_token :
    Codec → String → AtpTokenStore → ℕ → AuthService → Result AvixError (String × AtpTokenClaims)
unfolding validate_session
refresh_token codec old_token store now auth = do
  claims ← validate_stored codec store old_token now
  session ← validate_session claims.session_id now auth
  let new_claims = record claims { iat = now; exp = now + eight_hours }
  new_token ← issue codec new_claims store.secret
  ok (new_token, new_claims)
