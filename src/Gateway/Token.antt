-- ===== src/Gateway/Token.antt =====
-- crates/avix-core/src/auth/atp_token.rs: signed session tokens and the store that revokes them.
-- Times are nanoseconds since the epoch. HMAC, base64 and serde_json are the record `Codec`.
pub mod Signed
use Prim.Native.Char.{Char, code}
use avix.Base.{
  ℕ, ◌+◌, ◌*◌, String, Bool, true, false, not, ◌&&◌, ◌==◌, string_eq, nat_eq, if◌then◌else◌, ltb,
  ◌+++◌, List, contains, add_to, Option, none, some,
}
use avix.Errors.{AvixError, capability_denied, config_parse, Result, ok, err, ◌>>=◌, map_err}
use avix.Types.Role.{Role}

pub record AtpTokenClaims : Type 0 where
  pub sub : String
  pub uid : ℕ
  pub role : Role
  pub crews : List String
  pub session_id : String
  pub iat : ℕ
  pub exp : ℕ
  pub scope : List String

abbrev pub five_minutes : ℕ
five_minutes = 300 * 1_000_000_000

pub is_expired : AtpTokenClaims → ℕ → Bool
is_expired claims now = ltb claims.exp now

pub is_expiring_soon : AtpTokenClaims → ℕ → Bool
is_expiring_soon claims now = ltb claims.exp (now + five_minutes) && ltb now claims.exp

-- What the code calls of other crates. Bytes are numbers.
pub record Codec : Type 0 where
  pub sign : String → String → String
  pub base64_encode : List ℕ → String
  pub base64_decode : String → Result String (List ℕ)
  pub to_json : AtpTokenClaims → Result String (List ℕ)
  pub from_json : List ℕ → Result String AtpTokenClaims

-- `token.splitn(2, '.')` where it gives two parts, at the first dot.
unfoldable pub split_dot : String → Option (String × String)
split_dot String.[] = none
split_dot (String.◌∷◌ c s) =
    let later = split_dot s in
    if code c == b'.'
    then some ("", s)
    else elim later [ none ↦ none | some (p, q) ↦ some (String.◌∷◌ c p, q) ]

module _ (codec : Codec) where
  unfoldable pub issue : AtpTokenClaims → String → Result AvixError String
  issue claims secret = do
    json ← map_err config_parse (codec.to_json claims)
    let payload = codec.base64_encode json
    let sig = codec.sign payload secret
    ok (payload +++ "." +++ sig)

  read_claims : String → ℕ → Result AvixError AtpTokenClaims
  unfolding is_expired
  read_claims payload now = do
    payload_bytes ← map_err capability_denied (codec.base64_decode payload)
    claims ← map_err config_parse (codec.from_json payload_bytes)
    if is_expired claims now then err (capability_denied "token expired") else ok claims

  check_parts : String × String → String → ℕ → Result AvixError AtpTokenClaims
  unfolding read_claims
  check_parts (payload, sig) secret now =
      if not (sig == codec.sign payload secret)
      then err (capability_denied "invalid token signature")
      else read_claims payload now

  unfoldable pub validate : String → String → ℕ → Result AvixError AtpTokenClaims
  unfolding check_parts
  validate token secret now = elim (split_dot token) [
    | none ↦ err (capability_denied "invalid token format")
    | some parts ↦ check_parts parts secret now
  ]

pub record AtpTokenStore : Type 0 where
  pub secret : String
  pub revoked : List String

unfoldable pub revoke : String → AtpTokenStore → AtpTokenStore
revoke session_id store = record store { revoked = add_to session_id store.revoked }

module _ (codec : Codec) (store : AtpTokenStore) where
  unfoldable pub validate_stored : String → ℕ → Result AvixError AtpTokenClaims
  validate_stored token now = do
    claims ← validate codec token store.secret now
    if contains store.revoked claims.session_id
        then err (capability_denied "token revoked")
        else ok claims

  unfoldable pub token_expiring_soon : String → ℕ → Result AvixError Bool
  unfolding is_expiring_soon
  token_expiring_soon token now = do
    claims ← validate_stored token now
    ok (is_expiring_soon claims now)
