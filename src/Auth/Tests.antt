-- ===== src/Auth/Tests.antt =====
-- Tests and witnesses of the logins.
use avix.Base.{◌+◌, ◌≡◌, ◌↔◌, refl, [], ◌∷◌, none, string_eq}
use avix.Errors.{ok}
use avix.Types.Role.{user}
use avix.Gateway.Token.{AtpTokenClaims, Codec, AtpTokenStore}
use avix.Auth.Service.{
  AuthService, AuthIdentity, Digest, password, find_identity, validate_credential, new_session,
  login, refresh_token, eight_hours,
}
use avix.Auth.Service.Refresh.{IsRefreshed, refresh_token_iff}

abbrev claims : AtpTokenClaims
claims = record {
  sub = "ann";
  uid = 5;
  role = user;
  crews = [];
  session_id = "s-1";
  iat = 0;
  exp = 100;
  scope = [];
}

-- Every payload is one byte here, and every signature the same.
abbrev codec : Codec
codec = record {
  sign = λ payload secret. "sig";
  base64_encode = λ bytes. "b";
  base64_decode = λ text. ok (1 ∷ []);
  to_json = λ c. ok (1 ∷ []);
  from_json = λ bytes. ok claims;
}

abbrev digest : Digest
digest = record { hex_decode = λ s. none; hmac = λ key text. [] }

abbrev ann : AuthIdentity
ann = record { name = "ann"; uid = 5; role = user; credential = password "hash" }

abbrev auth : AuthService
auth = record { identities = ann ∷ []; sessions = []; ttl = 60 }

abbrev entered : AuthService
entered = (login digest "ann" "pw" "s-1" 10 auth).1

logs_in : (login digest "ann" "pw" "s-1" 10 auth).0 ≡ ok (new_session ann "s-1" 60 10)
unfolding login find_identity validate_credential
logs_in = refl

abbrev store : AtpTokenStore
store = record { secret = "k"; revoked = [] }

abbrev renewed : AtpTokenClaims
renewed = record claims { iat = 20; exp = 20 + eight_hours }

refresh_token_iff_example :
    (refresh_token codec "b.sig" store 20 entered ≡ ok ("b.sig", renewed))
    ↔ IsRefreshed codec "b.sig" store 20 entered "b.sig" renewed
refresh_token_iff_example = refresh_token_iff codec "b.sig" store 20 entered "b.sig" renewed
