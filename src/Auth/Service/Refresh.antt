-- ===== src/Auth/Service/Refresh.antt =====
-- What a login and a refreshed token rest on.
use Prim.Native.String.{String}
use avix.Base.{
  ℕ, ◌+◌, ◌-◌, ◌≤◌, ◌≡◌, ◌↔◌, true, false, string_eq, nat_eq, none, some, arith, Option-cases,
  Bool-cases, inl, inr, eq_iff,
}
use avix.Base.Dict.{get, insert, get-insert, get-remove}
use avix.Errors.{ok, bind_eq_ok}
use avix.Gateway.Token.{AtpTokenClaims, Codec, AtpTokenStore, issue, validate_stored}
use avix.Auth.Session.{SessionEntry, session_expired}
use avix.Auth.Service.{
  AuthService, AuthIdentity, Digest, find_identity, validate_credential, new_session, login,
  validate_session, revoke_session, refresh_token, eight_hours,
}

validate_session_iff :
    (id : String) (now : ℕ) (auth : AuthService) (entry : SessionEntry)
    → (validate_session id now auth ≡ ok entry)
      ↔ ((get id auth.sessions ≡ some entry) × (session_expired entry now ≡ false))
unfolding validate_session
validate_session_iff id now auth entry = elim (Option-cases (get id auth.sessions)) [
  | inl e ↦ ground arith
  | inr (s, e) ↦ ground arith
]

-- What it takes to refresh a token.
pub record IsRefreshed (codec : Codec) (old_token : String) (store : AtpTokenStore) (now : ℕ)
    (auth : AuthService) (new_token : String) (new_claims : AtpTokenClaims) : Type 0 where
  pub claims : AtpTokenClaims
  pub session : SessionEntry
  pub valid : validate_stored codec store old_token now ≡ ok claims
  pub present : get claims.session_id auth.sessions ≡ some session
  pub fresh : session_expired session now ≡ false
  pub renewed : new_claims ≡ record claims { iat = now; exp = now + eight_hours }
  pub issued : issue codec new_claims store.secret ≡ ok new_token

-- A token is refreshed exactly when it is valid and not revoked and its session is there and has not
-- expired; the new token is issued for the same claims with new times, eight hours apart.
pub refresh_token_iff :
    (codec : Codec) (old_token : String) (store : AtpTokenStore) (now : ℕ) (auth : AuthService)
    (new_token : String) (new_claims : AtpTokenClaims)
    → (refresh_token codec old_token store now auth ≡ ok (new_token, new_claims))
      ↔ IsRefreshed codec old_token store now auth new_token new_claims
unfolding refresh_token
refresh_token_iff codec old_token store now auth new_token new_claims = (
  λ h.
      let (claims, valid, after) = bind_eq_ok (validate_stored codec store old_token now) _ h in
      let (session, live, after) =
        bind_eq_ok (validate_session claims.session_id now auth) _ after in
      let new = record claims { iat = now; exp = now + eight_hours } in
      let (token, issued, last) = bind_eq_ok (issue codec new store.secret) _ after in
      let (present, fresh) = (validate_session_iff claims.session_id now auth session).0 live in
      let same : new_claims ≡ new = ground arith in
      record {
        claims = claims;
        session = session;
        valid = valid;
        present = present;
        fresh = fresh;
        renewed = same;
        issued = ground arith;
      },
  λ r.
      let live =
        (validate_session_iff r.claims.session_id now auth r.session).1 (r.present, r.fresh) in
      ground (arith, r.valid, live, r.renewed, r.issued),
)

get-revoke_session :
    (id : String) (auth : AuthService) → get id (revoke_session id auth).1.sessions ≡ none
unfolding revoke_session
get-revoke_session id auth = elim (Option-cases (get id auth.sessions)) [
  | inl e ↦ rw (e, revoke_session) e
  | inr (entry, e) ↦
      rw (e, revoke_session) (ground (arith, get-remove id id auth.sessions, eq_iff id id))
]

abbrev pub with_session : String → SessionEntry → AuthService → AuthService
with_session id entry auth = record auth { sessions = insert id entry auth.sessions }

validate_new_session :
    (id : String) (identity : AuthIdentity) (now later : ℕ) (auth : AuthService)
    → let made = new_session identity id auth.ttl now in
      (validate_session id later (with_session id made auth) ≡ ok made) ↔ (later - now ≤ auth.ttl)
unfolding session_expired
validate_new_session id identity now later auth =
    let made = new_session identity id auth.ttl now in
    let valid = validate_session_iff id later (with_session id made auth) made in
    ground (arith, valid, get-insert id id made auth.sessions, eq_iff id id)

login_eq_ok :
    (digest : Digest) (name credential id : String) (now : ℕ) (auth : AuthService)
    (entry : SessionEntry)
    → (login digest name credential id now auth).0 ≡ ok entry
    → (identity : AuthIdentity) × (find_identity name auth.identities ≡ some identity)
      × (validate_credential digest identity.credential credential ≡ true)
      × (entry ≡ new_session identity id auth.ttl now)
      × ((login digest name credential id now auth).1
          ≡ with_session id (new_session identity id auth.ttl now) auth)
unfolding login
login_eq_ok digest name credential id now auth entry h =
    elim (Option-cases (find_identity name auth.identities)) [
      | inl e ↦ absurd (ground arith)
      | inr (identity, e) ↦
          elim (Bool-cases (validate_credential digest identity.credential credential)) [
            | inr bad ↦ absurd (ground arith)
            | inl good ↦ (identity, e, good, ground arith, ground arith)
          ]
    ]

-- A login that succeeds is one of a known identity with its credential, and its session is good for just
-- the service's time to live; once it is revoked it is gone.
pub login_lem :
    (digest : Digest) (name credential id : String) (now later : ℕ) (auth : AuthService)
    (entry : SessionEntry)
    → (login digest name credential id now auth).0 ≡ ok entry
    → let auth' = (login digest name credential id now auth).1 in
      ((identity : AuthIdentity) × (find_identity name auth.identities ≡ some identity)
        × (validate_credential digest identity.credential credential ≡ true)
        × (entry ≡ new_session identity id auth.ttl now))
      × ((validate_session id later auth' ≡ ok entry) ↔ (later - now ≤ auth.ttl))
      × (get id (revoke_session id auth').1.sessions ≡ none)
login_lem digest name credential id now later auth entry h =
    let (identity, known, good, same, left) =
      login_eq_ok digest name credential id now auth entry h in
    (
      (identity, known, good, same),
      rw (left, same) (validate_new_session id identity now later auth),
      get-revoke_session id _,
    )
