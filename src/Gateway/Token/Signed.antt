-- ===== src/Gateway/Token/Signed.antt =====
-- What a token that validates has proved, and what revocation does.
use Prim.Native.Char.{code}
use text.Mathlib.TextLemmas.{nil-append, cons-append}
use native.Mathlib.Decide.{ℕ_discrete}
use text.Mathlib.TextEquality.{Char-path}
use avix.Base.{
  Option-cases, inl, inr, ℕ, ◌≤◌, ◌≡◌, ◌≢◌, ◌↔◌, refl, ap, sym, ◌∙◌, String, false, arith, eq_iff,
  ◌+++◌, List, contains, contains-add_to, none, some, string_eq, nat_eq, beq_self,
}
use avix.Errors.{
  ok, bind_eq_ok, map_err_eq_ok, Result-cases, map_err, config_parse, capability_denied,
}
use avix.Gateway.Token.{
  AtpTokenClaims, Codec, split_dot, issue, check_parts, read_claims, validate, AtpTokenStore,
  revoke, validate_stored,
}

abbrev pub NoDot : String → Type 0
NoDot String.[] = Unit {0}
NoDot (String.◌∷◌ c s) = (code c ≢ b'.') × NoDot s

split_dot-append : (p q : String) → NoDot p → split_dot (p +++ "." +++ q) ≡ some (p, q)
unfolding split_dot
split_dot-append String.[] q h = rw (nil-append, cons-append, nil-append) refl
split_dot-append (String.◌∷◌ c p) q (h, k) = rw cons-append (ground (arith, split_dot-append p q k))

split_dot_sound : (s p q : String) → split_dot s ≡ some (p, q) → s ≡ p +++ "." +++ q
unfolding split_dot
split_dot_sound String.[] p q e = cc
split_dot_sound (String.◌∷◌ c s) p q e = elim (ℕ_discrete (code c) b'.') [
  | yes h ↦
      let first : p ≡ "" = ground arith in
      let second : q ≡ s = ground arith in
      rw (first, second, nil-append, cons-append, nil-append)
        (ap (λ x. String.◌∷◌ x s) (Char-path c "." h))
  | no h ↦ elim (Option-cases (split_dot s)) [
    | inl f ↦ absurd (ground arith)
    | inr (pq, f) ↦
        let first : p ≡ String.◌∷◌ c pq.0 = ground arith in
        let second : q ≡ pq.1 = ground arith in
        rw (first, second, cons-append) (ap (String.◌∷◌ c) (split_dot_sound s pq.0 pq.1 f))
  ]
]

-- A token that validates is a payload and its signature under the secret, joined by a dot; the
-- payload decodes to the claims that are returned, and they have not expired.
pub record IsSigned (codec : Codec) (token secret : String) (now : ℕ) (claims : AtpTokenClaims)
    : Type 0 where
  pub payload : String
  pub bytes : List ℕ
  pub shape : token ≡ payload +++ "." +++ codec.sign payload secret
  pub decoded : codec.base64_decode payload ≡ ok bytes
  pub parsed : codec.from_json bytes ≡ ok claims
  pub current : now ≤ claims.exp

module _ (codec : Codec) where
  read_claims_sound :
      (payload : String) (now : ℕ) (claims : AtpTokenClaims)
      → read_claims codec payload now ≡ ok claims
      → (bytes : List ℕ) × (codec.base64_decode payload ≡ ok bytes)
        × (codec.from_json bytes ≡ ok claims)
        × (now ≤ claims.exp)
  unfolding read_claims
  read_claims_sound payload now claims h =
      let (bytes, decoded, more) =
        bind_eq_ok (map_err capability_denied (codec.base64_decode payload)) _ h in
      let (c, parsed, last) = bind_eq_ok (map_err config_parse (codec.from_json bytes)) _ more in
      let same : c ≡ claims = ground arith in
      (bytes, map_err_eq_ok _ _ decoded, rw (← same) (map_err_eq_ok _ _ parsed), ground arith)

  read_claims_complete :
      (payload : String) (bytes : List ℕ) (now : ℕ) (claims : AtpTokenClaims)
      → codec.base64_decode payload ≡ ok bytes
      → codec.from_json bytes ≡ ok claims
      → now ≤ claims.exp
      → read_claims codec payload now ≡ ok claims
  unfolding read_claims
  read_claims_complete payload bytes now claims d p c = rw (d, p) (ground arith)

  validate_split :
      (token secret p q : String) (now : ℕ)
      → split_dot token ≡ some (p, q)
      → validate codec token secret now ≡ check_parts codec (p, q) secret now
  unfolding validate
  validate_split token secret p q now f = rw (f, validate)

  check_parts_sound :
      (p q secret : String) (now : ℕ) (claims : AtpTokenClaims)
      → check_parts codec (p, q) secret now ≡ ok claims
      → (q ≡ codec.sign p secret) × (read_claims codec p now ≡ ok claims)
  unfolding check_parts
  check_parts_sound p q secret now claims h = ground (arith, eq_iff q (codec.sign p secret))

  check_parts_signed :
      (p secret : String) (now : ℕ)
      → check_parts codec (p, codec.sign p secret) secret now ≡ read_claims codec p now
  unfolding check_parts
  check_parts_signed p secret now = rw (beq_self (codec.sign p secret))

  validate-ne-ok :
      (token secret : String) (now : ℕ) (claims : AtpTokenClaims)
      → split_dot token ≡ none
      → validate codec token secret now ≢ ok claims
  unfolding validate
  validate-ne-ok token secret now claims f h = ground arith

  -- Whatever validates is signed under the secret, decodes to its claims and has not expired.
  pub validate-IsSigned :
      (token secret : String) (now : ℕ) (claims : AtpTokenClaims)
      → validate codec token secret now ≡ ok claims
      → IsSigned codec token secret now claims
  validate-IsSigned token secret now claims h = elim (Option-cases (split_dot token)) [
    | inl f ↦ absurd (validate-ne-ok token secret now claims f h)
    | inr ((p, q), f) ↦
        let (signed, read) =
          check_parts_sound p q secret now claims
            (sym (validate_split token secret p q now f) ∙ h) in
        let (bytes, decoded, parsed, current) = read_claims_sound p now claims read in
        record {
          payload = p;
          bytes = bytes;
          shape = rw (← signed) (split_dot_sound token p q f);
          decoded = decoded;
          parsed = parsed;
          current = current;
        }
  ]

  issue_shape :
      (claims : AtpTokenClaims) (secret token : String)
      → issue codec claims secret ≡ ok token
      → (bytes : List ℕ) × (codec.to_json claims ≡ ok bytes)
        × (token
            ≡ codec.base64_encode bytes +++ "." +++ codec.sign (codec.base64_encode bytes) secret)
  unfolding issue
  issue_shape claims secret token h =
      let (bytes, made, shape) = bind_eq_ok (map_err config_parse (codec.to_json claims)) _ h in
      (bytes, map_err_eq_ok _ _ made, ground arith)

  -- What `issue` makes, `validate` takes under the same secret until it expires, if decoding undoes
  -- encoding and base64 text holds no dot.
  pub validate-issue :
      (claims : AtpTokenClaims) (secret token : String) (now : ℕ)
      → ((bytes : List ℕ) → codec.base64_decode (codec.base64_encode bytes) ≡ ok bytes)
      → ((bytes : List ℕ) → NoDot (codec.base64_encode bytes))
      → ((bytes : List ℕ) → codec.to_json claims ≡ ok bytes → codec.from_json bytes ≡ ok claims)
      → issue codec claims secret ≡ ok token
      → now ≤ claims.exp
      → validate codec token secret now ≡ ok claims
  validate-issue claims secret token now decodes plain reads h current =
      let (bytes, made, shape) = issue_shape claims secret token h in
      rw shape (
        validate_split _ secret _ _ now (split_dot-append _ _ (plain bytes))
        ∙ check_parts_signed _ secret now
        ∙ read_claims_complete _ bytes now claims (decodes bytes) (reads bytes made) current)

module _ (codec : Codec) (store : AtpTokenStore) where
  -- After a session is revoked exactly the tokens of other sessions validate as before.
  pub validate_stored-revoke :
      (session_id token : String) (now : ℕ) (claims : AtpTokenClaims)
      → (validate_stored codec (revoke session_id store) token now ≡ ok claims)
        ↔ ((validate_stored codec store token now ≡ ok claims) × (claims.session_id ≢ session_id))
  unfolding validate_stored revoke
  validate_stored-revoke session_id token now claims =
      elim (Result-cases (validate codec token store.secret now)) [
        | inl (c, f) ↦ rw f (
            ground (
              arith,
              eq_iff session_id c.session_id,
              contains-add_to session_id c.session_id store.revoked,
            ))
        | inr (e, f) ↦ rw f (ground arith)
      ]

  -- A token that the store accepts is signed with the store's secret, decodes to the claims, has not
  -- expired, and is not revoked.
  pub validate_stored_sound :
      (token : String) (now : ℕ) (claims : AtpTokenClaims)
      → validate_stored codec store token now ≡ ok claims
      → IsSigned codec token store.secret now claims
        × (contains store.revoked claims.session_id ≡ false)
  unfolding validate_stored
  validate_stored_sound token now claims h =
      let (c, valid, kept) = bind_eq_ok (validate codec token store.secret now) _ h in
      let same : c ≡ claims = ground arith in
      (validate-IsSigned codec token store.secret now claims (valid ∙ ap ok same), ground arith)
