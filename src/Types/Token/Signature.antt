-- ===== src/Types/Token/Signature.antt =====
-- What the signature of a capability token covers.
use mathlib.Core.List.{Permᴰ}
use avix.Base.{ℕ, ◌+◌, ◌*◌, ◌≡◌, sym, ◌∙◌, ap, String, true, string_eq, List, Option, eq_iff, ◌+++◌}
use avix.Base.Sort.{sort_perm}
use avix.Types.Token.{
  IssuedTo, CapabilityToken, second, timestamp, signed_payload, compute_signature, verify_signature,
  mint, from_token, into_token,
}

signed_payload_perm :
    (t u : CapabilityToken)
    → Permᴰ t.granted_tools u.granted_tools
    → timestamp t.issued_at ≡ timestamp u.issued_at
    → timestamp t.expires_at ≡ timestamp u.expires_at
    → signed_payload t ≡ signed_payload u
unfolding signed_payload
signed_payload_perm t u p e f = rw (e, f, sort_perm p)

-- A minted token verifies under its key after its tools are put in another order, whoever it is then
-- said to be issued to, within the same seconds, and after a round through the manifest.
pub verify_signature-mint :
    (mac : String → String → String) (granted_tools : List String) (issued_to : Option IssuedTo)
    (ttl_secs : ℕ) (key : String) (now : ℕ) (t : CapabilityToken)
    → Permᴰ t.granted_tools granted_tools
    → timestamp t.issued_at ≡ timestamp now
    → timestamp t.expires_at ≡ timestamp (now + ttl_secs * second)
    → t.signature ≡ (mint mac granted_tools issued_to ttl_secs key now).signature
    → verify_signature mac (into_token (from_token t)) key ≡ true
unfolding mint verify_signature compute_signature into_token from_token signed_payload
verify_signature-mint mac granted_tools issued_to ttl_secs key now t p e f same = (eq_iff _ _).1 (
    same
    ∙ ap (λ s. "sha256:" +++ mac key s)
        (sym (signed_payload_perm t (mint mac granted_tools issued_to ttl_secs key now) p e f)))
