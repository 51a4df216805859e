-- ===== src/Types/Token.antt =====
-- crates/avix-core/src/types/token.rs: the capability tokens of agents. Times are nanoseconds since the
-- epoch; `mac` is the HMAC of a key and a payload, in hex.
pub mod Signature
use avix.Base.{
  ℕ, ◌+◌, ◌*◌, ◌/◌, String, Bool, string_eq, ◌==◌, ltb, ◌+++◌, List, [], ◌∷◌, Option, none, some,
  contains, decimal,
}
use avix.Base.Sort.{sort}

pub record IssuedTo : Type 0 where
  pub pid : ℕ
  pub agent_name : String
  pub spawned_by : String

pub record CapabilityToken : Type 0 where
  pub granted_tools : List String
  pub issued_at : ℕ
  pub expires_at : ℕ
  pub issued_to : Option IssuedTo
  pub signature : String

unfoldable pub has_tool : CapabilityToken → String → Bool
has_tool token tool = contains token.granted_tools tool

unfoldable pub token_expired : CapabilityToken → ℕ → Bool
token_expired token now = ltb token.expires_at now

abbrev pub second : ℕ
second = 1_000_000_000

-- `timestamp`: whole seconds
abbrev pub timestamp : ℕ → ℕ
timestamp t = t / second

abbrev pub join : String → List String → String
join sep [] = ""
join sep (s ∷ []) = s
join sep (s ∷ t ∷ rest) = s +++ sep +++ join sep (t ∷ rest)

unfoldable pub signed_payload : CapabilityToken → String
signed_payload token =
    decimal (timestamp token.issued_at)
    +++ "|"
    +++ decimal (timestamp token.expires_at)
    +++ "|"
    +++ join "," (sort token.granted_tools)

module _ (mac : String → String → String) where
  unfoldable pub compute_signature : CapabilityToken → String → String
  unfolding signed_payload
  compute_signature token key = "sha256:" +++ mac key (signed_payload token)

  unfoldable pub verify_signature : CapabilityToken → String → Bool
  unfolding compute_signature
  verify_signature token key = token.signature == compute_signature token key

  -- `ttl_secs` is not negative here.
  unfoldable pub mint : List String → Option IssuedTo → ℕ → String → ℕ → CapabilityToken
  unfolding compute_signature
  mint granted_tools issued_to ttl_secs key now =
      let token : CapabilityToken = record {
        granted_tools = granted_tools;
        issued_at = now;
        expires_at = now + ttl_secs * second;
        issued_to = issued_to;
        signature = "";
      } in
      record token { signature = compute_signature token key }

-- The envelope of a token on disk
pub record ManifestMetadata : Type 0 where
  pub issued_at : ℕ
  pub expires_at : ℕ
  pub issued_to : Option IssuedTo

pub record ManifestConstraints : Type 0 where
  pub max_tokens_per_turn : Option ℕ
  pub max_tool_chain_length : Option ℕ
  pub allow_pipe_targets : Option (List ℕ)

pub record ManifestSpec : Type 0 where
  pub granted : List String
  pub constraints : Option ManifestConstraints
  pub signature : String

pub record CapabilityTokenManifest : Type 0 where
  pub api_version : String
  pub kind : String
  pub metadata : ManifestMetadata
  pub spec : ManifestSpec

unfoldable pub from_token : CapabilityToken → CapabilityTokenManifest
from_token token = record {
  api_version = "avix/v1";
  kind = "CapabilityToken";
  metadata = record {
    issued_at = token.issued_at;
    expires_at = token.expires_at;
    issued_to = token.issued_to;
  };
  spec = record { granted = token.granted_tools; constraints = none; signature = token.signature };
}

unfoldable pub into_token : CapabilityTokenManifest → CapabilityToken
into_token m = record {
  granted_tools = m.spec.granted;
  issued_at = m.metadata.issued_at;
  expires_at = m.metadata.expires_at;
  issued_to = m.metadata.issued_to;
  signature = m.spec.signature;
}
