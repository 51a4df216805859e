-- ===== src/Kernel/Resource.antt =====
-- crates/avix-core/src/kernel/resource_request.rs. Times are nanoseconds since the epoch; `uuids` gives the
-- identifiers that are made, one after the other; `mac` is the HMAC of a key and a payload.
pub mod Granted
mod Tests
use avix.Base.{
  ℕ, ◌+◌, ◌*◌, ◌%◌, ◌^◌, suc, String, ◌+++◌, Bool, true, false, not, string_eq, ◌==◌, if◌then◌else◌,
  List, [], ◌∷◌, Option, none, some,
}
use avix.Errors.{AvixError, capability_denied, Result, ok, err}
use avix.Types.Token.{CapabilityToken, verify_signature, mint}

pub data Urgency : Type 0 where
  low normal high : Urgency

pub data PipeDirection : Type 0 where
  inward outward bidirectional : PipeDirection

pub data ResourceItem : Type 0 where
  context_tokens : (amount : ℕ) (reason : String) → ResourceItem
  tool : (name : String) (urgency : Urgency) (reason : String) → ResourceItem
  pipe :
      (target_pid : ℕ) (direction : PipeDirection) (buffer_tokens : ℕ) (reason : String)
      → ResourceItem
  token_renewal : (reason : String) → ResourceItem

pub record ResourceRequest : Type 0 where
  pub agent_pid : ℕ
  pub request_id : String
  pub timestamp : ℕ
  pub capability_token_signature : String
  pub requests : List ResourceItem

unfoldable pub new_request :
    ℕ → String → List ResourceItem → (uuid : String) (now : ℕ) → ResourceRequest
new_request agent_pid capability_token_signature requests uuid now = record {
  agent_pid = agent_pid;
  request_id = "req-" +++ uuid;
  timestamp = now;
  capability_token_signature = capability_token_signature;
  requests = requests;
}

pub data ResourceGrant : Type 0 where
  grants_context_tokens :
      (granted : Bool) (amount new_total : ℕ) (expires_at : Option ℕ) (reason : Option String)
      → ResourceGrant
  grants_tool :
      (granted : Bool) (name : String) (new_token : Option CapabilityToken)
      (reason suggestion : Option String)
      → ResourceGrant
  grants_pipe :
      (granted : Bool) (target_pid : ℕ) (pipe_id : Option String) (direction : PipeDirection)
      (buffer_tokens : ℕ) (reason : Option String)
      → ResourceGrant
  grants_renewal :
      (granted : Bool) (new_token : Option CapabilityToken) (expires_at : Option ℕ)
      (reason : Option String)
      → ResourceGrant

pub record ResourceResponse : Type 0 where
  pub request_id : String
  pub responded_at : ℕ
  pub grants : List ResourceGrant

pub record KernelResourceHandler : Type 0 where
  pub hmac_key : String
  pub renewal_ttl_secs : ℕ

unfoldable pub new_handler : String → KernelResourceHandler
new_handler hmac_key = record { hmac_key = hmac_key; renewal_ttl_secs = 3600 }

module _ (mac : String → String → String) where
  -- The sum of context tokens is a `u32`, which wraps where overflow is not checked.
  unfoldable pub dispatch_item :
      KernelResourceHandler
      → CapabilityToken
      → (uuid : String) → (now : ℕ) → ResourceItem
      → ResourceGrant
  unfolding mint
  dispatch_item h token uuid now (context_tokens amount _) =
      grants_context_tokens true amount ((64_000 + amount) % 2 ^ 32) none none
  dispatch_item h token uuid now (tool name _ _) =
      grants_tool false name none (some "HIL approval required") none
  dispatch_item h token uuid now (pipe target direction buffer _) =
      grants_pipe true target (some ("pipe-" +++ uuid)) direction buffer none
  dispatch_item h token uuid now (token_renewal _) =
      let t = mint mac token.granted_tools token.issued_to h.renewal_ttl_secs h.hmac_key now in
      grants_renewal true (some t) (some t.expires_at) none

  unfoldable pub dispatch_items :
      KernelResourceHandler
      → CapabilityToken
      → (uuids : ℕ → String) → (now : ℕ) → (next : ℕ) → List ResourceItem
      → List ResourceGrant
  unfolding dispatch_item
  dispatch_items h token uuids now next [] = []
  dispatch_items h token uuids now next (i ∷ is) =
      dispatch_item h token (uuids next) now i ∷ dispatch_items h token uuids now (suc next) is

  unfoldable pub handle_request :
      KernelResourceHandler
      → ResourceRequest
      → CapabilityToken
      → (uuids : ℕ → String) → (now : ℕ) → Result AvixError ResourceResponse
  unfolding verify_signature dispatch_items
  handle_request h req token uuids now =
      if not (verify_signature mac token h.hmac_key)
      then err (capability_denied "capability token signature is invalid")
      else if not (req.capability_token_signature == token.signature)
      then err (capability_denied "request token signature does not match current token")
      else ok (record {
        request_id = req.request_id;
        responded_at = now;
        grants = dispatch_items h token uuids now 0 req.requests;
      })
