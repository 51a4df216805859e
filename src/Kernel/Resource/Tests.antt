-- ===== src/Kernel/Resource/Tests.antt =====
-- Tests and witnesses of the requests for resources.
use avix.Base.{String, ◌+++◌, true, [], ◌∷◌, none, ◌≡◌, inl, refl}
use avix.Errors.{ok}
use avix.Types.Token.{CapabilityToken, verify_signature, mint}
use avix.Kernel.Resource.{
  context_tokens, tool, token_renewal, high, ResourceRequest, new_request, grants_context_tokens,
  KernelResourceHandler, new_handler, ResourceResponse, dispatch_item, dispatch_items,
  handle_request,
}
use avix.Kernel.Resource.Granted.{minted_verifies, IsIn, new_tokens, first, Renews, Obtains_lem}

-- A stand-in for HMAC
abbrev toy_mac : String → String → String
toy_mac key payload = key +++ payload

abbrev token : CapabilityToken
token = mint toy_mac ("fs/read" ∷ []) none 60 "k" 5_000_000_000

abbrev handler : KernelResourceHandler
handler = new_handler "k"

abbrev request : ResourceRequest
request =
    new_request 7 token.signature
      (context_tokens 500 "" ∷ tool "fs/write" high "" ∷ token_renewal "" ∷ []) "1" 9

abbrev renewed : CapabilityToken
renewed = mint toy_mac token.granted_tools token.issued_to 3600 "k" 9

abbrev response : ResourceResponse
response = record {
  request_id = request.request_id;
  responded_at = 9;
  grants = dispatch_items toy_mac handler token (λ n. "u") 9 0 request.requests;
}

handled : handle_request toy_mac handler request token (λ n. "u") 9 ≡ ok response
unfolding handle_request dispatch_items dispatch_item new_request new_handler
handled =
    rw (minted_verifies toy_mac ("fs/read" ∷ []) none 60 "k" 5_000_000_000, handle_request) refl

answered : IsIn toy_mac renewed (new_tokens toy_mac response.grants)
unfolding dispatch_items dispatch_item new_request new_handler
answered = inl refl

Obtains_lem_example :
    (verify_signature toy_mac token handler.hmac_key ≡ true)
    × Renews toy_mac handler token 9 renewed
Obtains_lem_example =
    Obtains_lem toy_mac handler token renewed 9
      (first request (λ n. "u") 9 response renewed handled answered)

-- The sum of context tokens of a large request wraps.
total_wraps :
    dispatch_item toy_mac handler token "1" 9 (context_tokens 4_294_967_295 "")
    ≡ grants_context_tokens true 4_294_967_295 63_999 none none
unfolding dispatch_item
total_wraps = refl
