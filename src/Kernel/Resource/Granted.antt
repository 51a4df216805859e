-- ===== src/Kernel/Resource/Granted.antt =====
-- crates/avix-core/src/kernel/resource_request.rs: what a request for resources can obtain.
use avix.Base.{
  ℕ, ◌+◌, ◌*◌, ◌%◌, ◌^◌, suc, String, true, false, string_eq, ◌==◌, beq_self, eq_of_beq, ne_of_beq,
  List, [], ◌∷◌, Option, none, some, ◌≡◌, ◌≢◌, ◌⊎◌, inl, inr, refl, ◌∙◌, subst, arith, Bool-cases,
}
use avix.Errors.{capability_denied, ok, err}
use avix.Types.Token.{
  IssuedTo, CapabilityToken, signed_payload, compute_signature, verify_signature, mint, second,
}
use avix.Kernel.Resource.{
  Urgency, PipeDirection, ResourceItem, context_tokens, tool, pipe, token_renewal, ResourceRequest,
  ResourceResponse, ResourceGrant, grants_context_tokens, grants_tool, grants_pipe, grants_renewal,
  KernelResourceHandler, dispatch_item, dispatch_items, handle_request,
}

module _ (mac : String → String → String) where
  pub minted_verifies :
      (tools : List String) (to : Option IssuedTo) (ttl : ℕ) (key : String) (now : ℕ)
      → verify_signature mac (mint mac tools to ttl key now) key ≡ true
  unfolding mint verify_signature compute_signature signed_payload
  minted_verifies tools to ttl key now =
      beq_self (compute_signature mac (mint mac tools to ttl key now) key)

  -- What may answer a request of someone who has the token: no tool is granted, and a new token has the
  -- tools and the holder of the old one, is signed, and lasts as long as the handler says.
  pub data Answers (h : KernelResourceHandler) (token : CapabilityToken) (now : ℕ)
      : ResourceItem → ResourceGrant → Type 0 where
    context :
        (amount : ℕ) (why : String)
        → Answers h token now
            (context_tokens amount why)
            (grants_context_tokens true amount ((64_000 + amount) % 2 ^ 32) none none)
    refuses :
        (name : String) (u : Urgency) (why because : String)
        → Answers h token now (tool name u why) (grants_tool false name none (some because) none)
    opens :
        (pid buffer : ℕ) (dir : PipeDirection) (why id : String)
        → Answers h token now
            (pipe pid dir buffer why)
            (grants_pipe true pid (some id) dir buffer none)
    renews :
        (why : String) (t : CapabilityToken)
        → t.granted_tools ≡ token.granted_tools
        → t.issued_to ≡ token.issued_to
        → t.expires_at ≡ now + h.renewal_ttl_secs * second
        → verify_signature mac t h.hmac_key ≡ true
        → Answers h token now
            (token_renewal why)
            (grants_renewal true (some t) (some t.expires_at) none)

  pub data AllAnswered (h : KernelResourceHandler) (token : CapabilityToken) (now : ℕ)
      : List ResourceItem → List ResourceGrant → Type 0 where
    nothing : AllAnswered h token now [] []
    one_more :
        {i : ResourceItem} {g : ResourceGrant} {is : List ResourceItem} {gs : List ResourceGrant}
        → Answers h token now i g
        → AllAnswered h token now is gs
        → AllAnswered h token now (i ∷ is) (g ∷ gs)

  dispatch_item-Answers :
      (h : KernelResourceHandler) (token : CapabilityToken) (uuid : String) (now : ℕ)
      (i : ResourceItem)
      → Answers h token now i (dispatch_item mac h token uuid now i)
  unfolding dispatch_item mint
  dispatch_item-Answers h token uuid now (context_tokens amount why) = context amount why
  dispatch_item-Answers h token uuid now (tool name u why) = refuses name u why _
  dispatch_item-Answers h token uuid now (pipe pid dir buffer why) = opens pid buffer dir why _
  dispatch_item-Answers h token uuid now (token_renewal why) =
      renews why (mint mac token.granted_tools token.issued_to h.renewal_ttl_secs h.hmac_key now)
        refl refl refl
        (minted_verifies token.granted_tools token.issued_to h.renewal_ttl_secs h.hmac_key now)

  dispatch_items-AllAnswered :
      (h : KernelResourceHandler) (token : CapabilityToken) (uuids : ℕ → String) (now next : ℕ)
      (is : List ResourceItem)
      → AllAnswered h token now is (dispatch_items mac h token uuids now next is)
  unfolding dispatch_items
  dispatch_items-AllAnswered h token uuids now next [] = nothing
  dispatch_items-AllAnswered h token uuids now next (i ∷ is) =
      one_more (dispatch_item-Answers h token (uuids next) now i)
        (dispatch_items-AllAnswered h token uuids now (suc next) is)

  -- A request is answered if and only if the token verifies and the request carries its signature; each
  -- item then has one answer, in order: no tool is granted, and a renewed token has the same tools and holder,
  -- verifies, and ends when the handler says. Any other request is denied.
  pub handle_request_lem :
      (h : KernelResourceHandler) (req : ResourceRequest) (token : CapabilityToken)
      (uuids : ℕ → String) (now : ℕ)
      → ((verify_signature mac token h.hmac_key ≡ true)
          × (req.capability_token_signature ≡ token.signature)
          × ((gs : List ResourceGrant) × (handle_request mac h req token uuids now
                ≡ ok (record { request_id = req.request_id; responded_at = now; grants = gs }))
              × AllAnswered h token now req.requests gs))
        ⊎ (((verify_signature mac token h.hmac_key ≡ false)
              ⊎ (req.capability_token_signature ≢ token.signature))
            × ((why : String) × (handle_request mac h req token uuids now
                  ≡ err (capability_denied why))))
  unfolding handle_request
  handle_request_lem h req token uuids now =
      elim (Bool-cases (verify_signature mac token h.hmac_key)) [
        | inr bad ↦
            inr (inl bad, ("capability token signature is invalid", rw (bad, handle_request) refl))
        | inl good ↦ elim (Bool-cases (req.capability_token_signature == token.signature)) [
          | inr other ↦ inr (
            inr (ne_of_beq _ _ other),
            (
              "request token signature does not match current token",
              rw (good, other, handle_request) refl,
            ),
          )
          | inl same ↦ inl (
            good,
            eq_of_beq _ _ same,
            (
              dispatch_items mac h token uuids now 0 req.requests,
              rw (good, same, handle_request) refl,
              dispatch_items-AllAnswered h token uuids now 0 req.requests,
            ),
          )
        ]
      ]

  -- The tokens that come with the answers
  abbrev pub new_tokens : List ResourceGrant → List CapabilityToken
  new_tokens [] = []
  new_tokens (grants_tool _ _ (some t) _ _ ∷ gs) = t ∷ new_tokens gs
  new_tokens (grants_renewal _ (some t) _ _ ∷ gs) = t ∷ new_tokens gs
  new_tokens (_ ∷ gs) = new_tokens gs

  abbrev pub IsIn : CapabilityToken → List CapabilityToken → Type 0
  IsIn t [] = ⊥
  IsIn t (s ∷ ss) = (s ≡ t) ⊎ IsIn t ss

  -- What an agent comes to hold that starts from a token: each request is made with a token that it holds,
  -- at any time and with any items, and the last was made at `now`.
  pub data Obtains (h : KernelResourceHandler) (own : CapabilityToken)
      : CapabilityToken → ℕ → Type 0 where
    first :
        (req : ResourceRequest) (uuids : ℕ → String) (now : ℕ) (response : ResourceResponse)
        (t : CapabilityToken)
        → handle_request mac h req own uuids now ≡ ok response
        → IsIn t (new_tokens response.grants)
        → Obtains h own t now
    further :
        {held : CapabilityToken} {before : ℕ} (req : ResourceRequest) (uuids : ℕ → String) (now : ℕ)
        (response : ResourceResponse) (t : CapabilityToken)
        → Obtains h own held before
        → handle_request mac h req held uuids now ≡ ok response
        → IsIn t (new_tokens response.grants)
        → Obtains h own t now

  -- A token that renews another
  pub record Renews (h : KernelResourceHandler) (old : CapabilityToken) (now : ℕ)
      (t : CapabilityToken) : Type 0 where
    pub same_tools : t.granted_tools ≡ old.granted_tools
    pub same_holder : t.issued_to ≡ old.issued_to
    pub ends : t.expires_at ≡ now + h.renewal_ttl_secs * second
    pub verifies : verify_signature mac t h.hmac_key ≡ true

  answered-Renews :
      (h : KernelResourceHandler) (old : CapabilityToken) (now : ℕ) (t : CapabilityToken)
      (is : List ResourceItem) (gs : List ResourceGrant)
      → AllAnswered h old now is gs
      → IsIn t (new_tokens gs)
      → Renews h old now t
  answered-Renews h old now t [] [] nothing m = absurd m
  answered-Renews h old now t is gs (one_more (context amount why) rest) m =
      answered-Renews h old now t _ _ rest m
  answered-Renews h old now t is gs (one_more (refuses name u why because) rest) m =
      answered-Renews h old now t _ _ rest m
  answered-Renews h old now t is gs (one_more (opens pid buffer dir why id) rest) m =
      answered-Renews h old now t _ _ rest m
  answered-Renews h old now t is gs (one_more (renews why new tools to end good) rest) (inr m) =
      answered-Renews h old now t _ _ rest m
  answered-Renews h old now t is gs (one_more (renews why new tools to end good) rest) (inl e) =
      subst (Renews h old now) e
        (record { same_tools = tools; same_holder = to; ends = end; verifies = good })

  handled-Renews :
      (h : KernelResourceHandler) (req : ResourceRequest) (old : CapabilityToken)
      (uuids : ℕ → String) (now : ℕ) (response : ResourceResponse) (t : CapabilityToken)
      → handle_request mac h req old uuids now ≡ ok response
      → IsIn t (new_tokens response.grants)
      → (verify_signature mac old h.hmac_key ≡ true) × Renews h old now t
  handled-Renews h req old uuids now response t e m =
      elim (handle_request_lem h req old uuids now) [
        | inl (good, _, (gs, given, answered)) ↦
            let same : gs ≡ response.grants = ground (arith, given, e) in
            (
              good,
              answered-Renews h old now t req.requests response.grants
                  (subst (AllAnswered h old now req.requests) same answered) m,
            )
        | inr (_, (why, denied)) ↦ absurd (ground (arith, denied, e))
      ]

  -- No chain of requests gains a tool. Whatever requests an agent makes, with the token that it started from or
  -- with any token that an answer gave it, every token that it gets grants the tools of the first and is
  -- issued to the same holder, verifies, and ends when the handler says after the request that
  -- gave it; and it gets none unless the first token verifies.
  pub Obtains_lem :
      (h : KernelResourceHandler) (own t : CapabilityToken) (now : ℕ)
      → Obtains h own t now
      → (verify_signature mac own h.hmac_key ≡ true) × Renews h own now t
  Obtains_lem h own t now (first req uuids _ response _ e m) =
      handled-Renews h req own uuids now response t e m
  Obtains_lem h own t now (further {held} {before} req uuids _ response _ had e m) =
      let (good, earlier) = Obtains_lem h own held before had in
      let (_, later) = handled-Renews h req held uuids now response t e m in
      (
        good,
        record {
          same_tools = later.same_tools ∙ earlier.same_tools;
          same_holder = later.same_holder ∙ earlier.same_holder;
          ends = later.ends;
          verifies = later.verifies;
        },
      )
