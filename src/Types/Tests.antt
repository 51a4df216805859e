-- ===== src/Types/Tests.antt =====
-- Tests and witnesses of the types.
use avix.Types.Token.{CapabilityToken, mint}
use avix.Base.{String, ◌+++◌, [], ◌∷◌, none, ◌≡◌, ◌↔◌, refl}
use avix.Types.Tool.{mangle, unmangle, classify, avix_behaviour}
use avix.Types.Tool.Mangling.{IsWireSafe, unmangle-mangle_iff}

unmangle-mangle_iff_example : (unmangle (mangle "fs/read") ≡ "fs/read") ↔ IsWireSafe "fs/read"
unmangle-mangle_iff_example = unmangle-mangle_iff "fs/read"

-- Both names have the wire form "a___b".
colliding : mangle "a_/b" ≡ mangle "a/_b"
unfolding mangle
colliding = refl

classified : classify "agent/spawn" ≡ avix_behaviour
unfolding classify
classified = refl

-- A stand-in for HMAC
abbrev toy_mac : String → String → String
toy_mac key payload = key +++ payload

abbrev minted : CapabilityToken
minted = mint toy_mac ("b" ∷ "a" ∷ []) none 60 "k" 5_000_000_000

abbrev reordered : CapabilityToken
reordered = record minted { granted_tools = "a" ∷ "b" ∷ [] }
