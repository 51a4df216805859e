-- ===== src/Types/CapabilityMap.antt =====
-- crates/avix-core/src/types/capability_map.rs: which tools a capability unlocks. The tools of a
-- capability that the map does not have are none; the order of `all_gated_cat2_tools` is the list's.
use avix.Base.{String, string_eq, List, [], ◌∷◌, ◌++◌, none, some}
use avix.Base.Dict.{Dict, get, values}

abbrev pub read_tools : List String
read_tools = "memory/retrieve" ∷ "memory/get-fact" ∷ "memory/get-preferences" ∷ []

abbrev pub capability_map : Dict String (List String)
capability_map =
    (
      "agent:spawn",
      "agent/spawn" ∷ "agent/kill" ∷ "agent/list" ∷ "agent/wait" ∷ "agent/send-message" ∷ [],
    )
    ∷ ("pipe:use", "pipe/open" ∷ "pipe/write" ∷ "pipe/read" ∷ "pipe/close" ∷ [])
    ∷ ("memory:read", read_tools)
    ∷ (
      "memory:write",
      read_tools
          ++ "memory/log-event" ∷ "memory/store-fact" ∷ "memory/update-preference" ∷ "memory/forget"
            ∷ [],
    )
    ∷ ("memory:share", "memory/share-request" ∷ [])
    ∷ []

abbrev pub map_always_present : List String
map_always_present =
    "cap/request-tool" ∷ "cap/escalate" ∷ "cap/list" ∷ "job/watch" ∷ "sys/tools" ∷ []

unfoldable pub tools_for_capability : String → List String
tools_for_capability cap = elim (get cap capability_map) [ none ↦ [] | some tools ↦ tools ]

abbrev pub flatten : List (List String) → List String
flatten [] = []
flatten (xs ∷ rest) = xs ++ flatten rest

unfoldable pub all_gated_cat2_tools : List String
all_gated_cat2_tools = flatten (values capability_map)
