-- ===== src/Base/Json.antt =====
-- `serde_json::Value`, as the code builds it. The members of an object stand in the order of the source.
use Prim.Native.String.{String}
use mathlib.Core.List.{List, [], ◌∷◌}

-- Values of JSON; of a number, a truth value and null the text is kept.
mutual
  pub data Json : Type 0 where
    json_string : String → Json
    json_other : (text : String) → Json
    json_array : Items → Json
    json_object : Members → Json

  pub data Items : Type 0 where
    no_items : Items
    item : Json → Items → Items

  pub data Members : Type 0 where
    no_members : Members
    member : String → Json → Members → Members

abbrev pub members_of : List (String × Json) → Members
members_of [] = no_members
members_of ((key, value) ∷ rest) = member key value (members_of rest)
