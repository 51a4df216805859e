-- ===== src/Process/Tests.antt =====
-- Tests and witnesses of the process table.
use avix.Base.{ℕ, ◌≡◌, refl, List, [], ◌∷◌, some, nat_eq}
use avix.Base.Dict.{get}
use avix.Process.Table.{ProcessEntry, ProcessTable, default_entry}
use avix.Process.Table.Frame.{
  Update, increments_chain_depth, resets_chain_depth, records_tokens, increments_tool_calls,
}
use avix.Process.Table.Counters.{apply_all, IsCounted, apply_all-IsCounted}

abbrev entry : ProcessEntry
entry = record (default_entry 3) { pid = 7; name = "scout" }

abbrev table : ProcessTable
table = (7, entry) ∷ (8, record (default_entry 4) { pid = 8 }) ∷ []

entry_found : get 7 table ≡ some entry
unfolding get
entry_found = refl

abbrev history : List (ℕ × Update)
history =
    (9, increments_chain_depth)
    ∷ (8, records_tokens 30)
    ∷ (7, increments_chain_depth)
    ∷ (6, resets_chain_depth)
    ∷ (5, increments_chain_depth)
    ∷ (4, increments_tool_calls)
    ∷ []

apply_all-IsCounted_example :
    (e : ProcessEntry) × (get 7 (apply_all 7 history table) ≡ some e) × IsCounted history e
apply_all-IsCounted_example = apply_all-IsCounted 7 table entry history entry_found refl refl refl
