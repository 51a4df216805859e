-- ===== src/Process/Table/Frame.antt =====
-- What the updates of the table leave alone, and the bounds and counts that they keep.
use avix.Base.{
  ℕ, ◌≡◌, ◌≢◌, refl, String, List, Option, none, some, arith, inl, inr, nat_eq, Option-cases,
}
use mathlib.Core.Option
use avix.Base.Dict.{get, get-insert}
use avix.Errors.{invalid_pid, ok, err}
use avix.Types.Pid.{display_pid}
use avix.Process.Table.{
  ProcessEntry, ProcessStatus, WaitingOn, ProcessTable, Answer, on_entry, set_status, set_token,
  increment_chain_depth, reset_chain_depth, record_tokens, set_state, increment_tool_calls_total,
  update_context, record_signal, resolve_pending_signal, touch_activity,
}

-- The calls that change an entry.
pub data Update : Type 0 where
  sets_status : ProcessStatus → Update
  sets_token : List String → Option ℕ → Update
  increments_chain_depth resets_chain_depth : Update
  records_tokens : ℕ → Update
  sets_state : ProcessStatus → Option WaitingOn → Update
  increments_tool_calls : Update
  updates_context : ℕ → Update
  records_signal : String → Update
  resolves_pending_signal touches_activity : Update

unfoldable pub update : ℕ → ℕ → Update → ProcessTable → Answer
update now pid (sets_status status) = set_status pid status
update now pid (sets_token tools expires) = set_token pid tools expires
update now pid increments_chain_depth = increment_chain_depth pid
update now pid resets_chain_depth = reset_chain_depth pid
update now pid (records_tokens tokens) = record_tokens pid tokens now
update now pid (sets_state status waiting_on) = set_state pid status waiting_on
update now pid increments_tool_calls = increment_tool_calls_total pid now
update now pid (updates_context used) = update_context pid used
update now pid (records_signal name) = record_signal pid name
update now pid resolves_pending_signal = resolve_pending_signal pid
update now pid touches_activity = touch_activity pid now

-- What `update` does as one call of `on_entry`.
abbrev IsOnEntry : ℕ → Answer → ProcessTable → Type 0
IsOnEntry pid answer table = (f : ProcessEntry → ProcessEntry) × (answer ≡ on_entry pid f table)

update-IsOnEntry :
    (now pid : ℕ) (u : Update) (table : ProcessTable) → IsOnEntry pid (update now pid u table) table
unfolding update set_status set_token increment_chain_depth reset_chain_depth record_tokens
    set_state increment_tool_calls_total update_context record_signal resolve_pending_signal
    touch_activity
update-IsOnEntry now pid (sets_status status) table = (_, refl)
update-IsOnEntry now pid u table = (_, refl)

module _ (pid : ℕ) (f : ProcessEntry → ProcessEntry) (table : ProcessTable) where
  on_entry_other : (other : ℕ) → other ≢ pid → get other (on_entry pid f table).1 ≡ get other table
  unfolding on_entry
  on_entry_other other h = elim (Option-cases (get pid table)) [
    | inl e ↦ rw (e, on_entry)
    | inr (p, e) ↦ rw (e, on_entry) (ground (arith, get-insert pid other (f p) table))
  ]

  pub on_entry_self : get pid (on_entry pid f table).1 ≡ Option.map f (get pid table)
  unfolding on_entry
  on_entry_self = elim (Option-cases (get pid table)) [
    | inl e ↦ rw (e, on_entry) e
    | inr (p, e) ↦ rw (e, on_entry) (ground (arith, get-insert pid pid (f p) table))
  ]

  on_entry_missing :
      get pid table ≡ none → on_entry pid f table ≡ (err (invalid_pid (display_pid pid)), table)
  unfolding on_entry
  on_entry_missing e = rw (e, on_entry)

  on_entry_found : (p : ProcessEntry) → get pid table ≡ some p → (on_entry pid f table).0 ≡ ok tt
  unfolding on_entry
  on_entry_found p e = rw (e, on_entry)

-- Every update succeeds on a process that is in the table, and on another pid is refused as invalid
-- with the table unchanged; it never touches the entry of another process.
pub update_frame :
    (now pid : ℕ) (u : Update) (table : ProcessTable)
    → ((e : ProcessEntry) → get pid table ≡ some e → (update now pid u table).0 ≡ ok tt)
      × (get pid table ≡ none
          → update now pid u table ≡ (err (invalid_pid (display_pid pid)), table))
      × ((other : ℕ) → other ≢ pid → get other (update now pid u table).1 ≡ get other table)
update_frame now pid u table =
    let (f, same) = update-IsOnEntry now pid u table in
    rw same (on_entry_found pid f table, on_entry_missing pid f table, on_entry_other pid f table)
