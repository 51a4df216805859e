-- ===== src/Process/Table/Counters.antt =====
-- The counters of an entry over any sequence of updates.
use avix.Base.{ℕ, suc, ◌+◌, ◌≡◌, refl, ◌∙◌, ap, List, [], ◌∷◌, some, arith, min, nat_eq}
use mathlib.Core.Option
use avix.Base.Dict.{get}
use avix.Process.Table.{
  ProcessEntry, ProcessTable, Answer, u32_max, u64_max, on_entry, set_status, set_token,
  increment_chain_depth, reset_chain_depth, record_tokens, set_state, increment_tool_calls_total,
  update_context, record_signal, resolve_pending_signal, touch_activity,
}
use avix.Process.Table.Frame.{
  Update, sets_status, sets_token, increments_chain_depth, resets_chain_depth, records_tokens,
  sets_state, increments_tool_calls, updates_context, records_signal, resolves_pending_signal,
  touches_activity, update, on_entry_self,
}

-- The updates of one process, latest first, each with its time.
unfoldable pub apply_all : ℕ → List (ℕ × Update) → ProcessTable → ProcessTable
apply_all pid [] table = table
apply_all pid ((now, u) ∷ before) table = (update now pid u (apply_all pid before table)).1

-- How often the depth was incremented since it was last reset.
abbrev pub since_reset : List (ℕ × Update) → ℕ
since_reset [] = 0
since_reset ((now, increments_chain_depth) ∷ before) = suc (since_reset before)
since_reset ((now, resets_chain_depth) ∷ before) = 0
since_reset ((now, u) ∷ before) = since_reset before

abbrev pub tokens_recorded : List (ℕ × Update) → ℕ
tokens_recorded [] = 0
tokens_recorded ((now, records_tokens tokens) ∷ before) = tokens_recorded before + tokens
tokens_recorded ((now, u) ∷ before) = tokens_recorded before

abbrev pub calls_counted : List (ℕ × Update) → ℕ
calls_counted [] = 0
calls_counted ((now, increments_tool_calls) ∷ before) = suc (calls_counted before)
calls_counted ((now, u) ∷ before) = calls_counted before

-- Each counter is the count of its updates, cut off at the largest value of its type.
pub record IsCounted (history : List (ℕ × Update)) (e : ProcessEntry) : Type 0 where
  pub depth : e.tool_chain_depth ≡ min (since_reset history) u32_max
  pub tokens : e.tokens_consumed ≡ min (tokens_recorded history) u64_max
  pub calls : e.tool_calls_total ≡ min (calls_counted history) u32_max

module _ (pid : ℕ) (table : ProcessTable) where
  abbrev HasCounts : List (ℕ × Update) → Type 0
  HasCounts history =
      (e : ProcessEntry) × (get pid (apply_all pid history table) ≡ some e) × IsCounted history e

  apply_one :
      (now : ℕ) (u : Update) (before : List (ℕ × Update)) (f : ProcessEntry → ProcessEntry)
      (e : ProcessEntry)
      → update now pid u (apply_all pid before table) ≡ on_entry pid f (apply_all pid before table)
      → get pid (apply_all pid before table) ≡ some e
      → IsCounted ((now, u) ∷ before) (f e)
      → HasCounts ((now, u) ∷ before)
  unfolding apply_all
  apply_one now u before f e same found c = (
    f e,
    ap (λ (a : Answer). get pid a.1) same
        ∙ on_entry_self pid f (apply_all pid before table)
        ∙ ap (Option.map f) found,
    c,
  )

  apply_next :
      (now : ℕ) (u : Update) (before : List (ℕ × Update))
      → HasCounts before
      → HasCounts ((now, u) ∷ before)
  unfolding update set_status set_token increment_chain_depth reset_chain_depth record_tokens
      set_state increment_tool_calls_total update_context record_signal resolve_pending_signal
      touch_activity
  apply_next now (sets_status status) before (e, found, c) =
      apply_one now (sets_status status) before _ e refl found (omega arith)
  apply_next now (sets_token tools expires) before (e, found, c) =
      apply_one now (sets_token tools expires) before _ e refl found (omega arith)
  apply_next now increments_chain_depth before (e, found, c) =
      apply_one now increments_chain_depth before _ e refl found (omega arith)
  apply_next now resets_chain_depth before (e, found, c) =
      apply_one now resets_chain_depth before _ e refl found (omega arith)
  apply_next now (records_tokens tokens) before (e, found, c) =
      apply_one now (records_tokens tokens) before _ e refl found (omega arith)
  apply_next now (sets_state status waiting_on) before (e, found, c) =
      apply_one now (sets_state status waiting_on) before _ e refl found (omega arith)
  apply_next now increments_tool_calls before (e, found, c) =
      apply_one now increments_tool_calls before _ e refl found (omega arith)
  apply_next now (updates_context used) before (e, found, c) =
      apply_one now (updates_context used) before _ e refl found (omega arith)
  apply_next now (records_signal name) before (e, found, c) =
      apply_one now (records_signal name) before _ e refl found (omega arith)
  apply_next now resolves_pending_signal before (e, found, c) =
      apply_one now resolves_pending_signal before _ e refl found (omega arith)
  apply_next now touches_activity before (e, found, c) =
      apply_one now touches_activity before _ e refl found (omega arith)

  -- After any sequence of updates to a process whose counters stood at zero, its chain depth, its tokens
  -- and its tool calls are the numbers that were counted, cut off at the largest `u32` or `u64`; the
  -- depth counts from the last reset.
  pub apply_all-IsCounted :
      (start : ProcessEntry) (history : List (ℕ × Update))
      → get pid table ≡ some start
      → start.tool_chain_depth ≡ 0
      → start.tokens_consumed ≡ 0
      → start.tool_calls_total ≡ 0
      → (e : ProcessEntry) × (get pid (apply_all pid history table) ≡ some e) × IsCounted history e
  unfolding apply_all
  apply_all-IsCounted start [] found d t c = (start, found, omega arith)
  apply_all-IsCounted start ((now, u) ∷ before) found d t c =
      apply_next now u before (apply_all-IsCounted start before found d t c)
