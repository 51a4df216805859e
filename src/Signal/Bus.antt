-- ===== src/Signal/Bus.antt =====
-- crates/avix-core/src/signal/bus.rs. `sent` is what went to the channel of a pid, oldest first.
pub mod Counts
use avix.Base.{
  ℕ, ◌+◌, ◌-◌, ◌%◌, ◌^◌, nat_eq, ◌==◌, if◌then◌else◌, List, [], ◌∷◌, ◌++◌, Option, none, some,
}
use avix.Base.Dict.{Dict, insert, get, remove, modify}
use avix.Signal.Kind.{SignalKind, Signal}

pub record PidEntry (Payload : Type 0) : Type 0 where
  pub sent : List (Signal Payload)
  pub sub_count : ℕ

pub record SignalBus (Payload : Type 0) : Type 0 where
  pub table : Dict ℕ (PidEntry Payload)
  pub next_id : ℕ

module _ {Payload : Type 0} where
  abbrev pub new_signal_bus : SignalBus Payload
  new_signal_bus = record { table = []; next_id = 0 }

  abbrev pub entry_or_new : Option (PidEntry Payload) → PidEntry Payload
  entry_or_new none = record { sent = []; sub_count = 0 }
  entry_or_new (some e) = e

  unfoldable pub subscribe_signal : ℕ → SignalBus Payload → ℕ × SignalBus Payload
  subscribe_signal pid bus =
      let entry = entry_or_new (get pid bus.table) in
      (
        bus.next_id,
        record {
          table = insert pid (record entry { sub_count = entry.sub_count + 1 }) bus.table;
          next_id = (bus.next_id + 1) % 2 ^ 64;
        },
      )

  abbrev pub dropped : ℕ → Option (PidEntry Payload) → SignalBus Payload → SignalBus Payload
  dropped pid none bus = bus
  dropped pid (some entry) bus =
      let left = entry.sub_count - 1 in
      if left == 0
      then record bus { table = remove pid bus.table }
      else record bus { table = insert pid (record entry { sub_count = left }) bus.table }

  -- The identifier of the subscription is not looked at.
  unfoldable pub unsubscribe_signal : ℕ → (id : ℕ) → SignalBus Payload → SignalBus Payload
  unsubscribe_signal pid id bus = dropped pid (get pid bus.table) bus

  abbrev pub hear : Signal Payload → PidEntry Payload → PidEntry Payload
  hear signal entry = record entry { sent = entry.sent ++ signal ∷ [] }

  unfoldable pub send_on_bus : Signal Payload → SignalBus Payload → SignalBus Payload
  send_on_bus signal bus = record bus { table = modify signal.target (hear signal) bus.table }

  unfoldable pub broadcast_entries :
      SignalKind → Payload → Dict ℕ (PidEntry Payload) → Dict ℕ (PidEntry Payload)
  broadcast_entries kind payload [] = []
  broadcast_entries kind payload ((pid, entry) ∷ rest) =
      (pid, hear (record { target = pid; kind = kind; payload = payload }) entry)
      ∷ broadcast_entries kind payload rest

  unfoldable pub broadcast : SignalKind → Payload → SignalBus Payload → SignalBus Payload
  unfolding broadcast_entries
  broadcast kind payload bus = record bus { table = broadcast_entries kind payload bus.table }

  abbrev pub count_of : Option (PidEntry Payload) → ℕ
  count_of none = 0
  count_of (some e) = e.sub_count

  unfoldable pub subscriber_count : ℕ → SignalBus Payload → ℕ
  subscriber_count pid bus = count_of (get pid bus.table)
