-- ===== src/Signal/Channels.antt =====
-- crates/avix-core/src/signal/channels.rs. The sender of a channel is whether its receiver still lives, and
-- what was sent to it, oldest first; the wait for room in a full channel is left out.
use avix.Base.{ℕ, Bool, true, false, nat_eq, List, [], ◌∷◌, ◌++◌, Option, none, some}
use avix.Base.Dict.{Dict, insert, get, remove}
use avix.Signal.Kind.{Signal}

pub record Sender (Payload : Type 0) : Type 0 where
  pub is_open : Bool
  pub inbox : List (Signal Payload)

abbrev pub SignalChannelRegistry : Type 0 → Type 0
SignalChannelRegistry Payload = Dict ℕ (Sender Payload)

module _ {Payload : Type 0} where
  unfoldable pub register_channel :
      ℕ → Sender Payload → SignalChannelRegistry Payload → SignalChannelRegistry Payload
  register_channel pid tx registry = insert pid tx registry

  unfoldable pub unregister_channel :
      ℕ → SignalChannelRegistry Payload → SignalChannelRegistry Payload
  unregister_channel pid registry = remove pid registry

  abbrev pub send_to :
      ℕ
      → Signal Payload
      → SignalChannelRegistry Payload
      → Option (Sender Payload)
      → Bool × SignalChannelRegistry Payload
  send_to pid signal registry none = (false, registry)
  send_to pid signal registry (some tx) = elim tx.is_open [
    | false ↦ (false, registry)
    | true ↦ (true, insert pid (record tx { inbox = tx.inbox ++ signal ∷ [] }) registry)
  ]

  unfoldable pub send_signal_to :
      ℕ → Signal Payload → SignalChannelRegistry Payload → Bool × SignalChannelRegistry Payload
  send_signal_to pid signal registry = send_to pid signal registry (get pid registry)
