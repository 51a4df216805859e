-- ===== src/Signal/Bus/Counts.antt =====
-- crates/avix-core/src/signal/bus.rs: how many listen on a pid.
use avix.Base.{ℕ, ◌+◌, ◌-◌, nat_eq, ◌==◌, if◌then◌else◌, Option-cases, ◌≡◌, inl, inr, arith}
use avix.Base.Dict.{get, get-insert, get-remove}
use avix.Signal.Bus.{
  SignalBus, subscribe_signal, unsubscribe_signal, subscriber_count, dropped, entry_or_new,
}

module _ {Payload : Type 0} where
  count-subscribe_signal :
      (pid other : ℕ) (bus : SignalBus Payload)
      → subscriber_count other (subscribe_signal pid bus).1
        ≡ (if pid == other then subscriber_count other bus + 1 else subscriber_count other bus)
  unfolding subscribe_signal subscriber_count
  count-subscribe_signal pid other bus = ground (
    arith,
    nat_eq.equal_iff pid other,
    get-insert pid other
        (record (entry_or_new (get pid bus.table)) {
          sub_count = (entry_or_new (get pid bus.table)).sub_count + 1;
        })
        bus.table,
  )

  count-unsubscribe_signal :
      (pid id other : ℕ) (bus : SignalBus Payload)
      → subscriber_count other (unsubscribe_signal pid id bus)
        ≡ (if pid == other then subscriber_count other bus - 1 else subscriber_count other bus)
  unfolding unsubscribe_signal subscriber_count
  count-unsubscribe_signal pid id other bus = elim (Option-cases (get pid bus.table)) [
    | inl e ↦ rw (e, dropped) (ground (arith, e, nat_eq.equal_iff pid other))
    | inr (x, e) ↦
        rw (e, dropped)
          (ground (
            arith,
            e,
            nat_eq.equal_iff pid other,
            get-remove pid other bus.table,
            get-insert pid other (record x { sub_count = x.sub_count - 1 }) bus.table,
          ))
  ]
