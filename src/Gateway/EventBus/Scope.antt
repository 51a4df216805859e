-- ===== src/Gateway/EventBus/Scope.antt =====
-- crates/avix-core/src/gateway/event_bus.rs: which connections the events of a session reach.
use avix.Base.{
  String, string_eq, Bool, true, false, List, [], ◌∷◌, ◌++◌, contains, keep, Bool-cases, All, some,
  eq_of_beq, ◌≡◌, ◌⊎◌, inl, inr, refl, arith,
}
use avix.Types.Role.{operator, at_least}
use avix.Gateway.EventBus.{
  AtpEventKind, event_name, AtpEvent, BodyValue, BusEvent, AtpEventBus, EventFilter, should_receive,
  event_scope, new_bus, publish, publish_scoped, publish_system,
}

module _ {Json : Type 0} where
  -- A bus that only the helpers published to, whether or not the lock of the ring was free.
  pub data Helped : AtpEventBus Json → Type 0 where
    helped_none : Helped new_bus
    helped_session :
        {bus : AtpEventBus Json} (free : Bool) (kind : AtpEventKind) (session : String)
        (body : List (String × BodyValue Json))
        → Helped bus
        → Helped (publish_scoped free kind session body bus)
    helped_system :
        {bus : AtpEventBus Json} (free : Bool) (kind : AtpEventKind)
        (body : List (String × BodyValue Json))
        → (event_scope kind).1 ≡ false
        → Helped bus
        → Helped (publish_system free kind body bus)

  -- The connection is the session's own or an operator's.
  abbrev pub MaySee : EventFilter → AtpEvent Json → Type 0
  MaySee f e = (f.session_id ≡ e.session_id) ⊎ (at_least f.role operator ≡ true)

  -- The role is high enough, the session is the right one where the kind has one, and the client has
  -- subscribed.
  pub IsPermitted : EventFilter → BusEvent Json → Type 0
  IsPermitted f e =
      (at_least f.role (event_scope e.event.event).0 ≡ true)
      × ((event_scope e.event.event).1 ≡ true → MaySee f e.event)
      × ((contains f.subscribed "*" ≡ true)
          ⊎ (contains f.subscribed (event_name e.event.event) ≡ true))

  -- The owner of an event on a helped bus, and its least role.
  IsScoped : BusEvent Json → Type 0
  IsScoped e =
      (e.min_role ≡ (event_scope e.event.event).0)
      × ((event_scope e.event.event).1 ≡ true → e.owner_session ≡ some e.event.session_id)

  received_IsPermitted :
      (f : EventFilter) (e : BusEvent Json)
      → IsScoped e
      → should_receive f e ≡ true
      → IsPermitted f e
  unfolding IsPermitted should_receive IsScoped
  received_IsPermitted f e (least, scoped) h = (
    ground (arith, least),
    λ k. let mine = scoped k in ground (arith, mine, eq_of_beq e.event.session_id f.session_id),
    ground arith,
  )

  All-append :
      (P : BusEvent Json → Type 0) (xs : List (BusEvent Json)) (e : BusEvent Json)
      → All P xs
      → P e
      → All P (xs ++ e ∷ [])
  All-append P [] e h k = (k, tt)
  All-append P (x ∷ xs) e (hx, h) k = (hx, All-append P xs e h k)

  Helped-IsScoped : {bus : AtpEventBus Json} → Helped bus → All IsScoped bus.sent
  unfolding publish_scoped publish_system publish IsScoped
  Helped-IsScoped helped_none = tt
  Helped-IsScoped (helped_session {bus} free kind session body h) =
      All-append IsScoped bus.sent _ (Helped-IsScoped h) (refl, λ k. rw k refl)
  Helped-IsScoped (helped_system {bus} free kind body f h) =
      All-append IsScoped bus.sent _ (Helped-IsScoped h) (refl, λ k. absurd (ground arith))

  received_events :
      (f : EventFilter) (es : List (BusEvent Json))
      → All IsScoped es
      → All (IsPermitted f) (keep (should_receive f) es)
  received_events f [] h = tt
  received_events f (e ∷ es) (s, h) = elim (Bool-cases (should_receive f e)) [
    | inl t ↦ rw (t, keep) (received_IsPermitted f e s t, received_events f es h)
    | inr n ↦ rw (n, keep) (received_events f es h)
  ]

  -- Of the events that the helpers publish a connection receives only those that its role permits, of its
  -- own session unless it is an operator's or no session owns the kind, and that it has subscribed to by
  -- name or by `*`.
  pub should_receive_lem :
      {bus : AtpEventBus Json} (f : EventFilter)
      → Helped bus
      → All (IsPermitted f) (keep (should_receive f) bus.sent)
  should_receive_lem {bus} f h = received_events f bus.sent (Helped-IsScoped h)
