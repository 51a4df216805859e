-- ===== src/Gateway/EventBus.antt =====
-- crates/avix-core/src/gateway/event_bus.rs, the kinds of events of gateway/atp/types.rs and `AtpEvent` of
-- gateway/atp/frame.rs. `Json` stands for the values of serde_json that a caller passes on.
pub mod Ring
pub mod Scope
use avix.Base.{
  ℕ, ◌+◌, ◌%◌, ◌^◌, String, string_eq, Bool, true, false, not, ◌&&◌, ◌||◌, ◌==◌, if◌then◌else◌, leb,
  ltb, decimal, List, [], ◌∷◌, ◌++◌, length, keep, contains, Option, none, some,
}
use avix.Base.Int.{ℤ}
use avix.Types.Role.{Role, guest, user, operator, admin, at_least, below}

pub data AtpEventKind : Type 0 where
  session_ready session_closing session_agent_attached session_agent_detached session_status_changed
        token_expiring agent_spawned agent_output agent_status agent_tool_call agent_tool_result
        agent_exit proc_start proc_output proc_exit proc_signal hil_request hil_resolved fs_changed
        tool_changed cron_fired sys_service sys_alert agent_output_chunk :
      AtpEventKind

-- The names that serde gives the kinds.
unfoldable pub event_name : AtpEventKind → String
event_name session_ready = "session.ready"
event_name session_closing = "session.closing"
event_name session_agent_attached = "session.agent.attached"
event_name session_agent_detached = "session.agent.detached"
event_name session_status_changed = "session.status"
event_name token_expiring = "token.expiring"
event_name agent_spawned = "agent.spawned"
event_name agent_output = "agent.output"
event_name agent_status = "agent.status"
event_name agent_tool_call = "agent.tool_call"
event_name agent_tool_result = "agent.tool_result"
event_name agent_exit = "agent.exit"
event_name proc_start = "proc.start"
event_name proc_output = "proc.output"
event_name proc_exit = "proc.exit"
event_name proc_signal = "proc.signal"
event_name hil_request = "hil.request"
event_name hil_resolved = "hil.resolved"
event_name fs_changed = "fs.changed"
event_name tool_changed = "tool.changed"
event_name cron_fired = "cron.fired"
event_name sys_service = "sys.service"
event_name sys_alert = "sys.alert"
event_name agent_output_chunk = "agent.output.chunk"

pub data BodyValue (Json : Type 0) : Type 0 where
  body_text : String → BodyValue Json
  body_nat : ℕ → BodyValue Json
  body_int : ℤ → BodyValue Json
  body_bool : Bool → BodyValue Json
  body_json : Json → BodyValue Json

-- The type of the message, always `event`, and the time are left out.
pub record AtpEvent (Json : Type 0) : Type 0 where
  pub seq : ℕ
  pub event : AtpEventKind
  pub session_id : String
  pub body : List (String × BodyValue Json)

pub record BusEvent (Json : Type 0) : Type 0 where
  pub seq : ℕ
  pub event : AtpEvent Json
  pub owner_session : Option String
  pub min_role : Role

-- The least role, and whether the events of the kind belong to a session.
unfoldable pub event_scope : AtpEventKind → Role × Bool
event_scope session_ready = (guest, true)
event_scope session_closing = (guest, true)
event_scope token_expiring = (guest, true)
event_scope tool_changed = (guest, false)
event_scope sys_service = (admin, false)
event_scope sys_alert = (operator, false)
event_scope _ = (user, true)

pub record EventFilter : Type 0 where
  pub session_id : String
  pub role : Role
  pub subscribed : List String

abbrev pub new_filter : String → Role → EventFilter
new_filter session_id role = record { session_id = session_id; role = role; subscribed = [] }

abbrev pub set_subscriptions : List String → EventFilter → EventFilter
set_subscriptions events f = record f { subscribed = events }

abbrev pub is_foreign : Option String → EventFilter → Bool
is_foreign none f = false
is_foreign (some owner) f = not (owner == f.session_id) && below f.role operator

abbrev pub is_empty : {A : Type 0} → List A → Bool
is_empty [] = true
is_empty (x ∷ xs) = false

unfoldable pub should_receive : {Json : Type 0} → EventFilter → BusEvent Json → Bool
should_receive f ev =
    if below f.role ev.min_role
    then false
    else if is_foreign ev.owner_session f
    then false
    else if is_empty f.subscribed
    then false
    else if contains f.subscribed "*"
    then true
    else contains f.subscribed (event_name ev.event.event)

abbrev pub is_chunk : AtpEventKind → Bool
is_chunk agent_output_chunk = true
is_chunk _ = false

abbrev pub ring_capacity : ℕ
ring_capacity = 512

-- `sent` is what went to the channel of the subscribers, oldest first.
pub record AtpEventBus (Json : Type 0) : Type 0 where
  pub seq_counter : ℕ
  pub ring : List (BusEvent Json)
  pub sent : List (BusEvent Json)

module _ {Json : Type 0} where
  abbrev pub new_bus : AtpEventBus Json
  new_bus = record { seq_counter = 0; ring = []; sent = [] }

  abbrev pub drop_front : List (BusEvent Json) → List (BusEvent Json)
  drop_front [] = []
  drop_front (e ∷ es) = es

  -- `push_back`, with `pop_front` before it when the ring is full
  unfoldable pub push_ring :
      (capacity : ℕ) → BusEvent Json → List (BusEvent Json) → List (BusEvent Json)
  push_ring capacity e ring =
      if leb capacity (length ring) then drop_front ring ++ e ∷ [] else ring ++ e ∷ []

  abbrev pub numbered : AtpEvent Json → Option String → Role → AtpEventBus Json → BusEvent Json
  numbered event owner min_role bus = record {
    seq = bus.seq_counter;
    event = record event { seq = bus.seq_counter };
    owner_session = owner;
    min_role = min_role;
  }

  -- `free` says whether `try_lock` gets the lock of the ring.
  unfoldable pub publish :
      (free : Bool) → AtpEvent Json → Option String → Role → AtpEventBus Json → AtpEventBus Json
  unfolding push_ring
  publish free event owner min_role bus =
      let ev = numbered event owner min_role bus in
      record {
        seq_counter = (bus.seq_counter + 1) % 2 ^ 64;
        ring =
            if not (is_chunk event.event) && free
            then push_ring ring_capacity ev bus.ring
            else bus.ring;
        sent = bus.sent ++ ev ∷ [];
      }

  unfoldable pub replay_since : ℕ → AtpEventBus Json → List (BusEvent Json)
  replay_since since_seq bus = keep (λ (e : BusEvent Json). ltb since_seq e.seq) bus.ring

  abbrev pub new_event : AtpEventKind → String → List (String × BodyValue Json) → AtpEvent Json
  new_event kind session_id body = record {
    seq = 0;
    event = kind;
    session_id = session_id;
    body = body;
  }

  -- What the helpers do: the scope of the kind says whether the session owns the event.
  unfoldable pub publish_scoped :
      Bool
      → AtpEventKind
      → String
      → List (String × BodyValue Json)
      → AtpEventBus Json
      → AtpEventBus Json
  unfolding publish event_scope
  publish_scoped free kind session body bus =
      let (min_role, owner_scoped) = event_scope kind in
      publish free (new_event kind session body) (if owner_scoped then some session else none)
        min_role bus

  -- Those of events that no session owns.
  unfoldable pub publish_system :
      Bool → AtpEventKind → List (String × BodyValue Json) → AtpEventBus Json → AtpEventBus Json
  unfolding publish event_scope
  publish_system free kind body bus =
      publish free (new_event kind "" body) none (event_scope kind).0 bus

  module _ (free : Bool) where
    pub publish_agent_output : String → ℕ → String → AtpEventBus Json → AtpEventBus Json
    publish_agent_output session pid text =
        publish_scoped free agent_output session
          (("pid", body_text (decimal pid)) ∷ ("text", body_text text) ∷ [])

    pub publish_agent_spawned :
        String → ℕ → String → String → String → AtpEventBus Json → AtpEventBus Json
    publish_agent_spawned session pid name goal agent_session_id =
        publish_scoped free agent_spawned session (
          ("pid", body_text (decimal pid))
          ∷ ("name", body_text name)
          ∷ ("goal", body_text goal)
          ∷ ("sessionId", body_text agent_session_id)
          ∷ [])

    pub publish_agent_output_chunk :
        String → String → ℕ → String → String → ℕ → Bool → AtpEventBus Json → AtpEventBus Json
    publish_agent_output_chunk session session_id pid turn_id text_delta seq is_final =
        publish_scoped free agent_output_chunk session (
          ("pid", body_text (decimal pid))
          ∷ ("session_id", body_text session_id)
          ∷ ("turn_id", body_text turn_id)
          ∷ ("text_delta", body_text text_delta)
          ∷ ("seq", body_nat seq)
          ∷ ("is_final", body_bool is_final)
          ∷ [])

    pub publish_agent_exit : String → ℕ → ℤ → AtpEventBus Json → AtpEventBus Json
    publish_agent_exit session pid exit_code =
        publish_scoped free agent_exit session
          (("pid", body_text (decimal pid)) ∷ ("exitCode", body_int exit_code) ∷ [])

    pub publish_agent_status : String → ℕ → String → AtpEventBus Json → AtpEventBus Json
    publish_agent_status session pid status =
        publish_scoped free agent_status session
          (("pid", body_text (decimal pid)) ∷ ("status", body_text status) ∷ [])

    pub publish_tool_changed : String → String → AtpEventBus Json → AtpEventBus Json
    publish_tool_changed tool change =
        publish_system free tool_changed
          (("tool", body_text tool) ∷ ("change", body_text change) ∷ [])

    pub publish_sys_service : String → String → AtpEventBus Json → AtpEventBus Json
    publish_sys_service service status =
        publish_system free sys_service
          (("service", body_text service) ∷ ("status", body_text status) ∷ [])

    pub publish_sys_alert : String → AtpEventBus Json → AtpEventBus Json
    publish_sys_alert message = publish_system free sys_alert (("message", body_text message) ∷ [])

    pub publish_fs_changed : String → String → AtpEventBus Json → AtpEventBus Json
    publish_fs_changed session path =
        publish_scoped free fs_changed session (("path", body_text path) ∷ [])

    pub publish_hil_request : String → String → String → AtpEventBus Json → AtpEventBus Json
    publish_hil_request session hil_id kind =
        publish_scoped free hil_request session
          (("hilId", body_text hil_id) ∷ ("kind", body_text kind) ∷ [])

    pub publish_hil_resolved : String → String → String → AtpEventBus Json → AtpEventBus Json
    publish_hil_resolved session hil_id outcome =
        publish_scoped free hil_resolved session
          (("hilId", body_text hil_id) ∷ ("outcome", body_text outcome) ∷ [])

    pub publish_agent_tool_call :
        String → ℕ → String → String → Json → AtpEventBus Json → AtpEventBus Json
    publish_agent_tool_call session pid call_id tool args =
        publish_scoped free agent_tool_call session (
          ("pid", body_text (decimal pid))
          ∷ ("callId", body_text call_id)
          ∷ ("tool", body_text tool)
          ∷ ("args", body_json args)
          ∷ [])

    pub publish_agent_tool_result :
        String → ℕ → String → String → String → AtpEventBus Json → AtpEventBus Json
    publish_agent_tool_result session pid call_id tool result =
        publish_scoped free agent_tool_result session (
          ("pid", body_text (decimal pid))
          ∷ ("callId", body_text call_id)
          ∷ ("tool", body_text tool)
          ∷ ("result", body_text result)
          ∷ [])
