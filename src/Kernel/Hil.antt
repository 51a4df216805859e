-- ===== src/Kernel/Hil.antt =====
-- crates/avix-core/src/kernel/hil.rs and hil_manager.rs. `Value` is the JSON value of serde_json, and
-- `to_yaml` stands for serde_yaml. The event bus and the signal bus are the lists of what is sent,
-- newest first; `timers` are the timeout tasks that `open` starts, and `timeout_hil` may run at any
-- time for any of them. Each method is one step.
pub mod Once
pub mod Settled
pub mod Waiting
pub mod Unheard
use avix.Base.{
  ℕ, ◌-◌, ◌/◌, ◌%◌, ◌^◌, String, if◌then◌else◌, ◌==◌, string_eq, ltb, List, [], ◌∷◌, Option, none,
  some, ◌+++◌,
}
use avix.Base.Dict.{Dict, get, insert, remove}
use avix.Errors.{AvixError, config_parse, Result, ok, err, ◌>>=◌, map_err}
use avix.Types.Pid.{display_pid}
use avix.Memfs.Path.{parse_path}
use avix.Memfs.Vfs.{MemFs, write_file}
use avix.Kernel.Approval.{ApprovalTokenStore, register_token, consume}

pub data HilType : Type 0 where
  tool_call_approval capability_upgrade escalation : HilType

pub data HilState : Type 0 where
  waiting approved denied timed_out : HilState

pub data HilUrgency : Type 0 where
  low normal high : HilUrgency

pub record HilOption : Type 0 where
  pub id : String
  pub label : String

pub record HilRequest (Value : Type 0) : Type 0 where
  pub api_version : String
  pub kind : String
  pub hil_id : String
  pub pid : ℕ
  pub agent_name : String
  pub hil_type : HilType
  pub tool : Option String
  pub args : Option Value
  pub reason : Option String
  pub context : Option String
  pub options : Option (List HilOption)
  pub urgency : HilUrgency
  pub approval_token : String
  pub created_at : ℕ
  pub expires_at : ℕ
  pub state : HilState
  pub atp_session_id : String

abbrev pub hil_path : {Value : Type 0} → HilRequest Value → String
hil_path req = "/proc/" +++ display_pid req.pid +++ "/hil-queue/" +++ req.hil_id +++ ".yaml"

-- Events go to the owner that they name.
pub data HilEvent (Value : Type 0) : Type 0 where
  requested : String → HilRequest Value → String → ℕ → HilEvent Value
  resolved : String → String → ℕ → String → String → String → ℕ → HilEvent Value

pub record HilSignal : Type 0 where
  pub target : ℕ
  pub decision : String

pub record HilManager (Value : Type 0) : Type 0 where
  pub pending : Dict String (HilRequest Value)
  pub tokens : ApprovalTokenStore
  pub vfs : MemFs
  pub events : List (HilEvent Value)
  pub signals : List HilSignal
  pub timers : List (String × ℕ)

-- A call on the manager, or a timer that goes off.
pub data HilCall (Value : Type 0) : Type 0 where
  opens : HilRequest Value → HilCall Value
  resolves : String → String → String → String → HilCall Value
  times_out : String → ℕ → HilCall Value

abbrev prompt : Option String → Option String → String
prompt (some t) (some r) = "Agent requests capability: " +++ t +++ ". Reason: " +++ r
prompt (some t) none = "Agent requests capability: " +++ t
prompt none (some r) = r
prompt none none = "Agent requires human approval"

-- Whole seconds left, as a `u32`
abbrev seconds_left : ℕ → ℕ → ℕ
seconds_left expires_at now = (expires_at - now) / 1_000_000_000 % 2 ^ 32

module _ {Value : Type 0} (to_yaml : HilRequest Value → Result String (List ℕ)) where
  abbrev opened : HilRequest Value → ℕ → MemFs → HilManager Value → HilManager Value
  opened req now vfs m = record {
    pending = insert req.hil_id req m.pending;
    tokens = register_token req.approval_token m.tokens;
    vfs = vfs;
    events =
        requested req.agent_name req (prompt req.tool req.reason) (seconds_left req.expires_at now)
        ∷ m.events;
    signals = m.signals;
    timers = (req.hil_id, req.pid) ∷ m.timers;
  }

  -- What `open` needs of the request's file: its path and its text.
  unfoldable pub file_of : HilRequest Value → Result AvixError (String × List ℕ)
  file_of req = do
    yaml ← map_err (λ e. config_parse ("yaml serialise: " +++ e)) (to_yaml req)
    path ← parse_path (hil_path req)
    ok (path, yaml)

  unfoldable pub open_hil :
      HilRequest Value → ℕ → HilManager Value → Result AvixError (Unit {0}) × HilManager Value
  unfolding file_of write_file
  open_hil req now m = elim (file_of req) [
    | err e ↦ (err e, m)
    | ok file ↦ (ok tt, opened req now (write_file file.0 file.1 m.vfs).1 m)
  ]

  abbrev yaml_or_default : Result String (List ℕ) → List ℕ
  yaml_or_default (ok yaml) = yaml
  yaml_or_default (err e) = []

  -- Writing the changed request where its path is one.
  unfoldable pub save : HilRequest Value → MemFs → MemFs
  unfolding write_file
  save req vfs = elim (parse_path (hil_path req)) [
    | err e ↦ vfs
    | ok path ↦ (write_file path (yaml_or_default (to_yaml req)) vfs).1
  ]

  unfoldable pub push_resolved :
      String → String → String → String → ℕ → String → ℕ → HilManager Value → HilManager Value
  push_resolved hil_id outcome resolved_by owner pid session_id now m = record m {
    events = resolved owner hil_id pid session_id outcome resolved_by now ∷ m.events;
  }

  abbrev pub decided : String → HilRequest Value → HilRequest Value
  decided decision req = record req { state = if decision == "approved" then approved else denied }

  -- What `resolve` does once the token is consumed.
  unfoldable pub settle : String → String → String → ℕ → HilManager Value → HilManager Value
  unfolding save push_resolved
  settle hil_id decision resolved_by now m = elim (get hil_id m.pending) [
    | none ↦
        push_resolved hil_id decision resolved_by "" 0 "" now
          (record m { pending = remove hil_id m.pending })
    | some req ↦
        push_resolved hil_id decision resolved_by req.agent_name req.pid req.atp_session_id now
          (record m { pending = remove hil_id m.pending; vfs = save (decided decision req) m.vfs })
  ]

  unfoldable pub resolve_hil :
      String
      → String
      → String
      → String
      → ℕ
      → HilManager Value
      → Result AvixError (Unit {0}) × HilManager Value
  unfolding settle
  resolve_hil hil_id approval_token decision resolved_by now m =
      let (answer, tokens) = consume approval_token m.tokens in
      elim answer [
        | err e ↦ (err e, record m { tokens = tokens })
        | ok _ ↦ (ok tt, settle hil_id decision resolved_by now (record m { tokens = tokens }))
      ]

  unfoldable pub timeout_hil : String → ℕ → ℕ → HilManager Value → HilManager Value
  unfolding save push_resolved
  timeout_hil hil_id pid now m = elim (get hil_id m.pending) [
    | none ↦ m
    | some req ↦
        push_resolved hil_id "timeout" "kernel" req.agent_name pid req.atp_session_id now
          (record m {
            pending = remove hil_id m.pending;
            vfs = save (record req { state = timed_out }) m.vfs;
            signals = record { target = pid; decision = "timeout" } ∷ m.signals;
          })
  ]

  -- The manager that a call leaves.
  unfoldable pub hil_step : ℕ × HilCall Value → HilManager Value → HilManager Value
  unfolding open_hil resolve_hil timeout_hil
  hil_step (now, opens req) m = (open_hil req now m).1
  hil_step (now, resolves hil_id token decision resolved_by) m =
      (resolve_hil hil_id token decision resolved_by now m).1
  hil_step (now, times_out hil_id pid) m = timeout_hil hil_id pid now m
