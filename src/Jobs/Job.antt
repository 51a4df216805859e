-- ===== src/Jobs/Job.antt =====
-- crates/avix-core/src/jobs/job.rs and crates/avix-core/src/jobs/event.rs. `Value` is the JSON value of
-- serde_json. Times are nanoseconds since the epoch.
use avix.Base.{ℕ, String, Bool, true, false, Option, ◌≡◌, ◌↔◌, arith}
use avix.Base.{Keyed, nat_beq}

pub data JobState : Type 0 where
  pending running paused done failed cancelled : JobState

unfoldable pub is_terminal : JobState → Bool
is_terminal done = true
is_terminal failed = true
is_terminal cancelled = true
is_terminal state = false

-- The derived `PartialEq`
abbrev state_code : JobState → ℕ
state_code pending = 0
state_code running = 1
state_code paused = 2
state_code done = 3
state_code failed = 4
state_code cancelled = 5

abbrev pub state_eq : JobState → JobState → Bool
state_eq a b = nat_beq (state_code a) (state_code b)

pub state_eq_iff : (a b : JobState) → (state_eq a b ≡ true) ↔ (a ≡ b)
state_eq_iff a b = ground arith

instance abbrev pub job_state_eq : Keyed JobState
job_state_eq = record { equal = state_eq; equal_iff = state_eq_iff }

-- The derived `Debug`
unfoldable pub debug_state : JobState → String
debug_state pending = "Pending"
debug_state running = "Running"
debug_state paused = "Paused"
debug_state done = "Done"
debug_state failed = "Failed"
debug_state cancelled = "Cancelled"

-- `code` is an `i32`, kept as the pattern of its 32 bits.
pub record JobError : Type 0 where
  pub code : ℕ
  pub message : String

pub record Job (Value : Type 0) : Type 0 where
  pub id : String
  pub tool : String
  pub owner_pid : ℕ
  pub state : JobState
  pub created_at : ℕ
  pub updated_at : ℕ
  pub result : Option Value
  pub error : Option JobError

pub data LogStream : Type 0 where
  stdout stderr : LogStream

pub data JobEvent (Value : Type 0) : Type 0 where
  status_change : (job_id : String) (old_state new_state : JobState) → JobEvent Value
  progressed :
      (job_id : String) (percent : Option ℕ) (stage detail : Option String) → JobEvent Value
  logged : (job_id : String) (stream : LogStream) (line : String) → JobEvent Value
  completed : (job_id : String) (result : Value) → JobEvent Value
  fell : (job_id : String) (error : JobError) → JobEvent Value

unfoldable pub event_job_id : {Value : Type 0} → JobEvent Value → String
event_job_id (status_change job_id _ _) = job_id
event_job_id (progressed job_id _ _ _) = job_id
event_job_id (logged job_id _ _) = job_id
event_job_id (completed job_id _) = job_id
event_job_id (fell job_id _) = job_id
