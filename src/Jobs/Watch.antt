-- ===== src/Jobs/Watch.antt =====
-- crates/avix-core/src/jobs/watch_handler.rs and start_job.rs. Starting a job leaves out the task that does
-- its work. `arrivals` is what the subscription gives before the time is up, in order; `null` is JSON's, and
-- `to_value` is serde_json's of an event.
pub mod Final
use avix.Base.{ℕ, String, string_eq, ◌==◌, if◌then◌else◌, List, [], ◌∷◌, Option, none, some}
use avix.Base.Dict.{get}
use avix.Errors.{AvixError, config_parse, Result, ok, err, map_err, ◌>>=◌}
use avix.Jobs.Job.{
  JobState, pending, running, paused, done, failed, cancelled, JobError, Job, JobEvent,
  status_change, progressed, logged, completed, fell, event_job_id,
}
use avix.Jobs.Registry.{JobRegistry, create, start}

-- `{ "status": ... }`, or `{ "event": ... }`
pub data WatchAnswer (Value : Type 0) : Type 0 where
  timed_out unknown_job : WatchAnswer Value
  occurred : JobEvent Value → WatchAnswer Value

-- What `recv` gives: an event, or that the channel lagged or closed
pub data Received (Value : Type 0) : Type 0 where
  received : JobEvent Value → Received Value
  lost : Received Value

module _ {Value : Type 0} (null : Value) where
  abbrev pub or_null : Option Value → Value
  or_null none = null
  or_null (some v) = v

  abbrev pub failure_of : String → Option JobError → Option (JobEvent Value)
  failure_of job_id none = none
  failure_of job_id (some e) = some (fell job_id e)

  -- The event that is made up for a job in a terminal state
  unfoldable pub final_event : String → JobState → Job Value → Option (JobEvent Value)
  final_event job_id done job = some (completed job_id (or_null job.result))
  final_event job_id failed job = failure_of job_id job.error
  final_event job_id cancelled job = some (status_change job_id running cancelled)
  final_event job_id _ job = none

  module _ (to_value : JobEvent Value → Result String Value) where
    abbrev pub sent_on : JobEvent Value → Result AvixError (WatchAnswer Value)
    sent_on event = map_err config_parse (to_value event) >>= λ _. ok (occurred event)

    unfoldable pub wait_for : String → List (Received Value) → Result AvixError (WatchAnswer Value)
    wait_for job_id [] = ok timed_out
    wait_for job_id (lost ∷ arrivals) = ok timed_out
    wait_for job_id (received event ∷ arrivals) =
        let later = wait_for job_id arrivals in
        if event_job_id event == job_id then sent_on event else later

    abbrev pub watch_job :
        String → List (Received Value) → Option (Job Value) → Result AvixError (WatchAnswer Value)
    watch_job job_id arrivals none = ok unknown_job
    watch_job job_id arrivals (some job) = elim (final_event job_id job.state job) [
      | some event ↦ ok (occurred event)
      | none ↦ wait_for job_id arrivals
    ]

    unfoldable pub handle_job_watch :
        String → List (Received Value) → JobRegistry Value → Result AvixError (WatchAnswer Value)
    unfolding final_event wait_for
    handle_job_watch job_id arrivals reg = watch_job job_id arrivals (get job_id reg.jobs)

-- The new identifier, what `start` answers, which is unwrapped, and the registry
unfoldable pub start_new_job :
    {Value : Type 0}
    → String
    → String
    → ℕ
    → ℕ
    → JobRegistry Value
    → String × (Result AvixError (Unit {0}) × JobRegistry Value)
unfolding create start
start_new_job uuid tool owner_pid now reg =
    let (id, created) = create uuid tool owner_pid now reg in (id, start id now created)
