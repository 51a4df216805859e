-- ===== src/Jobs/Registry/Calls.antt =====
-- Sequences of calls on the registry of crates/avix-core/src/jobs/registry.rs, each with its time.
use avix.Base.{ℕ, String, string_eq, List, [], ◌∷◌, Option}
use avix.Jobs.Job.{job_state_eq, JobError, LogStream}
use avix.Jobs.Registry.{JobRegistry, create, start, progress, log, complete, fail, cancel}

-- A call on the registry, and the registry that it leaves.
pub data Call (Value : Type 0) : Type 0 where
  creates : (uuid tool : String) (owner_pid : ℕ) → Call Value
  starts cancels : String → Call Value
  progresses : String → Option ℕ → Option String → Option String → Call Value
  logs : String → LogStream → String → Call Value
  completes : String → Value → Call Value
  fails : String → JobError → Call Value

module _ {Value : Type 0} where
  unfoldable pub step : ℕ × Call Value → JobRegistry Value → JobRegistry Value
  step (now, creates uuid tool owner_pid) reg = (create uuid tool owner_pid now reg).1
  step (now, starts job_id) reg = (start job_id now reg).1
  step (now, cancels job_id) reg = (cancel job_id now reg).1
  step (now, progresses job_id percent stage detail) reg =
      (progress job_id percent stage detail now reg).1
  step (now, logs job_id stream line) reg = (log job_id stream line now reg).1
  step (now, completes job_id result) reg = (complete job_id result now reg).1
  step (now, fails job_id error) reg = (fail job_id error now reg).1

  unfoldable pub run : List (ℕ × Call Value) → JobRegistry Value → JobRegistry Value
  run [] reg = reg
  run (call ∷ calls) reg = run calls (step call reg)
