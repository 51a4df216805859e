-- ===== src/Jobs/Registry.antt =====
-- crates/avix-core/src/jobs/registry.rs. The broadcast channel is the list of the events sent, newest
-- first: `emit` ignores what the channel answers. The fresh UUID of `create` is an argument.
pub mod Calls
pub mod Finality
pub mod Events
pub mod Outcome
use avix.Base.{
  ℕ, ◌≡◌, refl, inl, inr, Option-cases, String, Bool, true, false, not, if◌then◌else◌, ◌==◌,
  string_eq, ◌+++◌, List, [], ◌∷◌, Option, none, some, length,
}
use avix.Base.Dict.{Dict, get, insert, get-insert_self}
use avix.Errors.{AvixError, config_parse, not_found, Result, ok, err}
use avix.Jobs.Job.{
  JobState, pending, running, paused, done, failed, cancelled, is_terminal, job_state_eq,
  debug_state, JobError, Job, LogStream, JobEvent, status_change, progressed, logged, completed,
  fell,
}

pub record JobRegistry (Value : Type 0) : Type 0 where
  pub jobs : Dict String (Job Value)
  pub events : List (JobEvent Value)

abbrev pub Answer : Type 0 → Type 0
Answer Value = Result AvixError (Unit {0}) × JobRegistry Value

job_missing : String → AvixError
job_missing job_id = not_found ("job '" +++ job_id +++ "' not found")

module _ {Value : Type 0} where
  unfoldable pub empty : JobRegistry Value
  empty = record { jobs = []; events = [] }

  emit : JobEvent Value → JobRegistry Value → JobRegistry Value
  emit event reg = record reg { events = event ∷ reg.events }

  unfoldable pub create : String → String → ℕ → ℕ → JobRegistry Value → String × JobRegistry Value
  create uuid tool owner_pid now reg =
      let id = "job-" +++ uuid in
      let job : Job Value = record {
        id = id;
        tool = tool;
        owner_pid = owner_pid;
        state = pending;
        created_at = now;
        updated_at = now;
        result = none;
        error = none;
      } in
      (id, record reg { jobs = insert id job reg.jobs })

  unfoldable pub get_job : String → JobRegistry Value → Result AvixError (Job Value)
  unfolding job_missing
  get_job job_id reg = elim (get job_id reg.jobs) [
    | none ↦ err (job_missing job_id)
    | some job ↦ ok job
  ]

  -- `get_mut`, and what is done with the job that it finds
  on_job : String → (Job Value → Answer Value) → JobRegistry Value → Answer Value
  unfolding job_missing
  on_job job_id act reg = elim (get job_id reg.jobs) [
    | none ↦ (err (job_missing job_id), reg)
    | some job ↦ act job
  ]

  abbrev set_job : String → Job Value → JobRegistry Value → JobRegistry Value
  set_job job_id job reg = record reg { jobs = insert job_id job reg.jobs }

  start_job : String → ℕ → JobRegistry Value → Job Value → Answer Value
  unfolding emit
  start_job job_id now reg job =
      if not (job.state == pending)
      then (
        err (
            config_parse
              ("cannot start job '" +++ job_id +++ "': state is " +++ debug_state job.state)),
        reg,
      )
      else (
        ok tt,
        emit (status_change job_id job.state running)
            (set_job job_id (record job { state = running; updated_at = now }) reg),
      )

  unfoldable pub start : String → ℕ → JobRegistry Value → Answer Value
  unfolding on_job start_job
  start job_id now reg = on_job job_id (start_job job_id now reg) reg

  progress_job :
      String
      → Option ℕ
      → Option String
      → Option String
      → ℕ
      → JobRegistry Value
      → Job Value
      → Answer Value
  unfolding emit
  progress_job job_id percent stage detail now reg job =
      if not (job.state == running)
      then (
        err (config_parse ("cannot emit progress for job '" +++ job_id +++ "': not running")),
        reg,
      )
      else (
        ok tt,
        emit (progressed job_id percent stage detail)
            (set_job job_id (record job { updated_at = now }) reg),
      )

  unfoldable pub progress :
      String → Option ℕ → Option String → Option String → ℕ → JobRegistry Value → Answer Value
  unfolding on_job progress_job
  progress job_id percent stage detail now reg =
      on_job job_id (progress_job job_id percent stage detail now reg) reg

  log_job : String → LogStream → String → ℕ → JobRegistry Value → Job Value → Answer Value
  unfolding emit
  log_job job_id stream line now reg job =
      if not (job.state == running)
      then (err (config_parse ("cannot emit log for job '" +++ job_id +++ "': not running")), reg)
      else (
        ok tt,
        emit (logged job_id stream line) (set_job job_id (record job { updated_at = now }) reg),
      )

  unfoldable pub log : String → LogStream → String → ℕ → JobRegistry Value → Answer Value
  unfolding on_job log_job
  log job_id stream line now reg = on_job job_id (log_job job_id stream line now reg) reg

  complete_job : String → Value → ℕ → JobRegistry Value → Job Value → Answer Value
  unfolding emit
  complete_job job_id result now reg job =
      if is_terminal job.state
      then (
        err (
            config_parse (
              "cannot complete job '"
              +++ job_id
              +++ "': already in terminal state "
              +++ debug_state job.state)),
        reg,
      )
      else (
        ok tt,
        emit (completed job_id result) (
            emit (status_change job_id job.state done) (
              set_job job_id (record job { state = done; result = some result; updated_at = now })
                reg)),
      )

  unfoldable pub complete : String → Value → ℕ → JobRegistry Value → Answer Value
  unfolding on_job complete_job
  complete job_id result now reg = on_job job_id (complete_job job_id result now reg) reg

  fail_job : String → JobError → ℕ → JobRegistry Value → Job Value → Answer Value
  unfolding emit
  fail_job job_id error now reg job =
      if is_terminal job.state
      then (
        err (
            config_parse (
              "cannot fail job '"
              +++ job_id
              +++ "': already in terminal state "
              +++ debug_state job.state)),
        reg,
      )
      else (
        ok tt,
        emit (fell job_id error) (
            emit (status_change job_id job.state failed) (
              set_job job_id (record job { state = failed; error = some error; updated_at = now })
                reg)),
      )

  unfoldable pub fail : String → JobError → ℕ → JobRegistry Value → Answer Value
  unfolding on_job fail_job
  fail job_id error now reg = on_job job_id (fail_job job_id error now reg) reg

  cancel_job : String → ℕ → JobRegistry Value → Job Value → Answer Value
  unfolding emit
  cancel_job job_id now reg job =
      if is_terminal job.state
      then (
        err (
            config_parse (
              "cannot cancel job '"
              +++ job_id
              +++ "': already in terminal state "
              +++ debug_state job.state)),
        reg,
      )
      else (
        ok tt,
        emit (status_change job_id job.state cancelled)
            (set_job job_id (record job { state = cancelled; updated_at = now }) reg),
      )

  unfoldable pub cancel : String → ℕ → JobRegistry Value → Answer Value
  unfolding on_job cancel_job
  cancel job_id now reg = on_job job_id (cancel_job job_id now reg) reg

  pub job_count : JobRegistry Value → ℕ
  job_count reg = length reg.jobs

-- Whatever holds of the registry and of the outcome for a job that is found holds after `on_job`.
module _ {ℓ} {Value : Type 0} (P : JobRegistry Value → Type ℓ) (job_id : String)
    (act : Job Value → Answer Value) (reg : JobRegistry Value) where
  on_job_cases :
      P reg
      → ((job : Job Value) → get job_id reg.jobs ≡ some job → P (act job).1)
      → P (on_job job_id act reg).1
  unfolding on_job
  on_job_cases missing found = elim (Option-cases (get job_id reg.jobs)) [
    | inl e ↦ rw (e, on_job) missing
    | inr (job, e) ↦ rw (e, on_job) (found job e)
  ]

-- A pending job can be started.
pub start-pending :
    {Value : Type 0} (job_id : String) (now : ℕ) (reg : JobRegistry Value) (job : Job Value)
    → get job_id reg.jobs ≡ some job
    → job.state ≡ pending
    → ((start job_id now reg).0 ≡ ok tt)
      × (get job_id (start job_id now reg).1.jobs
          ≡ some (record job { state = running; updated_at = now }))
unfolding start on_job start_job emit
start-pending job_id now reg job e s =
    rw (e, on_job, s, start_job)
      (refl, get-insert_self job_id (record job { state = running; updated_at = now }) reg.jobs)
