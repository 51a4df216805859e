-- ===== src/Jobs/Registry/Finality.antt =====
-- A job in a terminal state stays as it is.
use avix.Base.{
  ℕ, ◌≡◌, ◌≢◌, String, true, List, [], ◌∷◌, some, none, arith, eq_iff, string_eq, ◌+++◌, All,
}
use avix.Base.Dict.{get, get-insert}
use avix.Jobs.Job.{Job, JobState, running, done, failed, cancelled, is_terminal}
use avix.Jobs.Registry.{
  JobRegistry, create, start, start_job, cancel, cancel_job, progress, progress_job, log, log_job,
  complete, complete_job, fail, fail_job, on_job_cases,
}
use avix.Jobs.Registry.Calls.{
  Call, creates, starts, cancels, progresses, logs, completes, fails, step, run,
}

-- The call makes no job with this id: a new UUID differs from those in use.
abbrev pub Spares : {Value : Type 0} → String → Call Value → Type 0
Spares id (creates uuid tool owner_pid) = "job-" +++ uuid ≢ id
Spares id call = Unit {0}

module _ {Value : Type 0} (id : String) (job : Job Value)
    (terminal : is_terminal job.state ≡ true) where
  abbrev Stays : JobRegistry Value → Type 0
  Stays reg = get id reg.jobs ≡ some job

  step_keeps :
      (now : ℕ) (call : Call Value) (reg : JobRegistry Value)
      → Spares id call
      → Stays reg
      → Stays (step (now, call) reg)
  unfolding step create start start_job cancel cancel_job progress progress_job log log_job complete
      complete_job fail fail_job is_terminal
  step_keeps now (creates uuid tool owner_pid) reg h s = ground (
    arith,
    eq_iff ("job-" +++ uuid) id,
    get-insert ("job-" +++ uuid) id
        (record {
          id = "job-" +++ uuid;
          tool = tool;
          owner_pid = owner_pid;
          state = JobState.pending;
          created_at = now;
          updated_at = now;
          result = none;
          error = none;
        })
        reg.jobs,
  )
  step_keeps now (starts j) reg h s = on_job_cases Stays j (start_job j now reg) reg s λ found e.
      ground (
        arith,
        eq_iff j id,
        get-insert j id (record found { state = running; updated_at = now }) reg.jobs,
      )
  step_keeps now (cancels j) reg h s = on_job_cases Stays j (cancel_job j now reg) reg s λ found e.
      ground (
        arith,
        eq_iff j id,
        get-insert j id (record found { state = cancelled; updated_at = now }) reg.jobs,
      )
  step_keeps now (progresses j percent stage detail) reg h s =
      on_job_cases Stays j (progress_job j percent stage detail now reg) reg s λ found e.
        ground (arith, eq_iff j id, get-insert j id (record found { updated_at = now }) reg.jobs)
  step_keeps now (logs j stream line) reg h s =
      on_job_cases Stays j (log_job j stream line now reg) reg s λ found e.
        ground (arith, eq_iff j id, get-insert j id (record found { updated_at = now }) reg.jobs)
  step_keeps now (completes j result) reg h s =
      on_job_cases Stays j (complete_job j result now reg) reg s λ found e. ground (
        arith,
        eq_iff j id,
        get-insert j id (record found { state = done; result = some result; updated_at = now })
            reg.jobs,
      )
  step_keeps now (fails j error) reg h s =
      on_job_cases Stays j (fail_job j error now reg) reg s λ found e. ground (
        arith,
        eq_iff j id,
        get-insert j id (record found { state = failed; error = some error; updated_at = now })
            reg.jobs,
      )

  -- Once a job is done, failed or cancelled, no later call changes anything of it, if no new job is
  -- given its id.
  pub run-final :
      (calls : List (ℕ × Call Value)) (reg : JobRegistry Value)
      → All (λ c. Spares id c.1) calls
      → get id reg.jobs ≡ some job
      → get id (run calls reg).jobs ≡ some job
  unfolding run
  run-final [] reg h s = s
  run-final ((now, call) ∷ calls) reg (h, hs) s =
      run-final calls (step (now, call) reg) hs (step_keeps now call reg h s)
