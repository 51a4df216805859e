-- ===== src/Jobs/Registry/Events.antt =====
-- The events about a job are a run of its state machine, and they end in its state.
use avix.Base.{
  ℕ, ◌≡◌, refl, String, Bool, true, false, List, [], ◌∷◌, Option, some, none, arith, eq_iff, ◌==◌,
  string_eq, ◌+++◌, if◌then◌else◌,
}
use avix.Base.Dict.{get, get-insert}
use avix.Jobs.Job.{
  Job, JobState, pending, running, done, failed, cancelled, is_terminal, JobEvent, status_change,
  progressed, logged, completed, fell, job_state_eq,
}
use avix.Jobs.Registry.{
  JobRegistry, create, start, start_job, cancel, cancel_job, progress, progress_job, log, log_job,
  complete, complete_job, fail, fail_job, on_job_cases, empty,
}
use avix.Jobs.Registry.Calls.{
  Call, creates, starts, cancels, progresses, logs, completes, fails, step, run,
}

abbrev when : Bool → JobState → Option JobState
when true state = some state
when false state = none

-- One event about job `id` in state `s`: the state after it, or none if the event does not fit.
abbrev pub follow : {Value : Type 0} → String → JobEvent Value → JobState → Option JobState
follow id (status_change j old new) s = if j == id then when (old == s) new else some s
follow id (progressed j percent stage detail) s = if j == id then when (s == running) s else some s
follow id (logged j stream line) s = if j == id then when (s == running) s else some s
follow id (completed j result) s = if j == id then when (s == done) s else some s
follow id (fell j error) s = if j == id then when (s == failed) s else some s

abbrev pub then_follow :
    {Value : Type 0} → String → JobEvent Value → Option JobState → Option JobState
then_follow id event none = none
then_follow id event (some s) = follow id event s

-- The state that the events tell, oldest last; a job begins as pending.
abbrev pub told : {Value : Type 0} → String → List (JobEvent Value) → Option JobState
told id [] = some pending
told id (event ∷ events) = then_follow id event (told id events)

abbrev pub state_of : {Value : Type 0} → Option (Job Value) → JobState
state_of none = pending
state_of (some job) = job.state

-- A new UUID is not in use.
abbrev pub IsNew : {Value : Type 0} → Call Value → JobRegistry Value → Type 0
IsNew (creates uuid tool owner_pid) reg = get ("job-" +++ uuid) reg.jobs ≡ none
IsNew call reg = Unit {0}

abbrev pub AreNew : {Value : Type 0} → List (ℕ × Call Value) → JobRegistry Value → Type 0
AreNew [] reg = Unit {0}
AreNew ((now, call) ∷ calls) reg = IsNew call reg × AreNew calls (step (now, call) reg)

empty-Tells :
    (Value : Type 0) (id : String)
    → told id (empty {Value = Value}).events ≡ some (state_of (get id (empty {Value = Value}).jobs))
unfolding empty get
empty-Tells Value id = refl

module _ {Value : Type 0} (id : String) where
  abbrev pub Tells : JobRegistry Value → Type 0
  Tells reg = told id reg.events ≡ some (state_of (get id reg.jobs))

  step-Tells :
      (now : ℕ) (call : Call Value) (reg : JobRegistry Value)
      → IsNew call reg
      → Tells reg
      → Tells (step (now, call) reg)
  unfolding step create start start_job cancel cancel_job progress progress_job log log_job complete
      complete_job fail fail_job is_terminal
  step-Tells now (creates uuid tool owner_pid) reg h s = ground (
    arith,
    eq_iff ("job-" +++ uuid) id,
    get-insert ("job-" +++ uuid) id
        (record {
          id = "job-" +++ uuid;
          tool = tool;
          owner_pid = owner_pid;
          state = pending;
          created_at = now;
          updated_at = now;
          result = none;
          error = none;
        })
        reg.jobs,
  )
  step-Tells now (starts j) reg h s = on_job_cases Tells j (start_job j now reg) reg s λ found e.
      ground (
        arith,
        eq_iff j id,
        get-insert j id (record found { state = running; updated_at = now }) reg.jobs,
      )
  step-Tells now (cancels j) reg h s = on_job_cases Tells j (cancel_job j now reg) reg s λ found e.
      ground (
        arith,
        eq_iff j id,
        get-insert j id (record found { state = cancelled; updated_at = now }) reg.jobs,
      )
  step-Tells now (progresses j percent stage detail) reg h s =
      on_job_cases Tells j (progress_job j percent stage detail now reg) reg s λ found e.
        ground (arith, eq_iff j id, get-insert j id (record found { updated_at = now }) reg.jobs)
  step-Tells now (logs j stream line) reg h s =
      on_job_cases Tells j (log_job j stream line now reg) reg s λ found e.
        ground (arith, eq_iff j id, get-insert j id (record found { updated_at = now }) reg.jobs)
  step-Tells now (completes j result) reg h s =
      on_job_cases Tells j (complete_job j result now reg) reg s λ found e. ground (
        arith,
        eq_iff j id,
        get-insert j id (record found { state = done; result = some result; updated_at = now })
            reg.jobs,
      )
  step-Tells now (fails j error) reg h s =
      on_job_cases Tells j (fail_job j error now reg) reg s λ found e. ground (
        arith,
        eq_iff j id,
        get-insert j id (record found { state = failed; error = some error; updated_at = now })
            reg.jobs,
      )

  run-Tells_from :
      (calls : List (ℕ × Call Value)) (reg : JobRegistry Value)
      → AreNew calls reg
      → Tells reg
      → Tells (run calls reg)
  unfolding run
  run-Tells_from [] reg h s = s
  run-Tells_from ((now, call) ∷ calls) reg (h, hs) s =
      run-Tells_from calls (step (now, call) reg) hs (step-Tells now call reg h s)

  -- After any calls on a new registry, if the UUIDs do not repeat, the events about each job are in
  -- order (each status change starts from the state before it, progress and log lines come while the
  -- job runs, results when it is done, errors when it has failed), and they end in the job's state.
  pub run-Tells : (calls : List (ℕ × Call Value)) → AreNew calls empty → Tells (run calls empty)
  run-Tells calls h = run-Tells_from calls empty h (empty-Tells Value id)
