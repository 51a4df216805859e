-- ===== src/Jobs/Registry/Outcome.antt =====
-- What a job's record says of its outcome.
use avix.Base.{
  ℕ, ◌≡◌, ◌↔◌, ◌≤◌, subst, String, List, [], ◌∷◌, Option, some, none, arith, eq_iff, string_eq,
  ◌+++◌,
}
use avix.Base.Dict.{get, get-insert}
use avix.Jobs.Job.{Job, pending, running, done, failed, cancelled, is_terminal, job_state_eq}
use avix.Jobs.Registry.{
  JobRegistry, create, start, start_job, cancel, cancel_job, progress, progress_job, log, log_job,
  complete, complete_job, fail, fail_job, on_job_cases, empty,
}
use avix.Jobs.Registry.Calls.{
  Call, creates, starts, cancels, progresses, logs, completes, fails, step, run,
}

abbrev pub HasValue : {A : Type 0} → Option A → Type 0
HasValue none = ⊥
HasValue (some a) = Unit {0}

-- A result exactly when the job is done, an error exactly when it has failed, and no time reversed.
pub record IsCoherent {Value : Type 0} (now : ℕ) (job : Job Value) : Type 0 where
  pub result_iff : (job.state ≡ done) ↔ HasValue job.result
  pub error_iff : (job.state ≡ failed) ↔ HasValue job.error
  pub created : job.created_at ≤ job.updated_at
  pub updated : job.updated_at ≤ now

abbrev pub Holds : {Value : Type 0} → ℕ → Option (Job Value) → Type 0
Holds now none = Unit {0}
Holds now (some job) = IsCoherent now job

-- The clock does not go back.
abbrev pub AreTimed : {Value : Type 0} → ℕ → List (ℕ × Call Value) → Type 0
AreTimed now [] = Unit {0}
AreTimed now ((later, call) ∷ calls) = (now ≤ later) × AreTimed later calls

abbrev pub end_time : {Value : Type 0} → ℕ → List (ℕ × Call Value) → ℕ
end_time now [] = now
end_time now ((later, call) ∷ calls) = end_time later calls

empty-Holds : (Value : Type 0) (id : String) → Holds 0 (get id (empty {Value = Value}).jobs)
unfolding empty get
empty-Holds Value id = tt

module _ {Value : Type 0} (id : String) where
  Holds-mono : (now later : ℕ) (o : Option (Job Value)) → now ≤ later → Holds now o → Holds later o
  Holds-mono now later none h c = tt
  Holds-mono now later (some job) h c = record {
    result_iff = c.result_iff;
    error_iff = c.error_iff;
    created = c.created;
    updated = omega arith;
  }

  step-Holds :
      (before now : ℕ) (call : Call Value) (reg : JobRegistry Value)
      → before ≤ now
      → Holds before (get id reg.jobs)
      → Holds now (get id (step (now, call) reg).jobs)
  unfolding step create start start_job cancel cancel_job progress progress_job log log_job complete
      complete_job fail fail_job is_terminal
  step-Holds before now (creates uuid tool owner_pid) reg h c = ground (
    arith,
    eq_iff ("job-" +++ uuid) id,
    Holds-mono before now (get id reg.jobs) h c,
    get-insert ("job-" +++ uuid) id
        (record {
          id = "job-" +++ uuid;
          tool = tool;
          owner_pid = owner_pid;
          state = pending;
          created_at = now;
          updated_at = now;
          result = none;
          error = none;
        })
        reg.jobs,
  )
  step-Holds before now (starts j) reg h c =
      let kept = Holds-mono before now (get id reg.jobs) h c in
      on_job_cases (λ r. Holds now (get id r.jobs)) j (start_job j now reg) reg kept
        λ found e. ground (
          arith,
          eq_iff j id,
          kept,
          get-insert j id (record found { state = running; updated_at = now }) reg.jobs,
        )
  step-Holds before now (cancels j) reg h c =
      let kept = Holds-mono before now (get id reg.jobs) h c in
      on_job_cases (λ r. Holds now (get id r.jobs)) j (cancel_job j now reg) reg kept
        λ found e. ground (
          arith,
          eq_iff j id,
          kept,
          get-insert j id (record found { state = cancelled; updated_at = now }) reg.jobs,
        )
  step-Holds before now (progresses j percent stage detail) reg h c =
      let kept = Holds-mono before now (get id reg.jobs) h c in
      on_job_cases (λ r. Holds now (get id r.jobs)) j (progress_job j percent stage detail now reg)
        reg kept
        λ found e.
          ground
            (arith, eq_iff j id, kept, get-insert j id (record found { updated_at = now }) reg.jobs)
  step-Holds before now (logs j stream line) reg h c =
      let kept = Holds-mono before now (get id reg.jobs) h c in
      on_job_cases (λ r. Holds now (get id r.jobs)) j (log_job j stream line now reg) reg kept
        λ found e.
          ground
            (arith, eq_iff j id, kept, get-insert j id (record found { updated_at = now }) reg.jobs)
  step-Holds before now (completes j result) reg h c =
      let kept = Holds-mono before now (get id reg.jobs) h c in
      on_job_cases (λ r. Holds now (get id r.jobs)) j (complete_job j result now reg) reg kept
        λ found e. ground (
          arith,
          eq_iff j id,
          kept,
          get-insert j id (record found { state = done; result = some result; updated_at = now })
              reg.jobs,
        )
  step-Holds before now (fails j error) reg h c =
      let kept = Holds-mono before now (get id reg.jobs) h c in
      on_job_cases (λ r. Holds now (get id r.jobs)) j (fail_job j error now reg) reg kept
        λ found e. ground (
          arith,
          eq_iff j id,
          kept,
          get-insert j id (record found { state = failed; error = some error; updated_at = now })
              reg.jobs,
        )

  run-Holds :
      (calls : List (ℕ × Call Value)) (now : ℕ) (reg : JobRegistry Value)
      → AreTimed now calls
      → Holds now (get id reg.jobs)
      → Holds (end_time now calls) (get id (run calls reg).jobs)
  unfolding run
  run-Holds [] now reg h c = c
  run-Holds ((later, call) ∷ calls) now reg (h, hs) c =
      run-Holds calls later (step (later, call) reg) hs (step-Holds now later call reg h c)

  -- In a registry that any calls have led to, with a clock that does not go back, a job has a result
  -- exactly when it is done, an error exactly when it has failed, and was updated between its creation
  -- and the last call.
  pub run-IsCoherent :
      (calls : List (ℕ × Call Value)) (job : Job Value)
      → AreTimed 0 calls
      → get id (run calls empty).jobs ≡ some job
      → IsCoherent (end_time 0 calls) job
  run-IsCoherent calls job h e =
      subst (Holds (end_time 0 calls)) e (run-Holds calls 0 empty h (empty-Holds Value id))
