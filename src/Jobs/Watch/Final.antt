-- ===== src/Jobs/Watch/Final.antt =====
-- What a watch says of a job that is over, and how a job starts.
use avix.Base.{
  ℕ, ◌≡◌, refl, String, string_eq, true, List, Option, none, some, arith, ap, ◌+++◌, map_option,
}
use avix.Base.Dict.{get, insert, get-insert_self}
use avix.Errors.{Result, ok}
use avix.Jobs.Job.{
  Job, JobState, pending, running, paused, done, failed, cancelled, is_terminal, JobError, JobEvent,
  status_change, progressed, logged, completed, fell,
}
use avix.Jobs.Registry.{JobRegistry, empty, create, start, start-pending}
use avix.Jobs.Registry.Calls.{Call, run}
use avix.Jobs.Registry.Outcome.{HasValue, IsCoherent, AreTimed, end_time, run-IsCoherent}
use avix.Jobs.Watch.{
  occurred, Received, or_null, failure_of, final_event, watch_job, handle_job_watch, start_new_job,
}

-- An event that tells how the job ended, with what its record holds
pub IsFinal : {Value : Type 0} → String → Job Value → JobEvent Value → Type 0
IsFinal id job (completed j result) = (j ≡ id) × (job.state ≡ done) × (job.result ≡ some result)
IsFinal id job (fell j error) = (j ≡ id) × (job.state ≡ failed) × (job.error ≡ some error)
IsFinal id job (status_change j old new) = (j ≡ id) × (job.state ≡ cancelled) × (new ≡ cancelled)
IsFinal id job (progressed j percent stage detail) = ⊥
IsFinal id job (logged j stream line) = ⊥

module _ {Value : Type 0} (null : Value) (id : String) where
  abbrev Ends : Job Value → Option (JobEvent Value) → Type 0
  Ends job told = (event : JobEvent Value) × (told ≡ some event) × IsFinal id job event

  done-Ends :
      (job : Job Value) (result : Option Value)
      → job.state ≡ done
      → job.result ≡ result
      → HasValue result
      → Ends job (some (completed id (or_null null result)))
  unfolding IsFinal
  done-Ends job none s e h = absurd h
  done-Ends job (some v) s e h = (completed id v, refl, (refl, s, e))

  failed-Ends :
      (job : Job Value) (error : Option JobError)
      → job.state ≡ failed
      → job.error ≡ error
      → HasValue error
      → Ends job (failure_of null id error)
  unfolding IsFinal
  failed-Ends job none s e h = absurd h
  failed-Ends job (some x) s e h = (fell id x, refl, (refl, s, e))

  -- The record of a job that is over gives its final event.
  final_event-Ends :
      (now : ℕ) (job : Job Value) (state : JobState)
      → job.state ≡ state
      → is_terminal state ≡ true
      → IsCoherent now job
      → Ends job (final_event null id state job)
  unfolding final_event is_terminal IsFinal
  final_event-Ends now job done s t c = done-Ends job job.result s refl (c.result_iff.0 s)
  final_event-Ends now job failed s t c = failed-Ends job job.error s refl (c.error_iff.0 s)
  final_event-Ends now job cancelled s t c =
      (status_change id running cancelled, refl, (refl, s, refl))
  final_event-Ends now job pending s t c = absurd (ground (arith, t))
  final_event-Ends now job running s t c = absurd (ground (arith, t))
  final_event-Ends now job paused s t c = absurd (ground (arith, t))

  -- Whatever calls have led to the registry, with a clock that does not go back, a watch of a job that is
  -- over answers with an event of the job that tells how it ended, with its result or its error, whatever
  -- else the subscription gives.
  pub handle_job_watch-IsFinal :
      (to_value : JobEvent Value → Result String Value) (calls : List (ℕ × Call Value))
      (arrivals : List (Received Value)) (job : Job Value)
      → AreTimed 0 calls
      → get id (run calls empty).jobs ≡ some job
      → is_terminal job.state ≡ true
      → (event : JobEvent Value) × (handle_job_watch null to_value id arrivals (run calls empty)
          ≡ ok (occurred event))
        × IsFinal id job event
  unfolding handle_job_watch
  handle_job_watch-IsFinal to_value calls arrivals job h e t =
      let (event, told, final) =
        final_event-Ends (end_time 0 calls) job job.state refl t
          (run-IsCoherent id calls job h e) in
      (event, rw (e, watch_job, told) refl, final)

-- A job that was just created can be started, and then runs.
pub start_new_job-running :
    {Value : Type 0} (uuid tool : String) (owner_pid now : ℕ) (reg : JobRegistry Value)
    → let (id, (answer, started)) = start_new_job uuid tool owner_pid now reg in
      (answer ≡ ok tt)
      × (map_option (λ (j : Job Value). j.state) (get id started.jobs) ≡ some running)
unfolding start_new_job create start
start_new_job-running {Value} uuid tool owner_pid now reg =
    let job : Job Value = record {
      id = "job-" +++ uuid;
      tool = tool;
      owner_pid = owner_pid;
      state = pending;
      created_at = now;
      updated_at = now;
      result = none;
      error = none;
    } in
    let (answer, found) =
      start-pending ("job-" +++ uuid) now
        (record reg { jobs = insert ("job-" +++ uuid) job reg.jobs }) job
        (get-insert_self ("job-" +++ uuid) job reg.jobs) refl in
    (answer, ap (map_option (λ (j : Job Value). j.state)) found)
