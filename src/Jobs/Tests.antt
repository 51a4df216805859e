-- ===== src/Jobs/Tests.antt =====
-- Tests and witnesses of the job registry.
use avix.Base.{ℕ, ◌≡◌, refl, List, [], ◌∷◌, some, none, arith, eq_iff, string_eq}
use avix.Base.Dict.{get, insert}
use avix.Jobs.Job.{Job, JobEvent, progressed, done, stdout, is_terminal, event_job_id}
use avix.Jobs.Registry.{empty, create, start, log, complete}
use avix.Jobs.Registry.Calls.{Call, creates, starts, logs, completes, fails, cancels, run, step}
use avix.Jobs.Registry.Finality.{run-final}
use avix.Jobs.Registry.Events.{Tells, run-Tells}
use avix.Jobs.Registry.Outcome.{AreTimed}
use avix.Errors.{ok}
use avix.Jobs.Watch.{occurred, received, wait_for, final_event, handle_job_watch}
use avix.Jobs.Watch.Final.{IsFinal, handle_job_watch-IsFinal}

-- A job's life; the value of a result is a number here.
abbrev life : List (ℕ × Call ℕ)
life =
    (5, creates "u1" "llm/image" 7)
    ∷ (6, starts "job-u1")
    ∷ (7, logs "job-u1" stdout "half")
    ∷ (9, completes "job-u1" 42)
    ∷ []

abbrev late : List (ℕ × Call ℕ)
late =
    (10, cancels "job-u1")
    ∷ (11, creates "u2" "fs/read" 7)
    ∷ (12, fails "job-u2" (record { code = 3; message = "no" }))
    ∷ []

abbrev finished : Job ℕ
finished = record {
  id = "job-u1";
  tool = "llm/image";
  owner_pid = 7;
  state = done;
  created_at = 5;
  updated_at = 9;
  result = some 42;
  error = none;
}

life_ends : get "job-u1" (run life empty).jobs ≡ some finished
unfolding run step empty create start log complete get insert is_terminal
life_ends = refl

run-final_example : get "job-u1" (run late (run life empty)).jobs ≡ some finished
unfolding is_terminal
run-final_example =
    run-final "job-u1" finished refl late (run life empty)
      (tt, ((λ e. ground (arith, eq_iff "job-u2" "job-u1")), (tt, tt))) life_ends

run-Tells_example : Tells "job-u1" (run life empty)
unfolding empty get
run-Tells_example = run-Tells "job-u1" life (refl, (tt, (tt, (tt, tt))))

life_timed : AreTimed 0 life
life_timed = ground arith

handle_job_watch-IsFinal_example :
    (event : JobEvent ℕ) × (handle_job_watch 0 (λ e. ok 0) "job-u1" [] (run life empty)
      ≡ ok (occurred event))
    × IsFinal "job-u1" finished event
unfolding is_terminal
handle_job_watch-IsFinal_example =
    handle_job_watch-IsFinal 0 "job-u1" (λ e. ok 0) life [] finished life_timed life_ends refl

abbrev started : List (ℕ × Call ℕ)
started = (5, creates "u1" "llm/image" 7) ∷ (6, starts "job-u1") ∷ []

-- Events of other jobs are passed over.
watched :
    handle_job_watch 0
      (λ e. ok 0)
      "job-u1"
      (received (progressed "job-u2" none none none)
        ∷ received (progressed "job-u1" (some 5) none none)
        ∷ [])
      (run started empty)
    ≡ ok (occurred (progressed "job-u1" (some 5) none none))
unfolding handle_job_watch wait_for final_event run step empty create start get insert is_terminal
    event_job_id
watched = refl
