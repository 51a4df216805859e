-- ===== src/Cron/Tests.antt =====
-- Tests and witnesses of the cron service.
use avix.Base.{
  ℕ, suc, ◌+◌, ◌*◌, ◌≤◌, String, string_eq, true, false, [], ◌∷◌, length, none, some, ◌≡◌, ◌≢◌,
  refl, arith,
}
use avix.Base.Dict.{insert}
use avix.Errors.{ok, err}
use avix.Cron.Schema.{retry, json_string, CrontabJob, CrontabSpec}
use avix.Cron.Scheduler.{Schedule, add_job, next_run_after, due_jobs, skip}
use avix.Cron.Loader.{
  Words, normalise_expression, validate_crontab, validate_from, validate_schedule, duplicate_job_id,
}
use avix.Cron.Runner.{
  failure, Spawner, attempts_allowed, JobRun, run_job, render_goal, replace_from, CronRunner,
  from_crontab, register_jobs, run,
}
use avix.Cron.Runner.Ends.{run_job-Ended}
use avix.Cron.Runner.Fires.{run-from_crontab}

-- Every agent fails; the world counts the agents.
abbrev failing : Spawner
failing = record {
  World = ℕ;
  Handle = ℕ;
  spawn = λ request world. (ok world, world + 1);
  wait_for_exit = λ timeout handle world. (some (failure "exit code 1"), world);
  stop = λ handle world. world;
}

abbrev nightly : CrontabJob
nightly = record {
  id = "nightly";
  schedule = "0 2 * * *";
  user = "svc";
  agent_template = "cleaner";
  goal = "Delete logs older than {days} days";
  args = ("days", json_string "30") ∷ [];
  timeout = 3600;
  on_failure = retry;
  retry_policy = record { max_attempts = 3; backoff_sec = 60 };
  timezone = none;
}

run_job-Ended_example :
    (done : JobRun failing) × (extra : ℕ) × (run_job failing nightly 0 ≡ some done)
    × (done.attempts ≡ suc extra)
    × (done.attempts ≤ attempts_allowed nightly)
    × (done.slept ≡ extra * nightly.retry_policy.backoff_sec)
    × (length done.alerts ≤ 1)
run_job-Ended_example = run_job-Ended failing nightly 0

rendered : render_goal nightly.goal nightly.args ≡ "Delete logs older than 30 days"
unfolding render_goal replace_from
rendered = refl

-- Each expression is due at once.
abbrev at_once : Schedule
at_once = record { parses = λ e. true; after = λ e time. some time }

abbrev five_words : Words
five_words = record { fields = λ e. 5; reason = λ e. "bad" }

abbrev one_id : ℕ → String
one_id n = "6f1f"

abbrev crontab : CrontabSpec
crontab = record { timezone = "UTC"; jobs = nightly ∷ [] }

abbrev runner : CronRunner
runner = record {
  scheduler =
      (
        "6f1f",
        record {
          id = "6f1f";
          name = "nightly";
          expression = "0 0 2 * * *";
          missed_run_policy = skip;
          last_run = none;
          enabled = true;
        },
      )
      ∷ [];
  jobs = ("nightly", nightly) ∷ [];
  made = 1;
}

started : from_crontab at_once five_words one_id crontab ≡ ok runner
unfolding from_crontab register_jobs add_job normalise_expression insert
started = refl

is_due_now : due_jobs at_once 0 5 runner.scheduler ≡ "6f1f" ∷ []
unfolding due_jobs next_run_after
is_due_now = refl

names_apart : one_id 0 ≢ nightly.id
names_apart e =
    let same : false ≡ true = (string_eq.equal_iff "6f1f" "nightly").1 e in absurd (ground arith)

-- The job is due, and yet no tick runs it.
run-from_crontab_example : run at_once 0 (5 ∷ 10 ∷ []) runner ≡ []
run-from_crontab_example =
    run-from_crontab at_once five_words one_id crontab runner 0 (5 ∷ 10 ∷ [])
      (λ n. (names_apart, tt)) started

twice :
    validate_crontab five_words at_once (record { timezone = "UTC"; jobs = nightly ∷ nightly ∷ [] })
    ≡ err (duplicate_job_id "nightly")
unfolding validate_crontab validate_from validate_schedule normalise_expression
twice = refl
