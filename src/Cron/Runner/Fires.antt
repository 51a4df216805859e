-- ===== src/Cron/Runner/Fires.antt =====
-- crates/avix-core/src/cron_svc/runner.rs and scheduler.rs: which of the jobs that are due a tick runs.
use avix.Base.{
  ℕ, ◌+◌, String, string_eq, true, List, [], ◌∷◌, none, Bool-cases, ◌≡◌, ◌≢◌, inl, inr, refl, sym,
  subst, arith, All, eq-false_of_ne,
}
use avix.Base.Dict.{get, insert, modify, get-insert}
use avix.Errors.{ok}
use avix.Cron.Schema.{CrontabJob, CrontabSpec}
use avix.Cron.Scheduler.{Schedule, skip, CronJob, CronScheduler, add_job, due_jobs, update_last_run}
use avix.Cron.Loader.{Words, normalise_expression}
use avix.Cron.Runner.{CronRunner, register_jobs, from_crontab, fire, tick, run}

module _ (schedule : Schedule) (words : Words) (uuid : ℕ → String) where
  abbrev IsMade : String → Type 0
  IsMade id = (n : ℕ) × (id ≡ uuid n)

  -- The identifiers of the scheduler's jobs are the ones that `uuid` made.
  abbrev Made : CronScheduler → Type 0
  Made jobs = All (λ (entry : String × CronJob). IsMade entry.1.id) jobs

  -- None of the names of the runner's jobs is one of them.
  record IsApart (runner : CronRunner) : Type 0 where
    made_ids : Made runner.scheduler
    unknown : (n : ℕ) → get (uuid n) runner.jobs ≡ none

  Made-insert :
      (id : String) (job : CronJob) (jobs : CronScheduler)
      → IsMade job.id
      → Made jobs
      → Made (insert id job jobs)
  unfolding insert
  Made-insert id job [] h m = (h, tt)
  Made-insert id job ((k, old) ∷ rest) h (first, m) = ground (arith, Made-insert id job rest h m)

  Made-update_last_run :
      (id : String) (time : ℕ) (jobs : CronScheduler)
      → Made jobs
      → Made (update_last_run id time jobs)
  unfolding update_last_run modify
  Made-update_last_run id time [] m = tt
  Made-update_last_run id time ((k, job) ∷ rest) (first, m) =
      ground (arith, Made-update_last_run id time rest m)

  due_jobs-Made :
      (since now : ℕ) (jobs : CronScheduler)
      → Made jobs
      → All IsMade (due_jobs schedule since now jobs)
  unfolding due_jobs
  due_jobs-Made since now [] m = tt
  due_jobs-Made since now ((k, job) ∷ rest) (first, m) =
      ground (arith, due_jobs-Made since now rest m)

  fire-nothing :
      (ids : List String) (now : ℕ) (runner : CronRunner)
      → All IsMade ids
      → IsApart runner
      → ((fire ids now runner).0 ≡ []) × IsApart (fire ids now runner).1
  unfolding fire
  fire-nothing [] now runner h a = (refl, a)
  fire-nothing (id ∷ rest) now runner ((n, e), h) a =
      let marked : CronRunner = record runner {
        scheduler = update_last_run id now runner.scheduler;
      } in
      let found : get id runner.jobs ≡ none = rw e (a.unknown n) in
      let apart : IsApart marked = record {
        made_ids = Made-update_last_run id now runner.scheduler a.made_ids;
        unknown = a.unknown;
      } in
      rw (fire, found) (fire-nothing rest now marked h apart)

  register_jobs-made :
      (spec : List CrontabJob) (runner : CronRunner) {out : CronRunner}
      → ((n : ℕ) → All (λ (job : CrontabJob). uuid n ≢ job.id) spec)
      → IsApart runner
      → register_jobs schedule words uuid spec runner ≡ ok out
      → IsApart out
  unfolding register_jobs add_job
  register_jobs-made [] runner {out} fresh a h =
      subst IsApart {x = runner} {y = out} (ground arith) a
  register_jobs-made (job ∷ rest) runner {out} fresh a h =
      elim (Bool-cases (schedule.parses (normalise_expression words job.schedule))) [
        | inr f ↦ absurd (ground (arith, f, h))
        | inl t ↦
            let next : CronRunner = record {
              scheduler =
                  insert (uuid runner.made)
                    (record {
                      id = uuid runner.made;
                      name = job.id;
                      expression = normalise_expression words job.schedule;
                      missed_run_policy = skip;
                      last_run = none;
                      enabled = true;
                    })
                    runner.scheduler;
              jobs = insert job.id job runner.jobs;
              made = runner.made + 1;
            } in
            let apart : IsApart next = record {
              made_ids =
                  Made-insert (uuid runner.made) _ runner.scheduler (runner.made, refl) a.made_ids;
              unknown = λ n. ground (
                arith,
                get-insert job.id (uuid n) job runner.jobs,
                eq-false_of_ne job.id (uuid n) (λ e. (fresh n).0 (sym e)),
                a.unknown n,
              );
            } in
            register_jobs-made rest next (λ n. (fresh n).1) apart (ground (arith, t, h))
      ]

  run-nothing :
      (times : List ℕ) (last_tick : ℕ) (runner : CronRunner)
      → IsApart runner
      → run schedule last_tick times runner ≡ []
  unfolding run tick
  run-nothing [] last_tick runner a = refl
  run-nothing (now ∷ later) last_tick runner a =
      let ids = due_jobs schedule last_tick now runner.scheduler in
      let (none_fired, apart) =
        fire-nothing ids now runner (due_jobs-Made last_tick now runner.scheduler a.made_ids) a in
      rw none_fired (run-nothing later now (fire ids now runner).1 apart)

  -- A runner that a crontab made runs no job at any tick, whatever the schedule says, when no identifier
  -- that the scheduler makes is the name of a job of the crontab.
  pub run-from_crontab :
      (spec : CrontabSpec) (runner : CronRunner) (start : ℕ) (times : List ℕ)
      → ((n : ℕ) → All (λ (job : CrontabJob). uuid n ≢ job.id) spec.jobs)
      → from_crontab schedule words uuid spec ≡ ok runner
      → run schedule start times runner ≡ []
  unfolding from_crontab get
  run-from_crontab spec runner start times fresh h = run-nothing times start runner (
      register_jobs-made spec.jobs (record { scheduler = []; jobs = []; made = 0 }) fresh
        (record { made_ids = tt; unknown = λ n. refl }) h)
