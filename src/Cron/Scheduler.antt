-- ===== src/Cron/Scheduler.antt =====
-- crates/avix-core/src/cron_svc/scheduler.rs. The `cron` crate is `Schedule`: which expressions parse,
-- and the next time after a given one. `uuid` numbers the identifiers that `Uuid::new_v4` makes.
use avix.Base.{
  ℕ, String, string_eq, Bool, true, false, if◌then◌else◌, leb, ◌+++◌, List, [], ◌∷◌, length, Option,
  none, some,
}
use avix.Base.Dict.{Dict, insert, get, remove, modify, values}
use avix.Errors.{Result, ok, err}

pub data MissedRunPolicy : Type 0 where
  skip fire_once : MissedRunPolicy

pub record CronJob : Type 0 where
  pub id : String
  pub name : String
  pub expression : String
  pub missed_run_policy : MissedRunPolicy
  pub last_run : Option ℕ
  pub enabled : Bool

pub data CronError : Type 0 where
  invalid_expression : String → CronError
  job_not_found : String → CronError

-- `to_string`
abbrev pub cron_error : CronError → String
cron_error (invalid_expression e) = "invalid cron expression: " +++ e
cron_error (job_not_found id) = "job not found: " +++ id

pub record Schedule : Type 0 where
  pub parses : String → Bool
  pub after : String → ℕ → Option ℕ

abbrev pub CronScheduler : Type 0
CronScheduler = Dict String CronJob

unfoldable pub next_run_after : Schedule → CronJob → ℕ → Option ℕ
next_run_after schedule job time =
    if schedule.parses job.expression then schedule.after job.expression time else none

unfoldable pub add_job :
    Schedule
    → (id name expression : String) → MissedRunPolicy
    → CronScheduler
    → Result CronError String × CronScheduler
add_job schedule id name expression policy jobs =
    if schedule.parses expression
    then (
      ok id,
      insert id
          (record {
            id = id;
            name = name;
            expression = expression;
            missed_run_policy = policy;
            last_run = none;
            enabled = true;
          })
          jobs,
    )
    else (err (invalid_expression expression), jobs)

unfoldable pub remove_job : String → CronScheduler → Result CronError (Unit {0}) × CronScheduler
remove_job id jobs = elim (get id jobs) [
  | none ↦ (err (job_not_found id), jobs)
  | some _ ↦ (ok tt, remove id jobs)
]

abbrev pub list_jobs : CronScheduler → List CronJob
list_jobs jobs = values jobs

abbrev pub cron_job_count : CronScheduler → ℕ
cron_job_count jobs = length jobs

unfoldable pub update_last_run : String → ℕ → CronScheduler → CronScheduler
update_last_run id time jobs =
    modify id (λ (job : CronJob). record job { last_run = some time }) jobs

abbrev pub is_due : Schedule → ℕ → ℕ → CronJob → Bool
is_due schedule since now job =
    if job.enabled
    then elim (next_run_after schedule job since) [ none ↦ false | some next ↦ leb next now ]
    else false

unfoldable pub due_jobs : Schedule → ℕ → ℕ → CronScheduler → List String
due_jobs schedule since now [] = []
due_jobs schedule since now ((_, job) ∷ rest) =
    let later = due_jobs schedule since now rest in
    if is_due schedule since now job then job.id ∷ later else later
