-- ===== src/Cron/Loader.antt =====
-- crates/avix-core/src/cron_svc/loader.rs: the checks on a parsed crontab. Reading and parsing the file is
-- left out; `fields` counts the words of an expression, and `reason` is the crate's message.
use avix.Base.{ℕ, String, string_eq, nat_eq, ◌==◌, if◌then◌else◌, ◌+++◌, List, [], ◌∷◌, contains}
use avix.Errors.{Result, ok, err, ◌>>◌}
use avix.Cron.Schema.{CrontabJob, CrontabSpec}
use avix.Cron.Scheduler.{Schedule}

pub data CrontabError : Type 0 where
  invalid_expression_in : (expr job_id reason : String) → CrontabError
  duplicate_job_id : String → CrontabError

-- `split_whitespace().count()` and the message of the parser
pub record Words : Type 0 where
  pub fields : String → ℕ
  pub reason : String → String

unfoldable pub normalise_expression : Words → String → String
normalise_expression words expr = if words.fields expr == 5 then "0 " +++ expr else expr

unfoldable pub validate_schedule : Words → Schedule → CrontabJob → Result CrontabError (Unit {0})
unfolding normalise_expression
validate_schedule words schedule job =
    let normalised = normalise_expression words job.schedule in
    if schedule.parses normalised
    then ok tt
    else err (invalid_expression_in job.schedule job.id (words.reason normalised))

unfoldable pub validate_from :
    Words → Schedule → List String → List CrontabJob → Result CrontabError (Unit {0})
unfolding validate_schedule
validate_from words schedule seen [] = ok tt
validate_from words schedule seen (job ∷ rest) =
    let others = validate_from words schedule (job.id ∷ seen) rest in
    if contains seen job.id
    then err (duplicate_job_id job.id)
    else validate_schedule words schedule job >> others

unfoldable pub validate_crontab : Words → Schedule → CrontabSpec → Result CrontabError (Unit {0})
unfolding validate_from
validate_crontab words schedule spec = validate_from words schedule [] spec.jobs
