-- ===== src/Cron/Runner.antt =====
-- crates/avix-core/src/cron_svc/runner.rs. The spawner of agents is the parameter `Spawner`, with a state
-- of its own; an alert is written down, and so is the time slept.
pub mod Ends
pub mod Fires
use avix.Base.{
  ℕ, zero, suc, ◌+◌, ◌-◌, max, Bool, true, false, String, string_eq, if◌then◌else◌, leb,
  starts_with, ◌+++◌, decimal, List, [], ◌∷◌, ◌++◌, Option, none, some,
}
use avix.Base.Dict.{Dict, get, insert}
use avix.Errors.{Result, ok, err}
use avix.Cron.Schema.{
  OnFailure, ignore, alert, retry, JsonValue, json_string, json_other, CrontabJob, CrontabSpec,
}
use avix.Cron.Scheduler.{
  Schedule, skip, cron_error, CronScheduler, add_job, due_jobs, update_last_run,
}
use avix.Cron.Loader.{Words, normalise_expression}

pub record SpawnRequest : Type 0 where
  pub user : String
  pub agent_template : String
  pub goal : String
  pub timeout_sec : ℕ

pub data AgentExitStatus : Type 0 where
  success : AgentExitStatus
  failure : String → AgentExitStatus

-- `AgentSpawner`. Waiting gives nothing when the timeout, in seconds, passes first.
pub record Spawner : Type 1 where
  pub World : Type 0
  pub Handle : Type 0
  pub spawn : SpawnRequest → World → Result String Handle × World
  pub wait_for_exit : ℕ → Handle → World → Option AgentExitStatus × World
  pub stop : Handle → World → World

abbrev pub char_len : String → ℕ
char_len String.[] = 0
char_len (String.◌∷◌ c s) = suc (char_len s)

-- `str::replace` for a pattern that is not empty; `left` characters of a match are still to pass.
unfoldable pub replace_from : String → String → ℕ → String → String
replace_from pattern value left String.[] = ""
replace_from pattern value (suc left) (String.◌∷◌ c s) = replace_from pattern value left s
replace_from pattern value zero (String.◌∷◌ c s) =
    let rest = replace_from pattern value 0 s in
    let matched = replace_from pattern value (char_len pattern - 1) s in
    if starts_with (String.◌∷◌ c s) pattern then value +++ matched else String.◌∷◌ c rest

abbrev pub json_text : JsonValue → String
json_text (json_string s) = s
json_text (json_other text) = text

unfoldable pub render_goal : String → Dict String JsonValue → String
unfolding replace_from
render_goal goal [] = goal
render_goal goal ((k, v) ∷ rest) =
    render_goal (replace_from ("{" +++ k +++ "}") (json_text v) 0 goal) rest

abbrev pub attempts_allowed : CrontabJob → ℕ
attempts_allowed job = elim job.on_failure [ retry ↦ max job.retry_policy.max_attempts 1 | _ ↦ 1 ]

-- What the loop does after an attempt: it returns, with an alert or without, or tries again.
pub data Verdict : Type 0 where
  returns : Option String → Verdict
  tries_again : Verdict

abbrev pub verdict : OnFailure → Bool → (String → String) → AgentExitStatus → Verdict
verdict policy last exhausted success = returns none
verdict ignore last exhausted (failure reason) = returns none
verdict alert last exhausted (failure reason) = returns (some reason)
verdict retry true exhausted (failure reason) = returns (some (exhausted reason))
verdict retry false exhausted (failure reason) = tries_again

abbrev pub exhausted : CrontabJob → String → String
exhausted job reason =
    "exhausted " +++ decimal (attempts_allowed job) +++ " attempts; last error: " +++ reason

module _ (spawner : Spawner) where
  -- What a job has done so far.
  pub record JobRun : Type 0 where
    pub world : spawner.World
    pub attempts : ℕ
    pub slept : ℕ
    pub alerts : List (String × String)

  abbrev pub waited :
      CrontabJob
      → spawner.Handle
      → Option AgentExitStatus × spawner.World
      → AgentExitStatus × spawner.World
  waited job handle (some status, world) = (status, world)
  waited job handle (none, world) =
      (failure ("timeout after " +++ decimal job.timeout +++ "s"), spawner.stop handle world)

  abbrev pub spawned :
      CrontabJob → Result String spawner.Handle × spawner.World → AgentExitStatus × spawner.World
  spawned job (err e, world) = (failure ("spawn error: " +++ e), world)
  spawned job (ok handle, world) =
      waited job handle (spawner.wait_for_exit job.timeout handle world)

  unfoldable pub execute_once :
      CrontabJob → SpawnRequest → spawner.World → AgentExitStatus × spawner.World
  execute_once job request world = spawned job (spawner.spawn request world)

  abbrev pub request_of : CrontabJob → SpawnRequest
  request_of job = record {
    user = job.user;
    agent_template = job.agent_template;
    goal = render_goal job.goal job.args;
    timeout_sec = job.timeout;
  }

  -- One more attempt, and how it ended.
  unfoldable pub attempt_once : CrontabJob → JobRun → AgentExitStatus × JobRun
  unfolding execute_once
  attempt_once job run =
      let (status, world) = execute_once job (request_of job) run.world in
      (status, record run { world = world; attempts = run.attempts + 1 })

  abbrev pub send_alert : CrontabJob → String → JobRun → JobRun
  send_alert job reason run = record run { alerts = run.alerts ++ (job.id, reason) ∷ [] }

  abbrev pub back_off : CrontabJob → JobRun → JobRun
  back_off job run = record run { slept = run.slept + job.retry_policy.backoff_sec }

  abbrev pub finish_run : CrontabJob → Option String → JobRun → JobRun
  finish_run job none run = run
  finish_run job (some reason) run = send_alert job reason run

  -- The loop of `run_job`, on fuel.
  unfoldable pub run_loop : ℕ → CrontabJob → JobRun → Option JobRun
  run_loop zero job run = none
  run_loop (suc fuel) job run =
      let (status, after) = attempt_once job run in
      elim (verdict job.on_failure (leb (attempts_allowed job) after.attempts) (exhausted job)
        status) [
          | returns told ↦ some (finish_run job told after)
          | tries_again ↦ run_loop fuel job (back_off job after)
        ]

  unfoldable pub run_job : CrontabJob → spawner.World → Option JobRun
  unfolding run_loop
  run_job job world =
      run_loop (attempts_allowed job) job
        (record { world = world; attempts = 0; slept = 0; alerts = [] })

-- The scheduler and the jobs by name; the next identifier is `uuid made`.
pub record CronRunner : Type 0 where
  pub scheduler : CronScheduler
  pub jobs : Dict String CrontabJob
  pub made : ℕ

module _ (schedule : Schedule) (words : Words) (uuid : ℕ → String) where
  unfoldable pub register_jobs : List CrontabJob → CronRunner → Result String CronRunner
  register_jobs [] runner = ok runner
  register_jobs (job ∷ rest) runner =
      let (added, scheduler) =
        add_job schedule (uuid runner.made) job.id (normalise_expression words job.schedule) skip
          runner.scheduler in
      elim added [
        | err e ↦ err ("job '" +++ job.id +++ "': " +++ cron_error e)
        | ok _ ↦ register_jobs rest (record {
          scheduler = scheduler;
          jobs = insert job.id job runner.jobs;
          made = runner.made + 1;
        })
      ]

  unfoldable pub from_crontab : CrontabSpec → Result String CronRunner
  unfolding register_jobs
  from_crontab spec = register_jobs spec.jobs (record { scheduler = []; jobs = []; made = 0 })

-- The jobs that are due are marked, and those found by name are run.
unfoldable pub fire : List String → ℕ → CronRunner → List CrontabJob × CronRunner
fire [] now runner = ([], runner)
fire (id ∷ rest) now runner =
    let marked = record runner { scheduler = update_last_run id now runner.scheduler } in
    let (fired, after) = fire rest now marked in
    elim (get id runner.jobs) [ none ↦ (fired, after) | some job ↦ (job ∷ fired, after) ]

-- One round of the loop of `run`, from the last tick to `now`.
unfoldable pub tick : Schedule → ℕ → ℕ → CronRunner → List CrontabJob × CronRunner
unfolding fire
tick schedule last_tick now runner =
    fire (due_jobs schedule last_tick now runner.scheduler) now runner

-- The loop of `run` over the times of its ticks: the jobs run, in order.
unfoldable pub run : Schedule → ℕ → List ℕ → CronRunner → List CrontabJob
unfolding tick
run schedule last_tick [] runner = []
run schedule last_tick (now ∷ later) runner =
    let (fired, after) = tick schedule last_tick now runner in fired ++ run schedule now later after
