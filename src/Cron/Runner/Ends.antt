-- ===== src/Cron/Runner/Ends.antt =====
-- crates/avix-core/src/cron_svc/runner.rs: the loop of `run_job` ends.
use avix.Base.{
  ℕ, zero, suc, ◌+◌, ◌*◌, ◌≤◌, ◌<◌, Bool, true, false, leb, String, [], ◌∷◌, length, length-append,
  Option, none, some, ◌≡◌, ◌⊎◌, inl, inr, refl, arith,
}
use avix.Cron.Schema.{OnFailure, ignore, alert, retry, CrontabJob}
use avix.Cron.Runner.{
  AgentExitStatus, success, failure, Spawner, attempts_allowed, JobRun, attempt_once, send_alert,
  back_off, exhausted, Verdict, returns, tries_again, verdict, finish_run, run_loop, run_job,
}

module _ (spawner : Spawner) where
  -- How a run that made `before` attempts ends.
  pub record Ended (job : CrontabJob) (run : JobRun spawner) (out : Option (JobRun spawner))
      : Type 0 where
    pub done : JobRun spawner
    pub returns : out ≡ some done
    pub extra : ℕ
    pub tries : done.attempts ≡ run.attempts + suc extra
    pub most : done.attempts ≤ attempts_allowed job
    pub rested : done.slept ≡ run.slept + extra * job.retry_policy.backoff_sec
    pub told : length done.alerts ≤ length run.alerts + 1

  attempt_once_lem :
      (job : CrontabJob) (run : JobRun spawner)
      → ((attempt_once spawner job run).1.attempts ≡ run.attempts + 1)
        × ((attempt_once spawner job run).1.slept ≡ run.slept)
        × ((attempt_once spawner job run).1.alerts ≡ run.alerts)
  unfolding attempt_once
  attempt_once_lem job run = (refl, refl, refl)

  Verdict-cases : (v : Verdict) → ((a : Option String) × (v ≡ returns a)) ⊎ (v ≡ tries_again)
  Verdict-cases (returns a) = inl (a, refl)
  Verdict-cases tries_again = inr refl

  tries_again_lem :
      (policy : OnFailure) (last : Bool) (msg : String → String) (status : AgentExitStatus)
      → verdict policy last msg status ≡ tries_again
      → last ≡ false
  tries_again_lem policy last msg success e = absurd (ground arith)
  tries_again_lem ignore last msg (failure r) e = absurd (ground arith)
  tries_again_lem alert last msg (failure r) e = absurd (ground arith)
  tries_again_lem retry true msg (failure r) e = absurd (ground arith)
  tries_again_lem retry false msg (failure r) e = refl

  OnFailure-cases : (f : OnFailure) → (f ≡ ignore) ⊎ (f ≡ alert) ⊎ (f ≡ retry)
  OnFailure-cases ignore = inl refl
  OnFailure-cases alert = inr (inl refl)
  OnFailure-cases retry = inr (inr refl)

  one_attempt : (job : CrontabJob) → 1 ≤ attempts_allowed job
  one_attempt job = elim (OnFailure-cases job.on_failure) [
    | inl e ↦ rw e (omega arith)
    | inr (inl e) ↦ rw e (omega arith)
    | inr (inr e) ↦ rw e (omega arith)
  ]

  -- The run ends with this attempt, and sends an alert or none.
  ends_here :
      (job : CrontabJob) (run after done : JobRun spawner)
      → (after.attempts ≡ run.attempts + 1)
        × (after.slept ≡ run.slept)
        × (after.alerts ≡ run.alerts)
      → run.attempts < attempts_allowed job
      → (done.attempts ≡ after.attempts)
        × (done.slept ≡ after.slept)
        × (length done.alerts ≤ length after.alerts + 1)
      → Ended job run (some done)
  ends_here job run after done (a, s, l) h (a', s', l') = record {
    done = done;
    returns = refl;
    extra = 0;
    tries = omega arith;
    most = omega arith;
    rested = omega arith;
    told = rw (← l) l';
  }

  send_alert_told :
      (job : CrontabJob) (reason : String) (after : JobRun spawner)
      → length (send_alert spawner job reason after).alerts ≤ length after.alerts + 1
  send_alert_told job reason after =
      omega (arith, length-append after.alerts ((job.id, reason) ∷ []))

  finish_told :
      (job : CrontabJob) (sent : Option String) (after : JobRun spawner)
      → ((finish_run spawner job sent after).attempts ≡ after.attempts)
        × ((finish_run spawner job sent after).slept ≡ after.slept)
        × (length (finish_run spawner job sent after).alerts ≤ length after.alerts + 1)
  finish_told job none after = (refl, refl, omega arith)
  finish_told job (some reason) after = (refl, refl, send_alert_told job reason after)

  goes_on :
      (job : CrontabJob) (run after : JobRun spawner) {out : Option (JobRun spawner)}
      → (after.attempts ≡ run.attempts + 1)
        × (after.slept ≡ run.slept)
        × (after.alerts ≡ run.alerts)
      → Ended job (back_off spawner job after) out
      → Ended job run out
  goes_on job run after (a, s, l) h = record {
    done = h.done;
    returns = h.returns;
    extra = suc h.extra;
    tries = omega (arith, h.tries);
    most = h.most;
    rested = grind (arith, h.rested);
    told = rw (← l) h.told;
  }

  run_loop-Ended :
      (fuel : ℕ) (job : CrontabJob) (run : JobRun spawner)
      → run.attempts < attempts_allowed job
      → attempts_allowed job ≤ run.attempts + fuel
      → Ended job run (run_loop spawner fuel job run)
  unfolding run_loop
  run_loop-Ended zero job run h k = absurd (omega arith)
  run_loop-Ended (suc fuel) job run h k =
      let after = (attempt_once spawner job run).1 in
      let once = attempt_once_lem job run in
      let last = leb (attempts_allowed job) after.attempts in
      elim (Verdict-cases
        (verdict job.on_failure last (exhausted job) (attempt_once spawner job run).0)) [
          | inl (told, e) ↦
              rw (run_loop, e)
                (ends_here job run after (finish_run spawner job told after) once h
                  (finish_told job told after))
          | inr e ↦
              let more : after.attempts < attempts_allowed job = grind (
                arith,
                tries_again_lem job.on_failure last (exhausted job) (attempt_once spawner job run).0
                    e,
              ) in
              rw (run_loop, e)
                (goes_on job run after once
                  (run_loop-Ended fuel job (back_off spawner job after) more (omega arith)))
        ]

  -- Running a job ends, whatever the spawner does: after at least one attempt and no more than the policy
  -- allows, with one wait of `backoff_sec` between two attempts, and at most one alert.
  pub run_job-Ended :
      (job : CrontabJob) (world : spawner.World)
      → (done : JobRun spawner) × (extra : ℕ) × (run_job spawner job world ≡ some done)
        × (done.attempts ≡ suc extra)
        × (done.attempts ≤ attempts_allowed job)
        × (done.slept ≡ extra * job.retry_policy.backoff_sec)
        × (length done.alerts ≤ 1)
  unfolding run_job
  run_job-Ended job world =
      let start : JobRun spawner = record { world = world; attempts = 0; slept = 0; alerts = [] } in
      let h = run_loop-Ended (attempts_allowed job) job start (one_attempt job) (omega arith) in
      (h.done, h.extra, h.returns, omega (arith, h.tries), h.most, grind (arith, h.rested), h.told)
