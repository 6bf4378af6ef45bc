-- ===== src/Scheduler.antt =====
-- src/mnema/adapters/scheduler/in_process.py and cron.py: two schedulers over APScheduler.
pub mod Fires
use memory_agent.Action.{or_throw, Action, value_error, done, ◌>>=◌, ◌>>◌}
use memory_agent.Text.{codes, Text}
use memory_agent.Prelude.{ℕ, suc, ◌+◌, ◌≤◌, ◌≡◌, Option, none, some}

abbrev pub job_id : Text
job_id = codes "consolidate"

-- What the adapters use of `AsyncIOScheduler`, on its states `S`, with its triggers `Trigger`.
-- An instant is its microseconds. `process` is the look at the jobs at an instant, at which no
-- instance of a job is running; `fired` counts the runs of a job that it started.
pub record ApScheduler (S Trigger : Type 0) : Type 0 where
  pub start : S → S
  -- `IntervalTrigger(seconds=…)`, and `CronTrigger.from_crontab(…)`, which may raise ValueError
  pub interval : ℕ → Trigger
  pub from_crontab : Text → Option Trigger
  -- `add_job(fn, trigger, id=…, next_run_time=…)`
  pub add_job : Trigger → Text → Option ℕ → Action S (Unit {0})
  -- the `next_run_time` of the job of an id, if there is one
  pub get_job : Text → S → Option (Option ℕ)
  -- `job.modify(next_run_time=…)`
  pub modify : Text → ℕ → S → S
  pub shutdown : S → S
  pub process : ℕ → S → S
  pub fired : Text → S → ℕ
  pub misfire_grace_time : ℕ

-- `InProcessScheduler()` and `CronScheduler(expression)`.
pub data Kind : Type 0 where
  in_process : Kind
  cron : Text → Kind

module _ {S Trigger : Type 0} (ap_scheduler : ApScheduler S Trigger) where
  unfoldable pub start : Action S (Unit {0})
  start s = done tt (ap_scheduler.start s)

  -- `InProcessScheduler.schedule`
  unfoldable pub schedule_interval : (every_seconds : ℕ) → Action S (Unit {0})
  schedule_interval every_seconds =
      ap_scheduler.add_job (ap_scheduler.interval every_seconds) job_id none

  -- `CronScheduler.schedule`
  unfoldable pub schedule_cron : Text → (every_seconds : ℕ) → Action S (Unit {0})
  unfolding or_throw
  schedule_cron expression every_seconds = do
    trigger ← or_throw value_error (ap_scheduler.from_crontab expression)
    ap_scheduler.add_job trigger job_id none

  abbrev pub schedule : Kind → ℕ → Action S (Unit {0})
  schedule in_process every_seconds = schedule_interval every_seconds
  schedule (cron expression) every_seconds = schedule_cron expression every_seconds

  -- `datetime.now()` is an argument.
  unfoldable pub trigger_now : ℕ → Action S (Unit {0})
  trigger_now now s = done tt (elim (ap_scheduler.get_job job_id s) [
    | none ↦ s
    | some _ ↦ ap_scheduler.modify job_id now s
  ])

  unfoldable pub shutdown : Action S (Unit {0})
  shutdown s = done tt (ap_scheduler.shutdown s)

-- What APScheduler 3 documents of these calls.
pub record IsApScheduler {S Trigger : Type 0} (a : ApScheduler S Trigger) : Type 0 where
  -- a start changes no job
  pub start_keeps :
      (id : Text) (s : S)
      → (a.get_job id (a.start s) ≡ a.get_job id s) × (a.fired id (a.start s) ≡ a.fired id s)
  -- a job is added under a new id: with the given time, or paused
  pub add_new :
      (trigger : Trigger) (id : Text) (at : Option ℕ) (s : S)
      → a.get_job id s ≡ none
      → (s' : S) × (a.add_job trigger id at s ≡ done tt s')
        × (a.get_job id s' ≡ some at)
        × (a.fired id s' ≡ a.fired id s)
  -- a paused job is left alone
  pub process_paused :
      (now : ℕ) (id : Text) (s : S)
      → a.get_job id s ≡ some none
      → (a.get_job id (a.process now s) ≡ some none) × (a.fired id (a.process now s) ≡ a.fired id s)
  -- a job runs when its time has come, unless it is missed by more than the grace time
  pub process_due :
      (now time : ℕ) (id : Text) (s : S)
      → a.get_job id s ≡ some (some time)
      → time ≤ now
      → now ≤ time + a.misfire_grace_time
      → a.fired id (a.process now s) ≡ suc (a.fired id s)
  pub modify_sets :
      (now : ℕ) (at : Option ℕ) (id : Text) (s : S)
      → a.get_job id s ≡ some at
      → (a.get_job id (a.modify id now s) ≡ some (some now))
        × (a.fired id (a.modify id now s) ≡ a.fired id s)
