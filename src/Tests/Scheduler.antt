-- ===== src/Tests/Scheduler.antt =====
-- The theorem on schedulers over a concrete one: the times of the jobs and the counts of their runs.
use memory_agent.Scheduler.{trigger_now, IsApScheduler, schedule, ApScheduler, job_id, cron, start}
use memory_agent.Action.{final, value_error, done, raised, ◌>>=◌}
use memory_agent.Text.{codes, Text, text_eq}
use memory_agent.Scheduler.Fires.{schedule_waits, process_all}
use memory_agent.Prelude.{
  ℕ, suc, ◌+◌, ◌≤◌, ◌≡◌, refl, Bool, false, Option, none, some, List, arith, leb, if◌then◌else◌,
  ◌==◌, eq_refl,
}
use memory_agent.Samples.{thousandths}

record Jobs : Type 0 where
  next_run : Text → Option (Option ℕ)
  runs : Text → ℕ

abbrev set_job : Text → Option ℕ → (Text → Option (Option ℕ)) → Text → Option (Option ℕ)
set_job id at jobs j = if j == id then some at else jobs j

abbrev is_due : ℕ → Option (Option ℕ) → Bool
is_due now none = false
is_due now (some none) = false
is_due now (some (some time)) = leb time now

abbrev sample_scheduler : ApScheduler Jobs ℕ
sample_scheduler = record {
  start = λ s. s;
  interval = λ n. n;
  from_crontab = λ x. some 1800;
  add_job = λ trigger id at s. elim (s.next_run id) [
    | none ↦ done tt (record s { next_run = set_job id at s.next_run })
    | some _ ↦ raised value_error s
  ];
  get_job = λ id s. s.next_run id;
  modify = λ id now s. record s { next_run = set_job id (some now) s.next_run };
  shutdown = λ s. s;
  process = λ now s. record {
    next_run = λ j. if is_due now (s.next_run j) then some (some (now + 1)) else s.next_run j;
    runs = λ j. if is_due now (s.next_run j) then suc (s.runs j) else s.runs j;
  };
  fired = λ id s. s.runs id;
  misfire_grace_time = 1000000;
}

set_job-same :
    (id : Text) (at : Option ℕ) (jobs : Text → Option (Option ℕ)) → set_job id at jobs id ≡ some at
set_job-same id at jobs = rw (eq_refl id) refl

sample_scheduler-laws : IsApScheduler sample_scheduler
sample_scheduler-laws = record {
  start_keeps = λ id s. (refl, refl);
  add_new = λ trigger id at s e. (
    record s { next_run = set_job id at s.next_run },
    rw e refl,
    set_job-same id at s.next_run,
    refl,
  );
  process_paused = λ now id s e. (rw e refl, rw e refl);
  process_due = λ now time id s e before behind. rw e (due now time (s.runs id) before);
  modify_sets = λ now at id s e. (set_job-same id (some now) s.next_run, refl);
}
  where
    due : (now time n : ℕ) → time ≤ now → (if leb time now then suc n else n) ≡ suc n
    due now time n h = ground (arith, h)

abbrev no_jobs : Jobs
no_jobs = record { next_run = λ j. none; runs = λ j. 0 }

schedule_waits_example :
    (s' : Jobs) × ((start sample_scheduler >>= λ _.
    schedule sample_scheduler (cron (codes "*/30 * * * *")) 0)
        no_jobs
      ≡ done tt s')
    × ((nows : List ℕ)
        → (sample_scheduler.fired job_id (process_all sample_scheduler nows s') ≡ 0)
          × ((now later : ℕ)
              → now ≤ later
              → later ≤ now + 1000000
              → sample_scheduler.fired job_id (
                  sample_scheduler.process later (
                    final
                      (trigger_now sample_scheduler now (process_all sample_scheduler nows s'))))
                ≡ 1))
schedule_waits_example =
    schedule_waits sample_scheduler sample_scheduler-laws (cron (codes "*/30 * * * *")) 0 no_jobs
      (1800, refl) refl
