-- ===== src/Scheduler/Fires.antt =====
-- When the job of a scheduler runs.
use memory_agent.Action.{or_throw, then_do, final, value_error, done, ◌>>=◌}
use memory_agent.Scheduler.{
  trigger_now, schedule, ApScheduler, job_id, Kind, IsApScheduler, in_process, cron, start,
  schedule_interval, schedule_cron,
}
use memory_agent.Prelude.{ℕ, suc, ◌+◌, ◌≤◌, ◌≡◌, ap, ◌∙◌, none, some, List, [], ◌∷◌}

module _ {S Trigger : Type 0} (a : ApScheduler S Trigger) where
  -- The looks at the jobs at the given instants.
  abbrev pub process_all : List ℕ → S → S
  process_all [] s = s
  process_all (now ∷ nows) s = process_all nows (a.process now s)

  abbrev pub IsPaused : ℕ → S → Type 0
  IsPaused n s = (a.get_job job_id s ≡ some none) × (a.fired job_id s ≡ n)

  -- The expression of a kind can be parsed.
  abbrev pub HasTrigger : Kind → Type 0
  HasTrigger in_process = Unit
  HasTrigger (cron expression) = (t : Trigger) × (a.from_crontab expression ≡ some t)

module _ {S Trigger : Type 0} (a : ApScheduler S Trigger) (laws : IsApScheduler a) where
  process_all-IsPaused :
      (nows : List ℕ) (n : ℕ) (s : S) → IsPaused a n s → IsPaused a n (process_all a nows s)
  process_all-IsPaused [] n s h = h
  process_all-IsPaused (now ∷ nows) n s h =
      let next = laws.process_paused now job_id s h.0 in
      process_all-IsPaused nows n (a.process now s) (next.0, next.1 ∙ h.1)

  schedule-IsPaused :
      (kind : Kind) (every_seconds : ℕ) (s : S)
      → HasTrigger a kind
      → a.get_job job_id s ≡ none
      → (s' : S) × (schedule a kind every_seconds s ≡ done tt s') × IsPaused a (a.fired job_id s) s'
  unfolding schedule_interval schedule_cron or_throw
  schedule-IsPaused in_process every_seconds s h e =
      let (s', run, paused, same) = laws.add_new (a.interval every_seconds) job_id none s e in
      (s', run, (paused, same))
  schedule-IsPaused (cron expression) every_seconds s (t, p) e =
      let (s', run, paused, same) = laws.add_new t job_id none s e in
      (
        s',
        ap (λ o. then_do (λ trigger. a.add_job trigger job_id none) (or_throw value_error o s)) p
            ∙ run,
        (paused, same),
      )

  -- A job that is scheduled after a start, by either kind and on a scheduler without one, for an
  -- APScheduler that behaves as documented: it is paused and does not run, however often and
  -- however late the scheduler looks at its jobs; after a `trigger_now` it runs at the next look
  -- within the grace time.
  pub schedule_waits :
      (kind : Kind) (every_seconds : ℕ) (s : S)
      → HasTrigger a kind
      → a.get_job job_id s ≡ none
      → (s' : S) × ((start a >>= λ _. schedule a kind every_seconds) s ≡ done tt s')
        × ((nows : List ℕ)
            → (a.fired job_id (process_all a nows s') ≡ a.fired job_id s)
              × ((now later : ℕ)
                  → now ≤ later
                  → later ≤ now + a.misfire_grace_time
                  → a.fired job_id
                      (a.process later (final (trigger_now a now (process_all a nows s'))))
                    ≡ suc (a.fired job_id s)))
  unfolding start trigger_now
  schedule_waits kind every_seconds s h e =
      let (same_job, same_count) = laws.start_keeps job_id s in
      let (s', run, paused) = schedule-IsPaused kind every_seconds (a.start s) h (same_job ∙ e) in
      (
        s',
        run,
        λ nows.
            let still =
              process_all-IsPaused nows (a.fired job_id s) s' (paused.0, paused.1 ∙ same_count) in
            (still.1, fires (a.fired job_id s) (process_all a nows s') still),
      )
    where
      fires :
          (n : ℕ) (u : S)
          → IsPaused a n u
          → (now later : ℕ) → now ≤ later
          → later ≤ now + a.misfire_grace_time
          → a.fired job_id (a.process later (final (trigger_now a now u))) ≡ suc n
      fires n u p now later before behind =
          let there = laws.modify_sets now none job_id u p.0 in
          ap
            (λ o.
              a.fired job_id (
                a.process later (elim o as (λ _. S) [ none ↦ u | some _ ↦ a.modify job_id now u ])))
            p.0
          ∙ laws.process_due later now job_id (a.modify job_id now u) there.0 before behind
          ∙ ap suc (there.1 ∙ p.1)
