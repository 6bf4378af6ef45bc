-- ===== src/Consolidation/Guard/Passes.antt =====
-- The passes and the whole run keep a guarded id: a protected record is not evicted.
use memory_agent.T1
use memory_agent.LocalFs
use memory_agent.Vault
use memory_agent.Consolidation.{run, scoped, drain_queue, passes}
use memory_agent.Decay.Score.{decay_pass-All}
use memory_agent.Action.{
  validation_error, throw, when, for_each, focus, Outcome, ◌>>=◌, Action, runtime_error, done,
  raised,
}
use memory_agent.Env.{Env}
use memory_agent.Schema.{MemoryRecord}
use memory_agent.Decay.{decay_pass}
use memory_agent.Text.{Text}
use memory_agent.Floats.{Floats}
use memory_agent.LocalFs.{archive, Directory, append_audit}
use memory_agent.World.{at_t0, at_t1, World}
use memory_agent.T1.{live_records}
use memory_agent.Vault.{promote}
use memory_agent.Consolidation.Passes.{
  is_promotable, archive_and_audit, keep_threshold, promotion_pass, promote_record, eviction_pass,
  evict_one,
}
use memory_agent.Consolidation.Extraction.{process_turn}
use memory_agent.Consolidation.Guard.Extraction.{process_turn-Triple}
use memory_agent.World.Guard.{Keeps, ask-Triple, at_t1-Triple, at_t0-Triple}
use memory_agent.T1.Guard.Reads.{live_stream-Triple, IsSafe}
use memory_agent.T1.Guard.Statements.{delete_vector-Triple, update-Triple}
use memory_agent.Action.Triples.{
  Anything, Triple-throw, Triple-if, Triple-when, Triple-return, Ends, Triple-bind, Triple-for_each,
  Triple,
}
use memory_agent.Prelude.{
  ℕ, ◌≢◌, Bool, true, false, Option, none, some, List, if◌then◌else◌, All, All-In, All-intro,
}

module _ {F : Type 0} ⦃fl : Floats F⦄ (env : Env F) (id : Text) where
  -- A record that may be retired.
  abbrev pub IsOther : MemoryRecord F × F → Type 0
  IsOther p = p.0.id ≢ id

  pub decay_pass-IsOther :
      (rs : List (MemoryRecord F)) (now : ℕ) → All (IsSafe id) rs → All IsOther (decay_pass rs now)
  decay_pass-IsOther rs now s =
      decay_pass-All IsOther rs now (λ r i h p. let t = All-In (IsSafe id) rs s i p in cc)

  promote_record-Triple : (r : MemoryRecord F) → Triple (Keeps env id) (promote_record r) Anything
  unfolding promote_record
  promote_record-Triple r = record { from = λ w k. step w.vault w k }
    where
      promoted :
          (w : World F)
          → Keeps env id w
          → (o : Outcome Directory Unit)
          → Ends
              (Keeps env id)
              Anything
              (focus (λ u. w.t0) (λ d u. record u { vault = some d }) (λ d. o) w)
      promoted w k (done a d) = (k, tt)
      promoted w k (raised e d) = k

      step :
          (v : Option Directory) (w : World F)
          → Keeps env id w
          → Ends (Keeps env id) Anything (elim v as (λ _. Outcome (World F) Unit) [
            | none ↦ done tt w
            | some d ↦ focus (λ _. d) (λ d' u. record u { vault = some d' }) (Vault.promote r) w
          ])
      step none w k = (k, tt)
      step (some d) w k = promoted w k (Vault.promote r d)

  promotion_pass-Triple : (uid : Text) → Triple (Keeps env id) (promotion_pass uid) Anything
  unfolding promotion_pass
  promotion_pass-Triple uid = record { from = λ w k. step w.vault w k }
    where
      loop : Action (World F) Unit
      loop = at_t1 (T1.live_stream uid) >>= λ live.
          for_each live.0 (λ r. when (is_promotable r) (promote_record r)) >>= λ _.
          when live.1 (throw validation_error)

      loop-Triple : Triple (Keeps env id) loop Anything
      loop-Triple = Triple-bind (at_t1-Triple env id _ (live_stream-Triple id uid)) (λ live s.
          Triple-bind
            (Triple-for_each (IsSafe id) live.0 s
              (λ r _. Triple-when _ (λ _. promote_record-Triple r)))
            (λ a _. Triple-when live.1 (λ _. Triple-throw validation_error)))

      step :
          (v : Option Directory) (w : World F)
          → Keeps env id w
          → Ends
              (Keeps env id)
              Anything
              (elim v as (λ _. Outcome (World F) Unit) [ none ↦ done tt w | some d ↦ loop w ])
      step none w k = (k, tt)
      step (some d) w k = loop-Triple.from w k

  archive_and_audit-Triple :
      (now : ℕ) (r : MemoryRecord F) (score : F)
      → Triple (Keeps env id) (archive_and_audit env now r score) Anything
  unfolding archive_and_audit
  archive_and_audit-Triple now r score = record { from = λ w k. step w.archives w k }
    where
      both :
          Triple
            (Keeps env id)
            (at_t0 (LocalFs.archive env r) >>= λ _. at_t0 (
              LocalFs.append_audit env (record {
                record_id = r.id;
                user_id = r.user_id;
                keep_score = some score;
                evicted_at = now;
                reason = env.reason score;
              })))
            Anything
      both =
          Triple-bind (at_t0-Triple env id (LocalFs.archive env r))
            (λ a _. at_t0-Triple env id (LocalFs.append_audit env _))

      step :
          (b : Bool) (w : World F)
          → Keeps env id w
          → Ends (Keeps env id) Anything (
              if b
              then (at_t0 (LocalFs.archive env r) >>= λ _. at_t0 (
                    LocalFs.append_audit env (record {
                      record_id = r.id;
                      user_id = r.user_id;
                      keep_score = some score;
                      evicted_at = now;
                      reason = env.reason score;
                    })))
                  w
              else raised runtime_error w)
      step true w k = both.from w k
      step false w k = k

  evict_one-Triple :
      (now : ℕ) (p : MemoryRecord F × F)
      → IsOther p
      → Triple (Keeps env id) (evict_one env now p) Anything
  unfolding evict_one
  evict_one-Triple now (r, score) n =
      Triple-if (fl.le keep_threshold score) (λ _. Triple-return _ tt)
        (λ _.
          Triple-bind (at_t1-Triple env id _ (update-Triple id r.id _ (λ p. absurd (n p)))) (λ a _.
            Triple-bind (at_t1-Triple env id _ (delete_vector-Triple id r.id))
              (λ b _. archive_and_audit-Triple now r score)))

  eviction_pass-Triple :
      (now : ℕ) (uid : Text) → Triple (Keeps env id) (eviction_pass env now uid) Anything
  unfolding eviction_pass
  eviction_pass-Triple now uid =
      Triple-bind (at_t1-Triple env id _ (live_stream-Triple id uid)) (λ live s.
        Triple-bind
          (Triple-for_each IsOther _ (decay_pass-IsOther live.0 now s)
            (λ p n. evict_one-Triple now p n))
          (λ a _. Triple-when live.1 (λ _. Triple-throw validation_error)))

  passes-Triple : (now : ℕ) (uid : Text) → Triple (Keeps env id) (passes env now uid) Anything
  unfolding passes
  passes-Triple now uid =
      Triple-bind (promotion_pass-Triple uid) (λ a _. eviction_pass-Triple now uid)

  drain_queue-Triple : Triple (Keeps env id) drain_queue Anything
  unfolding drain_queue
  drain_queue-Triple = record { from = λ w k. (k, tt) }

  pub run-Triple : (user_id : Option Text) → Triple (Keeps env id) (run env user_id) Anything
  unfolding run
  run-Triple user_id = Triple-bind drain_queue-Triple (λ drained _.
      Triple-bind (each (scoped user_id drained) (process_turn env) (process_turn-Triple env id))
        (λ a _.
          Triple-bind (ask-Triple env id env.clock)
            (λ now _. each _ (passes env now) (passes-Triple now))))
    where
      each :
          {A : Type 0} (xs : List A) (m : A → Action (World F) Unit)
          → ((a : A) → Triple (Keeps env id) (m a) Anything)
          → Triple (Keeps env id) (for_each xs m) Anything
      each xs m h = Triple-for_each Anything xs (All-intro Anything xs (λ a i. tt)) (λ a _. h a)
