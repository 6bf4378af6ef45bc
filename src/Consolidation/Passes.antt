-- ===== src/Consolidation/Passes.antt =====
-- Steps 7 to 9 of `run` of src/mnema/core/consolidation.py: promotion, then eviction. The records
-- of a pass are those that are live when it begins.
use memory_agent.T1
use memory_agent.LocalFs
use memory_agent.Vault
use memory_agent.Env.{Env}
use memory_agent.World.{World, at_t1, at_t0}
use memory_agent.Decay.{decay_pass}
use memory_agent.Prelude.{ℕ, Bool, not, ◌&&◌, none, some, [], ◌∷◌, if◌then◌else◌}
use memory_agent.Action.{
  runtime_error, validation_error, throw, done, raised, Action, return, when, for_each, focus,
  ◌>>=◌, ◌>>◌,
}
use memory_agent.Text.{Text}
use memory_agent.T1.{Field, is_none, delete_vector, live_records, update}
use memory_agent.Floats.{Floats}
use memory_agent.Schema.{MemoryRecord}
use memory_agent.LocalFs.{archive, append_audit}
use memory_agent.Vault.{promote}

module _ {F : Type 0} ⦃fl : Floats F⦄ where
  abbrev pub vault_salience_threshold : F
  vault_salience_threshold = fl.decimal 7 1

  abbrev pub keep_threshold : F
  keep_threshold = fl.decimal 3 1

  -- Confirmed, salient and live.
  abbrev pub is_promotable : MemoryRecord F → Bool
  is_promotable r =
      not r.provisional && fl.le vault_salience_threshold r.salience && is_none r.valid_until

  -- `self._vault.promote(rec)`, if there is a vault.
  unfoldable pub promote_record : MemoryRecord F → Action (World F) (Unit {0})
  promote_record r w = elim w.vault [
    | none ↦ done tt w
    | some d ↦ focus (λ _. d) (λ d' u. record u { vault = some d' }) (Vault.promote r) w
  ]

  -- Without a vault the live records are not even read.
  unfoldable pub promotion_pass : Text → Action (World F) (Unit {0})
  promotion_pass uid w = elim w.vault [
    | none ↦ done tt w
    | some _ ↦
        (do
          live ← at_t1 (T1.live_stream uid)
          for_each live.0 (λ r. when (is_promotable r) (promote_record r))
          when live.1 (throw validation_error))
          w
  ]

module _ {F : Type 0} ⦃fl : Floats F⦄ (env : Env F) where
  -- Steps 3 and 4 of an eviction, which want a T0.
  unfoldable pub archive_and_audit : ℕ → MemoryRecord F → F → Action (World F) (Unit {0})
  archive_and_audit now r score w =
      if w.archives
      then (do
        at_t0 (LocalFs.archive env r)
        at_t0 (
            LocalFs.append_audit env (record {
              record_id = r.id;
              user_id = r.user_id;
              keep_score = some score;
              evicted_at = now;
              reason = env.reason score;
            })))
          w
      else raised runtime_error w

  unfoldable pub evict_one : ℕ → MemoryRecord F × F → Action (World F) (Unit {0})
  evict_one now (r, score) = if fl.le keep_threshold score then return tt else do
    at_t1 (T1.update r.id (Field.valid_until (some now) ∷ []))
    at_t1 (T1.delete_vector r.id)
    archive_and_audit now r score

  unfoldable pub eviction_pass : ℕ → Text → Action (World F) (Unit {0})
  unfolding decay_pass
  eviction_pass now uid = do
    live ← at_t1 (T1.live_stream uid)
    for_each (decay_pass live.0 now) (evict_one now)
    when live.1 (throw validation_error)
