-- ===== src/Engine.antt =====
-- src/mnema/core/engine.py: the verbs of the memory engine, and the handle that binds a user.
pub mod Guard
pub mod Safety
pub mod Ownership
pub mod Provenance
pub mod Eviction
use memory_agent.T1
use memory_agent.LocalFs
use memory_agent.WritePath
use memory_agent.Recall
use memory_agent.Consolidation
use memory_agent.LocalFs.{Directory, archive, append_audit}
use memory_agent.Env.{Env, Audit}
use memory_agent.World.{World, at_t1, at_t0, utcnow}
use memory_agent.Decay.{decay_pass, keep_score}
use memory_agent.WritePath.{Utterance}
use memory_agent.Consolidation.Passes.{keep_threshold}
use memory_agent.Prelude.{
  ℕ, suc, ◌+◌, Bool, true, not, Option, none, some, List, [], ◌∷◌, eqb, if◌then◌else◌, ◌==◌,
}
use memory_agent.Action.{
  value_error, validation_error, when, Action, final, return, throw, write, finally, ◌>>=◌, ◌>>◌,
}
use memory_agent.Text.{Text, codes, or_else, text_eq}
use memory_agent.T1.{Store, Field, delete_vector, live_stream, update}
use memory_agent.Floats.{Floats}
use memory_agent.Schema.{MemoryRecord, Turn}
use memory_agent.Consolidation.{run}

module _ {F : Type 0} (env : Env F) where
  -- `MemoryEngine.__init__`, PROV-06: an embedder of another dimension is refused.
  unfoldable pub construct : Store F → Directory → Option Directory → Option (World F)
  construct t1 t0 vault =
      if eqb env.embedder_dim t1.dim
      then some (record {
        t1 = t1;
        t0 = t0;
        vault = vault;
        archives = true;
        buffer = record { k = 20; turns = [] };
        staging = [];
        calls = 0;
        triggers = 0;
      })
      else none

  abbrev pub turn_of : Option Text → Action (World F) (Option (Turn F))
  turn_of none = return none
  turn_of (some ref) = do turn ← at_t0 (LocalFs.get env ref); return (some turn)

  abbrev pub expand_found : Text → Option (MemoryRecord F) → Action (World F) (Option (Turn F))
  expand_found user_id none = return none
  expand_found user_id (some r) = if r.user_id == user_id then turn_of r.t0_ref else return none

  -- The turn behind a record of the same user.
  unfoldable pub expand : (record_id user_id : Text) → Action (World F) (Option (Turn F))
  expand record_id user_id = do found ← at_t1 (T1.get record_id); expand_found user_id found

module _ {F : Type 0} ⦃fl : Floats F⦄ (env : Env F) where
  -- The four steps of an eviction.
  unfoldable pub retire_record : Text → ℕ → MemoryRecord F → Audit F → Action (World F) (Unit {0})
  retire_record record_id now r entry = do
    at_t1 (T1.update record_id (Field.valid_until (some now) ∷ []))
    at_t1 (T1.delete_vector record_id)
    at_t0 (LocalFs.archive env r)
    at_t0 (LocalFs.append_audit env entry)

  -- What `forget` does with the record that it found.
  unfoldable pub forget_found :
      (record_id user_id reason : Text) → ℕ → MemoryRecord F → Action (World F) (Unit {0})
  forget_found record_id user_id reason now r =
      if not (r.user_id == user_id)
      then throw value_error
      else if r.protected
      then throw value_error
      else retire_record record_id now r (record {
        record_id = record_id;
        user_id = user_id;
        keep_score = none;
        evicted_at = now;
        reason = or_else reason (codes "explicit_forget");
      })

  abbrev pub if_found :
      {A : Type 0} → (A → Action (World F) (Unit {0})) → Option A → Action (World F) (Unit {0})
  if_found f none = return tt
  if_found f (some a) = f a

  unfoldable pub forget : (record_id user_id reason : Text) → Action (World F) (Unit {0})
  forget record_id user_id reason = do
    now ← utcnow env
    found ← at_t1 (T1.get record_id)
    if_found (forget_found record_id user_id reason now) found

module _ {F : Type 0} ⦃fl : Floats F⦄ (env : Env F) where
  unfoldable pub remember : Utterance → Action (World F) Text
  remember u = do stored ← WritePath.execute env u; return stored.0

  unfoldable pub recall :
      (query user_id : Text)
      → Option Text
      → (k : ℕ) → (budget : Option ℕ) → Action (World F) (List (MemoryRecord F))
  recall = Recall.execute env

  -- The loop of `evict`, with the count of evicted records.
  unfoldable pub evict_all : ℕ → List (MemoryRecord F × F) → ℕ → Action (World F) ℕ
  evict_all now [] evicted = return evicted
  evict_all now ((r, score) ∷ rest) evicted =
      let skip = evict_all now rest evicted in
      let go = evict_all now rest (evicted + 1) in
      if fl.le keep_threshold score then skip else do
        retire_record env r.id now r (record {
          record_id = r.id;
          user_id = r.user_id;
          keep_score = some score;
          evicted_at = now;
          reason = env.reason score;
        })
        go

  unfoldable pub evict : Text → Action (World F) ℕ
  unfolding decay_pass T1.live_stream
  evict user_id = do
    now ← utcnow env
    live ← at_t1 (T1.live_stream user_id)
    evicted ← evict_all now (decay_pass live.0 now) 0
    when live.1 (throw validation_error)
    return evicted

  abbrev pub trigger_now : Action (World F) (Unit {0})
  trigger_now = write (λ w. record w { triggers = suc w.triggers })

  unfoldable pub consolidate : Option Text → Action (World F) (Unit {0})
  consolidate user_id = finally (Consolidation.run env user_id) trigger_now

-- One call of a verb, by any user.
pub data Call : Type 0 where
  remembers : Utterance → Call
  recalls : (query user_id : Text) → Option Text → (k : ℕ) → (budget : Option ℕ) → Call
  expands : (record_id user_id : Text) → Call
  forgets : (record_id user_id reason : Text) → Call
  evicts : Text → Call
  consolidates : Option Text → Call

module _ {F : Type 0} ⦃fl : Floats F⦄ (env : Env F) where
  -- The state after a call, which returns or raises.
  unfoldable pub after : Call → World F → World F
  after (remembers u) w = final (remember env u w)
  after (recalls query user_id agent_id k budget) w =
      final (recall env query user_id agent_id k budget w)
  after (expands record_id user_id) w = final (expand env record_id user_id w)
  after (forgets record_id user_id reason) w = final (forget env record_id user_id reason w)
  after (evicts user_id) w = final (evict env user_id w)
  after (consolidates user_id) w = final (consolidate env user_id w)

  -- The state after any history of calls.
  unfoldable pub after_all : List Call → World F → World F
  unfolding after
  after_all [] w = w
  after_all (c ∷ cs) w = after_all cs (after c w)

-- `ScopedHandle`: the verbs with a bound user and agent.
pub record ScopedHandle : Type 0 where
  pub user_id : Text
  pub agent_id : Option Text

module _ {F : Type 0} ⦃fl : Floats F⦄ (env : Env F) (h : ScopedHandle) where
  unfoldable pub scoped_remember :
      (content session_id : Text) → Option Text → Bool → Action (World F) Text
  scoped_remember content session_id type_hint durable = remember env (record {
    content = content;
    user_id = h.user_id;
    session_id = session_id;
    agent_id = h.agent_id;
    type_hint = type_hint;
    durable = durable;
  })

  unfoldable pub scoped_recall :
      Text → (k : ℕ) → (budget : Option ℕ) → Action (World F) (List (MemoryRecord F))
  scoped_recall query k budget = recall env query h.user_id h.agent_id k budget

  unfoldable pub scoped_expand : Text → Action (World F) (Option (Turn F))
  scoped_expand record_id = expand env record_id h.user_id

  unfoldable pub scoped_forget : (record_id reason : Text) → Action (World F) (Unit {0})
  scoped_forget record_id reason = forget env record_id h.user_id reason

  unfoldable pub scoped_evict : Action (World F) ℕ
  scoped_evict = evict env h.user_id
