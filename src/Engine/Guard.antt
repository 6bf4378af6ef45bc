-- ===== src/Engine/Guard.antt =====
-- The verbs keep a guarded id, and so does every history of calls: the safety rule of the engine.
use memory_agent.LocalFs
use memory_agent.WritePath.Guard.{execute-Triple as write_path-Triple}
use memory_agent.Recall.Guard.{execute-Triple as recall-Triple}
use memory_agent.Consolidation.Guard.Passes.{IsOther, decay_pass-IsOther, run-Triple}
use memory_agent.Env.{Audit, Env}
use memory_agent.Schema.{MemoryRecord}
use memory_agent.Text.{Text, text_eq}
use memory_agent.Floats.{Floats}
use memory_agent.WritePath.{Utterance}
use memory_agent.World.{World}
use memory_agent.Engine.{
  evict, evict_all, Call, expand, after_all, after, forget, retire_record, remember, consolidate,
  recall, remembers, recalls, expands, forgets, evicts, consolidates, if_found, forget_found,
  turn_of, expand_found,
}
use memory_agent.Consolidation.Passes.{keep_threshold}
use memory_agent.World.Guard.{ask-Triple, at_t0-Triple, at_t1-Triple, write-Triple, Keeps}
use memory_agent.T1.Guard.Reads.{get-Triple, live_stream-Triple, get_at-Triple, IsSafeAt}
use memory_agent.T1.Guard.Statements.{update-Triple, delete_vector-Triple}
use memory_agent.Action.{validation_error}
use memory_agent.Action.Triples.{
  keeps, Triple-bind, Triple-if, Triple-when, Triple-finally, Anything, Triple-return, Triple,
  Triple-throw,
}
use memory_agent.Prelude.{
  ℕ, ◌+◌, refl, ◌≢◌, not, Option, none, some, List, [], ◌∷◌, ◌==◌, All, ◌≡◌, true,
}
use memory_agent.LocalFs.{archive, append_audit}

module _ {F : Type 0} ⦃fl : Floats F⦄ (env : Env F) (id : Text) where
  retire_record-Triple :
      (record_id : Text) (now : ℕ) (r : MemoryRecord F) (entry : Audit F)
      → record_id ≢ id
      → Triple (Keeps env id) (retire_record env record_id now r entry) Anything
  unfolding retire_record
  retire_record-Triple record_id now r entry n =
      Triple-bind (at_t1-Triple env id _ (update-Triple id record_id _ (λ p. absurd (n p)))) (λ a _.
        Triple-bind (at_t1-Triple env id _ (delete_vector-Triple id record_id)) (λ b _.
          Triple-bind (at_t0-Triple env id (LocalFs.archive env r))
            (λ c _. at_t0-Triple env id (LocalFs.append_audit env entry))))

  expand-Triple :
      (record_id user_id : Text) → Triple (Keeps env id) (expand env record_id user_id) Anything
  unfolding expand
  expand-Triple record_id user_id =
      Triple-bind (at_t1-Triple env id _ (get-Triple id record_id)) (λ found _. chosen found)
    where
      read_turn : (o : Option Text) → Triple (Keeps env id) (turn_of env o) Anything
      read_turn none = Triple-return none tt
      read_turn (some ref) =
          Triple-bind (at_t0-Triple env id (LocalFs.get env ref)) (λ t _. Triple-return _ tt)

      chosen :
          (found : Option (MemoryRecord F))
          → Triple (Keeps env id) (expand_found env user_id found) Anything
      chosen none = Triple-return none tt
      chosen (some r) =
          Triple-if (r.user_id == user_id) (λ _. read_turn r.t0_ref) (λ _. Triple-return none tt)

  forget_found-Triple :
      (record_id user_id reason : Text) (now : ℕ) (r : MemoryRecord F)
      → (record_id ≡ id → r.protected ≡ true)
      → Triple (Keeps env id) (forget_found env record_id user_id reason now r) Anything
  unfolding forget_found
  forget_found-Triple record_id user_id reason now r s =
      Triple-if (not (r.user_id == user_id)) (λ _. Triple-throw _)
        (λ _.
          Triple-if r.protected (λ _. Triple-throw _)
            (λ e. retire_record-Triple record_id now r _ (λ p. let t = s p in cc)))

  forget-Triple :
      (record_id user_id reason : Text)
      → Triple (Keeps env id) (forget env record_id user_id reason) Anything
  unfolding forget
  forget-Triple record_id user_id reason = Triple-bind (ask-Triple env id env.clock) (λ now _.
      Triple-bind (at_t1-Triple env id _ (get_at-Triple id record_id))
        (λ found s. chosen now found s))
    where
      chosen :
          (now : ℕ) (found : Option (MemoryRecord F))
          → IsSafeAt id record_id found
          → Triple
              (Keeps env id)
              (if_found env (forget_found env record_id user_id reason now) found)
              Anything
      chosen now none s = Triple-return tt tt
      chosen now (some r) s = forget_found-Triple record_id user_id reason now r s

module _ {F : Type 0} ⦃fl : Floats F⦄ (env : Env F) (id : Text) where
  remember-Triple : (u : Utterance) → Triple (Keeps env id) (remember env u) Anything
  unfolding remember
  remember-Triple u = Triple-bind (write_path-Triple env id u) (λ stored _. Triple-return _ tt)

  evict_all-Triple :
      (now : ℕ) (ps : List (MemoryRecord F × F)) (evicted : ℕ)
      → All (IsOther env id) ps
      → Triple (Keeps env id) (evict_all env now ps evicted) Anything
  unfolding evict_all
  evict_all-Triple now [] evicted h = Triple-return _ tt
  evict_all-Triple now ((r, score) ∷ ps) evicted h =
      let skip = evict_all-Triple now ps evicted h.1 in
      let go = evict_all-Triple now ps (evicted + 1) h.1 in
      Triple-if (fl.le keep_threshold score) (λ _. skip)
        (λ _. Triple-bind (retire_record-Triple env id r.id now r _ h.0) (λ a _. go))

  evict-Triple : (user_id : Text) → Triple (Keeps env id) (evict env user_id) Anything
  unfolding evict
  evict-Triple user_id = Triple-bind (ask-Triple env id env.clock) (λ now _.
      Triple-bind (at_t1-Triple env id _ (live_stream-Triple id user_id)) (λ live s.
        Triple-bind (evict_all-Triple now _ 0 (decay_pass-IsOther env id live.0 now s)) (λ n _.
          Triple-bind (Triple-when live.1 (λ _. Triple-throw {Q = Anything} validation_error))
            (λ a _. Triple-return n tt))))

  consolidate-Triple :
      (user_id : Option Text) → Triple (Keeps env id) (consolidate env user_id) Anything
  unfolding consolidate
  consolidate-Triple user_id =
      Triple-finally (run-Triple env id user_id) (write-Triple env id _ (λ w. refl) (λ w. refl))

  after-Keeps : (c : Call) (w : World F) → Keeps env id w → Keeps env id (after env c w)
  unfolding after recall
  after-Keeps (remembers u) w k = keeps (remember-Triple u) w k
  after-Keeps (recalls query user_id agent_id n budget) w k =
      keeps (recall-Triple env id query user_id agent_id n budget) w k
  after-Keeps (expands record_id user_id) w k = keeps (expand-Triple env id record_id user_id) w k
  after-Keeps (forgets record_id user_id reason) w k =
      keeps (forget-Triple env id record_id user_id reason) w k
  after-Keeps (evicts user_id) w k = keeps (evict-Triple user_id) w k
  after-Keeps (consolidates user_id) w k = keeps (consolidate-Triple user_id) w k

  -- A protected live record is protected and live after any history of calls by any users, whatever
  -- the providers answer and wherever a call raises, if no uuid to come collides with its id.
  pub after_all-Keeps :
      (cs : List Call) (w : World F) → Keeps env id w → Keeps env id (after_all env cs w)
  unfolding after_all
  after_all-Keeps [] w k = k
  after_all-Keeps (c ∷ cs) w k = after_all-Keeps cs (after env c w) (after-Keeps c w k)
