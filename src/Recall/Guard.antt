-- ===== src/Recall/Guard.antt =====
-- Recall keeps a guarded id: what it writes is access counts and access times.
use memory_agent.T1
use memory_agent.Recall.{execute, fetch, synthesize, reinforce}
use memory_agent.Env.{Env}
use memory_agent.Schema.{Turn, MemoryRecord}
use memory_agent.Text.{Text}
use memory_agent.Floats.{Floats}
use memory_agent.World.Guard.{ask-Triple, ask_provider-Triple, Keeps, at_t1-Triple}
use memory_agent.T1.Guard.Reads.{get-Triple}
use memory_agent.T1.Guard.Statements.{update-Triple, vector_search-Triple}
use memory_agent.Action.Triples.{Anything, Triple, Triple-return, Triple-bind, Triple-read}
use memory_agent.Prelude.{ℕ, Option, some, List, [], ◌∷◌, ◌+◌}
use memory_agent.T1.{Field}

module _ {F : Type 0} ⦃fl : Floats F⦄ (env : Env F) (id : Text) where
  fetch-Triple : (hits : List (Text × F)) → Triple (Keeps env id) (fetch env hits) Anything
  unfolding fetch
  fetch-Triple [] = Triple-return _ tt
  fetch-Triple ((j, d) ∷ hits) =
      let rest = fetch-Triple hits in
      Triple-bind (at_t1-Triple env id (T1.get j) (get-Triple id j))
        (λ found _. Triple-bind rest (λ rs _. Triple-return _ tt))

  synthesize-Triple :
      (user_id : Text) (ts : List (Turn F))
      → Triple (Keeps env id) (synthesize env user_id ts) Anything
  unfolding synthesize
  synthesize-Triple user_id [] = Triple-return _ tt
  synthesize-Triple user_id (t ∷ ts) =
      let rest = synthesize-Triple user_id ts in
      Triple-bind (ask-Triple env id env.clock)
        (λ now _. Triple-bind rest (λ rs _. Triple-return _ tt))

  reinforce-Triple :
      (now : ℕ) (rs : List (MemoryRecord F)) → Triple (Keeps env id) (reinforce env now rs) Anything
  unfolding reinforce
  reinforce-Triple now [] = Triple-return _ tt
  reinforce-Triple now (r ∷ rs) =
      let rest = reinforce-Triple now rs in
      Triple-bind
        (at_t1-Triple env id _ (
          update-Triple id r.id
            (Field.access_count (r.access_count + 1) ∷ Field.last_accessed (some now) ∷ [])
            (λ _. (tt, (tt, tt)))))
        (λ a _. Triple-bind rest (λ xs _. Triple-return _ tt))

  pub execute-Triple :
      (query user_id : Text) (agent_id : Option Text) (k : ℕ) (budget : Option ℕ)
      → Triple (Keeps env id) (execute env query user_id agent_id k budget) Anything
  unfolding execute
  execute-Triple query user_id agent_id k budget =
      Triple-bind (ask_provider-Triple env id (λ n. env.embed n query)) (λ q _.
        Triple-bind (at_t1-Triple env id _ (vector_search-Triple id env.knn q k user_id agent_id))
          (λ hits _. Triple-bind (fetch-Triple hits) (λ stored _.
            Triple-bind (Triple-read _) (λ turns _.
              Triple-bind (synthesize-Triple user_id _) (λ buffered _.
                Triple-bind (ask-Triple env id env.clock) (λ now _.
                  Triple-bind (reinforce-Triple now stored)
                    (λ reinforced _. Triple-return _ tt)))))))
