-- ===== src/Migrate.antt =====
-- src/mnema/migrate.py: re-embedding the live records for another embedder. The new embedder is
-- the one of the environment.
pub mod Coverage
use memory_agent.T1
use memory_agent.Env.{Env}
use memory_agent.World.{World, at_t1, embed}
use memory_agent.Prelude.{ℕ, Bool, ◌+◌, Option, none, some, List, [], ◌∷◌}
use memory_agent.Action.{Action, return, throw, when, validation_error, ◌>>=◌, ◌>>◌}
use memory_agent.Text.{Text, or_else}
use memory_agent.T1.{Store, upsert_vector, all_live_stream, live_stream, recreate_vector_store}
use memory_agent.Schema.{MemoryRecord}

module _ {F : Type 0} (env : Env F) where
  -- `record.summary if record.summary else record.content`
  abbrev pub embedded_text : MemoryRecord F → Text
  embedded_text r = or_else r.summary r.content

  unfoldable pub reindex_each : List (MemoryRecord F) → ℕ → Action (World F) ℕ
  reindex_each [] count = return count
  reindex_each (r ∷ rs) count = do
    v ← embed env (embedded_text r)
    at_t1 (T1.upsert_vector r.id v)
    reindex_each rs (count + 1)

  abbrev pub records_of : Option Text → Action (Store F) (List (MemoryRecord F) × Bool)
  records_of none = T1.all_live_stream
  records_of (some user_id) = T1.live_stream user_id

  unfoldable pub reindex_all : Option Text → Action (World F) ℕ
  reindex_all user_id = do
    records ← at_t1 (records_of user_id)
    count ← reindex_each records.0 0
    when records.1 (throw validation_error)
    return count

  unfoldable pub migrate_embedder : Option Text → Action (World F) ℕ
  migrate_embedder user_id = do
    at_t1 (T1.recreate_vector_store env.embedder_dim)
    reindex_all user_id
