-- ===== src/Recall.antt =====
-- src/mnema/core/recall.py: dense search, union with the buffer, reinforcement, ranking, packing.
pub mod Guard
pub mod Isolation
pub mod Protection
pub mod Recent
pub mod Fetched
pub mod Represents
use memory_agent.Buffer
use memory_agent.T1
use memory_agent.Env.{Env}
use memory_agent.World.{World, at_t1, embed, utcnow}
use memory_agent.Packer.{re_rank, pack_records}
use memory_agent.Prelude.{
  ℕ, ◌+◌, Option, none, some, List, [], ◌∷◌, ◌++◌, map, if◌then◌else◌, ◌==◌, take, any,
}
use memory_agent.Action.{Action, return, read, ◌>>=◌, ◌>>◌}
use memory_agent.Text.{Text, strip, text_eq}
use memory_agent.T1.{Field, vector_search, update}
use memory_agent.Floats.{Floats}
use memory_agent.Schema.{MemoryRecord, Turn, new_record, preference}
use memory_agent.Buffer.{Buffer, as_candidates_for_user}

module _ {F : Type 0} ⦃fl : Floats F⦄ where
  -- `_turn_to_record`. The clock's reading for `valid_from` is an argument.
  unfoldable pub turn_to_record : Text → ℕ → Turn F → MemoryRecord F
  unfolding new_record strip
  turn_to_record user_id now turn =
      let r =
        new_record turn.id user_id turn.session_id preference turn.content now turn.created_at in
      record r { summary = strip (take 80 turn.content) }

  -- Step 4: the turns that no recalled record and no earlier turn represents.
  unfoldable pub buffer_only : List Text → List Text → List (Turn F) → List (Turn F)
  buffer_only ids seen [] = []
  buffer_only ids seen (t ∷ ts) =
      let keep = t ∷ buffer_only ids (t.content ∷ seen) ts in
      let skip = buffer_only ids seen ts in
      if any (λ id. id == t.id) ids
      then skip
      else if any (λ c. c == t.content) seen
      then skip
      else keep

module _ {F : Type 0} ⦃fl : Floats F⦄ (env : Env F) where
  -- Step 3: the records of the hits, without those that are gone.
  unfoldable pub fetch : List (Text × F) → Action (World F) (List (MemoryRecord F))
  fetch [] = return []
  fetch ((id, d) ∷ hits) = do
    found ← at_t1 (T1.get id)
    rest ← fetch hits
    return (elim found [ none ↦ rest | some r ↦ r ∷ rest ])

  -- Step 4: a record for each turn; each reads the clock for its `valid_from`.
  unfoldable pub synthesize : Text → List (Turn F) → Action (World F) (List (MemoryRecord F))
  unfolding turn_to_record
  synthesize user_id [] = return []
  synthesize user_id (t ∷ ts) = do
    now ← utcnow env
    rest ← synthesize user_id ts
    return (turn_to_record user_id now t ∷ rest)

  abbrev pub accessed : ℕ → MemoryRecord F → MemoryRecord F
  accessed now r = record r { access_count = r.access_count + 1; last_accessed = some now }

  -- Step 5: the stored record and the one in memory.
  unfoldable pub reinforce : ℕ → List (MemoryRecord F) → Action (World F) (List (MemoryRecord F))
  reinforce now [] = return []
  reinforce now (r ∷ rs) = do
    at_t1 (
        T1.update r.id
          (Field.access_count (r.access_count + 1) ∷ Field.last_accessed (some now) ∷ []))
    rest ← reinforce now rs
    return (accessed now r ∷ rest)

  -- Step 8.
  abbrev pub fit : Option ℕ → List (MemoryRecord F) → List (MemoryRecord F)
  fit none ranked = ranked
  fit (some budget) ranked = pack_records env.count_tokens budget ranked

  unfoldable pub execute :
      (query user_id : Text)
      → Option Text
      → (k : ℕ) → (budget : Option ℕ) → Action (World F) (List (MemoryRecord F))
  unfolding Buffer.as_candidates_for_user buffer_only re_rank pack_records
  execute query user_id agent_id k budget = do
    q ← embed env query
    hits ← at_t1 (T1.vector_search env.knn q k user_id agent_id)
    stored ← fetch hits
    turns ← read (λ w. Buffer.as_candidates_for_user user_id w.buffer)
    let ids = map (λ r. r.id) stored ++ map (λ h. h.0) hits
    buffered ← synthesize user_id (buffer_only ids (map (λ r. r.content) stored) turns)
    now ← utcnow env
    reinforced ← reinforce now stored
    return (fit budget (re_rank (reinforced ++ buffered) hits now))
