-- ===== src/Consolidation.antt =====
-- src/mnema/core/consolidation.py: the offline pipeline. The steps of one turn are in Extraction,
-- the passes over a user's records in Passes.
pub mod Guard
pub mod Queue
pub mod Promotion
pub mod Extraction
pub mod Verdict
pub mod Passes
use Extraction.{process_turn}
use Passes.{promotion_pass, eviction_pass}
use memory_agent.Env.{Env}
use memory_agent.World.{World, Item, utcnow}
use memory_agent.Prelude.{ℕ, not, Option, none, some, List, [], ◌∷◌, ◌++◌, map, ◌==◌, filter}
use memory_agent.Action.{done, Action, ◌>>◌, for_each, ◌>>=◌}
use memory_agent.Text.{Text, nonempty, text_eq}
use memory_agent.Floats.{Floats}

-- A set of texts: the first of each.
unfoldable pub distinct : List Text → List Text
distinct [] = []
distinct (x ∷ xs) = x ∷ filter (λ y. not (y == x)) (distinct xs)

abbrev pub requested : Option Text → List Text
requested none = []
requested (some user_id) = user_id ∷ []

module _ {F : Type 0} where
  -- `_drain_queue`
  unfoldable pub drain_queue : Action (World F) (List (Item F))
  drain_queue w = done w.staging (record w { staging = [] })

  -- Step 1b.
  abbrev pub scoped : Option Text → List (Item F) → List (Item F)
  scoped none items = items
  scoped (some user_id) items = filter (λ i. i.user_id == user_id) items

  -- `processed_user_ids`
  unfoldable pub processed_user_ids : Option Text → List (Item F) → List Text
  unfolding distinct
  processed_user_ids user_id items = distinct (
      map (λ (i : Item F). i.user_id) (filter (λ i. nonempty i.user_id) items) ++ requested user_id)

module _ {F : Type 0} ⦃fl : Floats F⦄ (env : Env F) where
  -- The two loops for one user: every promotion comes before any eviction.
  unfoldable pub passes : ℕ → Text → Action (World F) (Unit {0})
  passes now uid = promotion_pass uid >> eviction_pass env now uid

  unfoldable pub run : Option Text → Action (World F) (Unit {0})
  unfolding processed_user_ids
  run user_id = do
    drained ← drain_queue
    let items = scoped user_id drained
    for_each items (process_turn env)
    now ← utcnow env
    for_each (env.set_order (processed_user_ids user_id items)) (passes now)
