-- ===== src/ObjectStore.antt =====
-- src/mnema/ports/object_store.py: what a T0 store promises, whatever holds the turns. A session is
-- the list of its turns, and a reference names a turn by its place.
pub mod History
use memory_agent.Action.{Action, value_error, done, raised}
use memory_agent.Env.{Env, IsCodecOf}
use memory_agent.Schema.{Turn}
use memory_agent.Text.{Text, text_eq}
use memory_agent.LocalFs.{valid_id, ref_of}
use memory_agent.Prelude.{
  ℕ, ◌≡◌, true, false, some, List, [], ◌∷◌, ◌++◌, if◌then◌else◌, ◌==◌, length, get_elem?,
}

-- The turns of every session, in order.
abbrev pub Sessions : Type 0 → Type 0
Sessions F = Text → List (Turn F)

module _ {F : Type 0} where
  abbrev pub add : Text → Turn F → Sessions F → Sessions F
  add s t log r = if s == r then log r ++ t ∷ [] else log r

-- The calls of a store refine appends to, and lookups in, the lists of turns.
pub record IsLogStore {F S : Type 0} (env : Env F) (append : Text → Turn F → Action S Text)
    (get : Text → Action S (Turn F)) : Type 1 where
  pub Represents : Sessions F → S → Type 0
  pub after : Text → Turn F → S → S
  pub append_done :
      (log : Sessions F) (s : Text) (t : Turn F) (d : S)
      → Represents log d
      → valid_id s ≡ true
      → append s t d ≡ done (ref_of s (length (log s))) (after s t d)
  pub append_keeps :
      (log : Sessions F) (s : Text) (t : Turn F) (d : S)
      → Represents log d
      → valid_id s ≡ true
      → IsCodecOf env t
      → Represents (add s t log) (after s t d)
  pub append_invalid :
      (s : Text) (t : Turn F) (d : S) → valid_id s ≡ false → append s t d ≡ raised value_error d
  pub get_done :
      (log : Sessions F) (s : Text) (i : ℕ) (t : Turn F) (d : S)
      → Represents log d
      → valid_id s ≡ true
      → get_elem? (log s) i ≡ some t
      → get (ref_of s i) d ≡ done t d
