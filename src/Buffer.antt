-- ===== src/Buffer.antt =====
-- src/mnema/core/buffer.py: the recent turns of each (user, session).
pub mod Bounded
pub mod Users
use memory_agent.Prelude.Dict
use memory_agent.Prelude.{
  ℕ, ◌+◌, ◌-◌, Bool, true, Option, none, some, List, [], ◌∷◌, ◌++◌, if◌then◌else◌, ◌==◌, length,
  drop, pair_eq,
}
use memory_agent.Text.{Text, text_eq}
use memory_agent.Prelude.Dict.{Dict}
use memory_agent.Schema.{Turn}

abbrev pub Key : Type 0
Key = Text × Text

pub record Buffer (F : Type 0) : Type 0 where
  pub k : ℕ
  pub turns : Dict Key (List (Turn F))

module _ {A : Type 0} where
  -- `deque(maxlen=k).append`: the oldest elements go where the deque would grow too long.
  unfoldable pub deque_append : ℕ → List A → A → List A
  deque_append k dq x = drop (length dq + 1 - k) (dq ++ x ∷ [])

  abbrev pub or_empty : Option (List A) → List A
  or_empty none = []
  or_empty (some xs) = xs

module _ {F : Type 0} where
  unfoldable pub push : Turn F → (session_id user_id : Text) → Buffer F → Buffer F
  unfolding deque_append Dict.get Dict.put
  push turn session_id user_id b =
      let key : Key = (user_id, session_id) in
      record b {
        turns = Dict.put key (deque_append b.k (or_empty (Dict.get key b.turns)) turn) b.turns;
      }

  -- The turns under the keys that pass a test, in order.
  unfoldable pub turns_where : (Key → Bool) → Dict Key (List (Turn F)) → List (Turn F)
  turns_where p [] = []
  turns_where p ((key, dq) ∷ d) = if p key then dq ++ turns_where p d else turns_where p d

  unfoldable pub as_candidates : Option Text → Buffer F → List (Turn F)
  unfolding turns_where
  as_candidates none b = turns_where (λ key. true) b.turns
  as_candidates (some session_id) b = turns_where (λ key. key.1 == session_id) b.turns

  unfoldable pub as_candidates_for_user : Text → Buffer F → List (Turn F)
  unfolding turns_where
  as_candidates_for_user user_id b = turns_where (λ key. key.0 == user_id) b.turns
