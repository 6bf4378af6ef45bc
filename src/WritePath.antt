-- ===== src/WritePath.antt =====
-- src/mnema/core/write_path.py: the fast write path, and its rules for types and safety.
pub mod Guard
pub mod Effects
use memory_agent.Buffer
use memory_agent.LocalFs
use memory_agent.T1
use memory_agent.Classifier.{looks_like_durable_claim}
use memory_agent.Env.{Env}
use memory_agent.World.{World, Item, at_t1, at_t0, embed, new_turn, fresh_record}
use memory_agent.Prelude.{
  Bool, true, ◌||◌, Option, none, some, List, [], ◌∷◌, ◌++◌, if◌then◌else◌, take, any,
}
use memory_agent.Action.{Action, return, write, ◌>>=◌, ◌>>◌}
use memory_agent.Text.{Text, codes, strip, lower, contains}
use memory_agent.Floats.{Floats}
use memory_agent.Schema.{RecordType, MemoryRecord, of_value, preference, Turn}
use memory_agent.Buffer.{Buffer, push}
use memory_agent.LocalFs.{append}
use memory_agent.T1.{upsert_with_vector}

-- `_TYPE_HINT_MAP.get(type_hint.lower())`, else PREFERENCE.
unfoldable pub resolve_record_type : Option Text → RecordType
unfolding lower of_value
resolve_record_type none = preference
resolve_record_type (some hint) = elim (of_value (lower hint)) [ none ↦ preference | some t ↦ t ]

abbrev pub safety_keywords : List Text
safety_keywords =
    codes "allerg"
    ∷ codes "intolerant"
    ∷ codes "intolerance"
    ∷ codes "diabeti"
    ∷ codes "celiac"
    ∷ codes "coeliac"
    ∷ codes "anaphyl"
    ∷ codes "medication"
    ∷ codes "allergy"
    ∷ codes "epilep"
    ∷ codes "seizure"
    ∷ []

unfoldable pub is_safety_claim : Text → Bool
unfolding lower contains
is_safety_claim text = any (contains (lower text)) safety_keywords

-- The arguments of `execute`.
pub record Utterance : Type 0 where
  pub content : Text
  pub user_id : Text
  pub session_id : Text
  pub agent_id : Option Text
  pub type_hint : Option Text
  pub durable : Bool

abbrev pub is_durable : Utterance → Bool
is_durable u = is_safety_claim u.content || looks_like_durable_claim u.content u.type_hint u.durable

module _ {F : Type 0} ⦃fl : Floats F⦄ (env : Env F) where
  -- The provisional record of an utterance.
  unfoldable pub provisional_record : Utterance → Text → Action (World F) (MemoryRecord F)
  unfolding is_safety_claim resolve_record_type strip
  provisional_record u t0_ref = do
    r ← fresh_record env u.user_id u.session_id (resolve_record_type u.type_hint) u.content
    return (record r {
      agent_id = u.agent_id;
      summary = strip (take 80 u.content);
      provisional = true;
      protected = is_safety_claim u.content;
      t0_ref = some t0_ref;
      embedding_model = some env.embedder_name;
      embedding_dim = some env.embedder_dim;
      embedding_version = env.embedder_version;
    })

  -- Step 3 for a durable utterance.
  unfoldable pub write_provisional : Utterance → Text → Action (World F) (Option Text)
  write_provisional u t0_ref = do
    embedding ← embed env u.content
    r ← provisional_record u t0_ref
    at_t1 (T1.upsert_with_vector r embedding)
    return (some r.id)

  abbrev pub enqueue : Item F → Action (World F) (Unit {0})
  enqueue item = write (λ w. record w { staging = w.staging ++ item ∷ [] })

  -- Steps 2 to 4.
  abbrev pub index : Utterance → Turn F → Text → Action (World F) (Text × Option Text)
  index u turn t0_ref = do
    write (λ w. record w { buffer = Buffer.push turn u.session_id u.user_id w.buffer })
    t1_id ← if is_durable u then write_provisional u t0_ref else return none
    enqueue (record { turn = turn; t0_ref = t0_ref; user_id = u.user_id })
    return (t0_ref, t1_id)

  unfoldable pub execute : Utterance → Action (World F) (Text × Option Text)
  unfolding Buffer.push looks_like_durable_claim
  execute u = do
    turn ← new_turn env u.session_id u.content
    t0_ref ← at_t0 (LocalFs.append env u.session_id turn)
    index u turn t0_ref
