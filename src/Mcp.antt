-- ===== src/Mcp.antt =====
-- src/mnema/mcp/server.py: the five tools over an engine.
pub mod Isolation
use memory_agent.Env.{Env}
use memory_agent.World.{World}
use memory_agent.Engine.{remember, recall, forget, consolidate, expand}
use memory_agent.Prelude.{ℕ, Bool, Option, none, some, List, map}
use memory_agent.Action.{Action, return, ◌>>=◌, ◌>>◌}
use memory_agent.Text.{Text, codes}
use memory_agent.Floats.{Floats}
use memory_agent.Schema.{MemoryRecord, value}

-- What the `recall` tool shows of a record.
pub record RecordView (F : Type 0) : Type 0 where
  pub id : Text
  pub summary : Text
  pub record_type : Text
  pub salience : F
  pub protected : Bool

-- What the `expand` tool shows of a turn.
pub record TurnView : Type 0 where
  pub content : Text
  pub role : Text
  pub created_at : Text

module _ {F : Type 0} where
  unfoldable pub view_record : MemoryRecord F → RecordView F
  unfolding value
  view_record r = record {
    id = r.id;
    summary = r.summary;
    record_type = value r.record_type;
    salience = r.salience;
    protected = r.protected;
  }

module _ {F : Type 0} ⦃fl : Floats F⦄ (env : Env F) where
  unfoldable pub remember_tool :
      (content user_id session_id : Text) → Option Text → Bool → Action (World F) Text
  remember_tool content user_id session_id type_hint durable = remember env (record {
    content = content;
    user_id = user_id;
    session_id = session_id;
    agent_id = none;
    type_hint = type_hint;
    durable = durable;
  })

  unfoldable pub recall_tool :
      (query user_id : Text) → (k budget : ℕ) → Action (World F) (List (RecordView F))
  unfolding view_record
  recall_tool query user_id k budget = do
    records ← recall env query user_id none k (some budget)
    return (map view_record records)

  unfoldable pub forget_tool : (record_id user_id reason : Text) → Action (World F) (Unit {0})
  forget_tool record_id user_id reason = forget env record_id user_id reason

  unfoldable pub consolidate_tool : Text → Action (World F) Text
  consolidate_tool user_id = do consolidate env (some user_id); return (codes "consolidated")

  unfoldable pub expand_tool : (record_id user_id : Text) → Action (World F) (Option TurnView)
  expand_tool record_id user_id = do
    found ← expand env record_id user_id
    return (elim found [
      | none ↦ none
      | some t ↦
          some
            (record { content = t.content; role = t.role; created_at = env.isoformat t.created_at })
    ])
