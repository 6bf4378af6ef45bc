-- ===== src/World.antt =====
-- The state of a running engine: what src/mnema/core/engine.py wires together.
pub mod Guard
pub mod Runs
use memory_agent.Buffer.{Buffer}
use memory_agent.LocalFs.{Directory}
use memory_agent.Env.{Env}
use memory_agent.Prelude.{ℕ, suc, Bool, Option, List, [], ◌++◌}
use memory_agent.Action.{provider_error, done, Action, return, or_throw, ◌>>=◌, focus, ◌>>◌}
use memory_agent.Text.{Text, codes}
use memory_agent.T1.{Store}
use memory_agent.Floats.{Floats}
use memory_agent.Schema.{RecordType, MemoryRecord, Turn, new_record}

-- What the write path puts on the staging queue.
pub record Item (F : Type 0) : Type 0 where
  pub turn : Turn F
  pub t0_ref : Text
  pub user_id : Text

pub record World (F : Type 0) : Type 0 where
  pub t1 : Store F
  pub t0 : Directory
  -- The vault is an optional collaborator, and so is the pipeline's T0 (`archives`).
  pub vault : Option Directory
  pub archives : Bool
  pub buffer : Buffer F
  pub staging : List (Item F)
  -- The providers' calls and the readings of the clock so far.
  pub calls : ℕ
  -- The calls of `scheduler.trigger_now()` so far.
  pub triggers : ℕ

module _ {F A : Type 0} where
  abbrev pub at_t1 : Action (Store F) A → Action (World F) A
  at_t1 = focus (λ w. w.t1) (λ t w. record w { t1 = t })

  abbrev pub at_t0 : Action Directory A → Action (World F) A
  at_t0 = focus (λ w. w.t0) (λ d w. record w { t0 = d })

  -- The answer of a numbered call.
  unfoldable pub ask : (ℕ → A) → Action (World F) A
  ask f w = done (f w.calls) (record w { calls = suc w.calls })

module _ {F A : Type 0} where
  abbrev pub ask_provider : (ℕ → Option A) → Action (World F) A
  ask_provider f = ask f >>= or_throw provider_error

module _ {F : Type 0} (env : Env F) where
  abbrev pub utcnow : Action (World F) ℕ
  utcnow = ask env.clock

  abbrev pub embed : Text → Action (World F) (List F)
  embed text = ask_provider (λ n. env.embed n text)

  abbrev pub complete : Text → Action (World F) Text
  complete prompt = ask_provider (λ n. env.complete n prompt)

  -- `Turn(session_id=…, content=…, role="user")`
  unfoldable pub new_turn : Text → Text → Action (World F) (Turn F)
  new_turn session_id content = do
    hex ← ask env.uuid
    now ← utcnow
    return (record {
      id = codes "turn_" ++ hex;
      session_id = session_id;
      content = content;
      role = codes "user";
      created_at = now;
      metadata = [];
    })

  -- `MemoryRecord(…)` with the defaults of the schema and a fresh id.
  unfoldable pub fresh_record :
      ⦃fl : Floats F⦄
      → (user_id session_id : Text) → RecordType
      → Text
      → Action (World F) (MemoryRecord F)
  unfolding new_record
  fresh_record user_id session_id record_type content = do
    hex ← ask env.uuid
    valid_from ← utcnow
    created_at ← utcnow
    return (
        new_record (codes "mem_" ++ hex) user_id session_id record_type content valid_from
          created_at)
