-- ===== src/Env.antt =====
-- What the program does not implement: the clock, uuids, the embedding provider, the LLM, the JSON
-- and pydantic codecs, the token encoder, vec0's scan. Each call of a provider is numbered, so that
-- two calls with one argument may answer differently; `none` is a call that raises.
use memory_agent.Json.{Json}
use memory_agent.Prelude.{ℕ, ◌≡◌, ◌≢◌, Option, some, List, All}
use memory_agent.Text.{Text, newline}
use memory_agent.T1.{Knn}
use memory_agent.Schema.{MemoryRecord, Turn}

-- One audit entry. `keep_score` is null for an explicit forget.
pub record Audit (F : Type 0) : Type 0 where
  pub record_id : Text
  pub user_id : Text
  pub keep_score : Option F
  pub evicted_at : ℕ
  pub reason : Text

pub record Env (F : Type 0) : Type 0 where
  -- `uuid.uuid4().hex[:12]` and `datetime.now(timezone.utc)` at the n-th call.
  pub uuid : ℕ → Text
  pub clock : ℕ → ℕ
  -- `embedder.embed([text])[0]`
  pub embed : ℕ → Text → Option (List F)
  pub embedder_name : Text
  pub embedder_dim : ℕ
  pub embedder_version : Option Text
  -- `llm.complete(prompt)`
  pub complete : ℕ → Text → Option Text
  -- `json.loads`
  pub loads : Text → Option (Json F)
  -- `str(x)` of a value that is no text.
  pub show : Json F → Text
  pub dump_turn : Turn F → Text
  -- `Turn.model_validate(json.loads(line))`
  pub parse_turn : Text → Option (Turn F)
  pub dump_record : MemoryRecord F → Text
  pub dump_audit : Audit F → Text
  -- `f"keep_score={score:.4f} < KEEP_THRESHOLD={KEEP_THRESHOLD}"`
  pub reason : F → Text
  -- `now.isoformat()`
  pub isoformat : ℕ → Text
  -- `TiktokenCounter().count`
  pub count_tokens : Text → ℕ
  pub knn : Knn F
  -- The order in which a set of texts is iterated.
  pub set_order : List Text → List Text

-- What the codecs are documented to do with a turn: it is parsed back, and `json.dumps` escapes
-- line ends.
pub record IsCodecOf {F : Type 0} (env : Env F) (t : Turn F) : Type 0 where
  pub parse-dump : env.parse_turn (env.dump_turn t) ≡ some t
  pub dump_one_line : All (λ c. c ≢ newline) (env.dump_turn t)
