-- ===== src/Schema.antt =====
-- src/mnema/core/schema.py: the record types. An aware UTC `datetime` is its microseconds.
use memory_agent.Json.{Json}
use memory_agent.Prelude.{ℕ, Bool, true, false, Option, none, some, List, [], if◌then◌else◌, ◌==◌}
use memory_agent.Text.{Text, codes, text_eq}
use memory_agent.Floats.{Floats}
use memory_agent.Prelude.Dict.{Dict}

pub data RecordType : Type 0 where
  fact preference event procedure : RecordType

-- `record_type.value`
unfoldable pub value : RecordType → Text
value fact = codes "fact"
value preference = codes "preference"
value event = codes "event"
value procedure = codes "procedure"

-- `RecordType(s)`, `none` where it raises ValueError.
unfoldable pub of_value : Text → Option RecordType
unfolding value
of_value s =
    if s == value fact
    then some fact
    else if s == value preference
    then some preference
    else if s == value event
    then some event
    else if s == value procedure
    then some procedure
    else none

pub record Turn (F : Type 0) : Type 0 where
  pub id : Text
  pub session_id : Text
  pub content : Text
  pub role : Text
  pub created_at : ℕ
  pub metadata : Dict Text (Json F)

-- The columns of a record. `T` and `K` are the types of `record_type` and `keywords`, which a
-- stored row does not check and a `MemoryRecord` does.
pub record Columns (F T K : Type 0) : Type 0 where
  pub id : Text
  pub user_id : Text
  pub session_id : Text
  pub agent_id : Option Text
  pub record_type : T
  pub content : Text
  pub summary : Text
  pub keywords : K
  pub embedding_model : Option Text
  pub embedding_dim : Option ℕ
  pub embedding_version : Option Text
  pub protected : Bool
  pub salience : F
  pub confidence : F
  pub provisional : Bool
  pub valid_from : ℕ
  pub valid_until : Option ℕ
  pub superseded_by : Option Text
  pub t0_ref : Option Text
  pub source_refs : List Text
  pub access_count : ℕ
  pub last_accessed : Option ℕ
  pub created_at : ℕ
  pub graph_edges : List (Dict Text (Json F))

abbrev pub MemoryRecord : Type 0 → Type 0
MemoryRecord F = Columns F RecordType (List Text)

module _ {F : Type 0} ⦃fl : Floats F⦄ where
  -- A record with the schema's defaults. The two instants are the readings of the clock that the
  -- default factories make.
  unfoldable pub new_record :
      (id user_id session_id : Text)
      → RecordType
      → (content : Text) → (valid_from created_at : ℕ) → MemoryRecord F
  new_record id user_id session_id record_type content valid_from created_at = record {
    id = id;
    user_id = user_id;
    session_id = session_id;
    agent_id = none;
    record_type = record_type;
    content = content;
    summary = [];
    keywords = [];
    embedding_model = none;
    embedding_dim = none;
    embedding_version = none;
    protected = false;
    salience = fl.decimal 5 1;
    confidence = fl.decimal 9 1;
    provisional = true;
    valid_from = valid_from;
    valid_until = none;
    superseded_by = none;
    t0_ref = none;
    source_refs = [];
    access_count = 0;
    last_accessed = none;
    created_at = created_at;
    graph_edges = [];
  }
