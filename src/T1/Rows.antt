-- ===== src/T1/Rows.antt =====
-- The rows of src/mnema/adapters/vector_store/sqlite_t1.py, read and changed as its SQL does.
-- Rows stand in rowid order. A stored row holds its `record_type` and `keywords` unchecked, as the
-- UPDATE statement writes them; reading a row validates them (`_make_record`).
use memory_agent.Json.{Json, str, as_texts}
use memory_agent.Prelude.{
  ℕ, zero, suc, Bool, true, false, not, Option, none, some, List, [], ◌∷◌, ◌++◌, map, eqb,
  if◌then◌else◌, ◌==◌, length, filter,
}
use memory_agent.Text.{Text, text_eq}
use memory_agent.Schema.{RecordType, Columns, MemoryRecord, of_value, value}

abbrev pub Row : Type 0 → Type 0
Row F = Columns F Text (List (Json F))

-- The tables, while no transaction is open.
pub record Store (F : Type 0) : Type 0 where
  pub rows : List (Row F)
  pub vectors : List (Text × List F)
  pub dim : ℕ

-- `IS NULL`
abbrev pub is_none {ℓ} : {A : Type ℓ} → Option A → Bool
is_none none = true
is_none (some a) = false

-- `column = ?` of a column that may be NULL.
abbrev pub holds : Option Text → Text → Bool
holds none v = false
holds (some w) v = w == v

module _ {F : Type 0} where
  unfoldable pub add_row : Row F → List (List (Row F)) → List (List (Row F))
  add_row r [] = (r ∷ []) ∷ []
  add_row r (rs ∷ fs) = (r ∷ rs) ∷ fs

  abbrev pub is_live : Row F → Bool
  is_live r = is_none r.valid_until

  -- `_record_params`: what is bound for a record.
  unfoldable pub record_params : MemoryRecord F → Row F
  record_params r = record {
    id = r.id;
    user_id = r.user_id;
    session_id = r.session_id;
    agent_id = r.agent_id;
    record_type = value r.record_type;
    content = r.content;
    summary = r.summary;
    keywords = map str r.keywords;
    embedding_model = r.embedding_model;
    embedding_dim = r.embedding_dim;
    embedding_version = r.embedding_version;
    protected = r.protected;
    salience = r.salience;
    confidence = r.confidence;
    provisional = r.provisional;
    valid_from = r.valid_from;
    valid_until = r.valid_until;
    superseded_by = r.superseded_by;
    t0_ref = r.t0_ref;
    source_refs = r.source_refs;
    access_count = r.access_count;
    last_accessed = r.last_accessed;
    created_at = r.created_at;
    graph_edges = r.graph_edges;
  }

  -- The record of a row, once its two unchecked columns are checked.
  abbrev pub checked : Row F → RecordType → List Text → MemoryRecord F
  checked r t ks = record {
    id = r.id;
    user_id = r.user_id;
    session_id = r.session_id;
    agent_id = r.agent_id;
    record_type = t;
    content = r.content;
    summary = r.summary;
    keywords = ks;
    embedding_model = r.embedding_model;
    embedding_dim = r.embedding_dim;
    embedding_version = r.embedding_version;
    protected = r.protected;
    salience = r.salience;
    confidence = r.confidence;
    provisional = r.provisional;
    valid_from = r.valid_from;
    valid_until = r.valid_until;
    superseded_by = r.superseded_by;
    t0_ref = r.t0_ref;
    source_refs = r.source_refs;
    access_count = r.access_count;
    last_accessed = r.last_accessed;
    created_at = r.created_at;
    graph_edges = r.graph_edges;
  }

  -- `_make_record`: `none` where `model_validate` raises.
  unfoldable pub make_record : Row F → Option (MemoryRecord F)
  make_record r = elim (of_value r.record_type) [
    | none ↦ none
    | some t ↦ elim (as_texts r.keywords) [ none ↦ none | some ks ↦ some (checked r t ks) ]
  ]

  unfoldable pub make_records : List (Row F) → Option (List (MemoryRecord F))
  unfolding make_record
  make_records [] = some []
  make_records (r ∷ rs) = elim (make_record r) [
    | none ↦ none
    | some m ↦ elim (make_records rs) [ none ↦ none | some ms ↦ some (m ∷ ms) ]
  ]

  -- The rows of a SELECT as they are fetched, 64 at a time (aiosqlite's `iter_chunk_size`), with
  -- the room that is left in the first fetch.
  unfoldable pub fetches : ℕ → List (Row F) → List (List (Row F))
  unfolding add_row
  fetches room [] = [] ∷ []
  fetches zero (r ∷ rs) = [] ∷ add_row r (fetches 63 rs)
  fetches (suc room) (r ∷ rs) = add_row r (fetches room rs)

  -- What a generator yields over the fetches, each of which makes its records at once, and whether
  -- it then raises.
  unfoldable pub yielded : List (List (Row F)) → List (MemoryRecord F) × Bool
  unfolding make_records
  yielded [] = ([], false)
  yielded (rs ∷ fs) =
      let rest = yielded fs in
      elim (make_records rs) [ none ↦ ([], true) | some ms ↦ (ms ++ rest.0, rest.1) ]

  unfoldable pub find_row : Text → List (Row F) → Option (Row F)
  find_row id [] = none
  find_row id (r ∷ rs) = if r.id == id then some r else find_row id rs

  -- INSERT OR REPLACE: the row of the same key goes, the new row comes last.
  abbrev pub insert_row : Row F → List (Row F) → List (Row F)
  insert_row r rs = filter (λ q. not (q.id == r.id)) rs ++ r ∷ []

  -- UPDATE … WHERE id = ?
  unfoldable pub update_row : Text → (Row F → Row F) → List (Row F) → List (Row F)
  update_row id f [] = []
  update_row id f (r ∷ rs) = (if r.id == id then f r else r) ∷ update_row id f rs

  unfoldable pub has_vector : Text → List (Text × List F) → Bool
  has_vector id [] = false
  has_vector id ((j, v) ∷ vs) = if j == id then true else has_vector id vs

  unfoldable pub drop_vector : Text → List (Text × List F) → List (Text × List F)
  drop_vector id [] = []
  drop_vector id ((j, v) ∷ vs) =
      let rest = drop_vector id vs in if j == id then rest else (j, v) ∷ rest

  -- INSERT into `vec_t1`, which refuses a key that it holds (with OR REPLACE too) and a vector
  -- of another width.
  unfoldable pub insert_vector :
      Text → List F → ℕ → List (Text × List F) → Option (List (Text × List F))
  unfolding has_vector
  insert_vector id v dim vs =
      if has_vector id vs
      then none
      else if eqb (length v) dim
      then some (vs ++ (id, v) ∷ [])
      else none
