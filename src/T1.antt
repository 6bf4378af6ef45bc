-- ===== src/T1.antt =====
-- src/mnema/adapters/vector_store/sqlite_t1.py: the table of records and the vector index.
-- Rows has its rows; here are the methods of `SqliteT1`.
pub mod Rows
pub mod Guard
pub mod RoundTrip
pub mod Supersede
pub mod Unreadable
pub mod Updates
pub mod Search
pub mod Stream
unfoldable pub use Rows.*
use memory_agent.Json.{Json}
use memory_agent.Prelude.{
  ℕ, Bool, true, false, ◌&&◌, Option, none, some, List, [], ◌∷◌, ◌++◌, if◌then◌else◌, ◌==◌, filter,
  any, ltb, not,
}
use memory_agent.Action.{
  value_error, validation_error, database_error, done, raised, Action, read, or_throw, write,
}
use memory_agent.Text.{Text, text_eq}
use memory_agent.Prelude.Sort.{sort}
use memory_agent.Floats.{Floats}
use memory_agent.Prelude.Dict.{Dict}
use memory_agent.Schema.{MemoryRecord}

-- The columns that `update` may write. A column that is NOT NULL gets a value of its type, as from
-- every caller. `other` is any further name, which the whitelist refuses.
pub data Field (F : Type 0) : Type 0 where
  user_id session_id record_type content summary : Text → Field F
  agent_id embedding_model embedding_version superseded_by t0_ref : Option Text → Field F
  keywords : List (Json F) → Field F
  access_count valid_from created_at : ℕ → Field F
  embedding_dim valid_until last_accessed : Option ℕ → Field F
  protected provisional : Bool → Field F
  salience confidence : F → Field F
  source_refs : List Text → Field F
  graph_edges : List (Dict Text (Json F)) → Field F
  other : Text → Field F

module _ {F : Type 0} where
  unfoldable pub is_disallowed : Field F → Bool
  is_disallowed (Field.other name) = true
  is_disallowed _ = false

  -- One assignment of the SET clause.
  unfoldable pub assign : Field F → Row F → Row F
  assign (Field.user_id v) r = record r { user_id = v }
  assign (Field.session_id v) r = record r { session_id = v }
  assign (Field.record_type v) r = record r { record_type = v }
  assign (Field.content v) r = record r { content = v }
  assign (Field.summary v) r = record r { summary = v }
  assign (Field.embedding_model v) r = record r { embedding_model = v }
  assign (Field.embedding_version v) r = record r { embedding_version = v }
  assign (Field.superseded_by v) r = record r { superseded_by = v }
  assign (Field.t0_ref v) r = record r { t0_ref = v }
  assign (Field.agent_id v) r = record r { agent_id = v }
  assign (Field.keywords v) r = record r { keywords = v }
  assign (Field.embedding_dim v) r = record r { embedding_dim = v }
  assign (Field.access_count v) r = record r { access_count = v }
  assign (Field.valid_from v) r = record r { valid_from = v }
  assign (Field.valid_until v) r = record r { valid_until = v }
  assign (Field.last_accessed v) r = record r { last_accessed = v }
  assign (Field.created_at v) r = record r { created_at = v }
  assign (Field.protected v) r = record r { protected = v }
  assign (Field.provisional v) r = record r { provisional = v }
  assign (Field.salience v) r = record r { salience = v }
  assign (Field.confidence v) r = record r { confidence = v }
  assign (Field.source_refs v) r = record r { source_refs = v }
  assign (Field.graph_edges v) r = record r { graph_edges = v }
  assign (Field.other name) r = r

  unfoldable pub assign_all : List (Field F) → Row F → Row F
  unfolding assign
  assign_all [] r = r
  assign_all (f ∷ fs) r = assign_all fs (assign f r)

  abbrev pub set_rows : List (Row F) → Store F → Store F
  set_rows rs t = record t { rows = rs }

  abbrev pub is_fenced : Text → Text → Row F → Bool
  is_fenced ref user r = holds r.t0_ref ref && r.user_id == user && is_live r && r.provisional

  unfoldable pub first_row : (Row F → Bool) → List (Row F) → Option (Row F)
  first_row p [] = none
  first_row p (r ∷ rs) = if p r then some r else first_row p rs

  -- `fetchone`, through the row factory.
  abbrev pub fetch_one : Option (Row F) → Action (Store F) (Option (MemoryRecord F))
  fetch_one none t = done none t
  fetch_one (some r) t = elim (make_record r) [
    | none ↦ raised validation_error t
    | some m ↦ done (some m) t
  ]

  unfoldable pub get : Text → Action (Store F) (Option (MemoryRecord F))
  unfolding find_row make_record
  get id t = fetch_one (find_row id t.rows) t

  unfoldable pub find_by_t0_ref : Text → Text → Action (Store F) (Option (MemoryRecord F))
  unfolding first_row make_record
  find_by_t0_ref ref user t = fetch_one (first_row (is_fenced ref user) t.rows) t

  -- The generators of live records: what they yield, and whether they then raise. The rows are those
  -- of the SELECT when it begins.
  unfoldable pub live_stream : Text → Action (Store F) (List (MemoryRecord F) × Bool)
  unfolding fetches yielded read
  live_stream user =
      read (λ t. yielded (fetches 64 (filter (λ r. r.user_id == user && is_live r) t.rows)))

  unfoldable pub all_live_stream : Action (Store F) (List (MemoryRecord F) × Bool)
  unfolding fetches yielded read
  all_live_stream = read (λ t. yielded (fetches 64 (filter is_live t.rows)))

  -- The same, read to the end before anything else is done.
  unfoldable pub live_records : Text → Action (Store F) (List (MemoryRecord F))
  unfolding make_records or_throw
  live_records user t =
      or_throw validation_error (make_records (filter (λ r. r.user_id == user && is_live r) t.rows))
        t

  unfoldable pub get_live_records : Text → Action (Store F) (List (MemoryRecord F))
  unfolding live_records
  get_live_records = live_records

  abbrev pub newer : Row F → Row F → Bool
  newer a b = ltb b.created_at a.created_at

  -- ORDER BY created_at DESC LIMIT 1
  unfoldable pub get_latest : Text → Action (Store F) (Option (MemoryRecord F))
  unfolding sort first_row make_record
  get_latest user t =
      fetch_one
        (first_row (λ r. true) (sort newer (filter (λ r. r.user_id == user && is_live r) t.rows))) t

  -- The rows that an UPDATE … WHERE id = ? AND user_id = ? changes.
  abbrev pub owned_by : Text → Text → List (Row F) → Bool
  owned_by id user rs = any (λ r. r.id == id && r.user_id == user) rs

  -- The assignments of `supersede` to the retired row.
  abbrev pub retire : ℕ → Text → Row F → Row F
  retire now new_id r = record r { valid_until = some now; superseded_by = some new_id }

  -- DELETE, then INSERT. The statements stand in one open transaction, so that a refused INSERT
  -- leaves the DELETE behind for the next commit.
  unfoldable pub upsert_vector : Text → List F → Action (Store F) (Unit {0})
  unfolding drop_vector insert_vector
  upsert_vector id v t =
      let kept = drop_vector id t.vectors in
      elim (insert_vector id v t.dim kept) [
        | none ↦ raised database_error (record t { vectors = kept })
        | some vs ↦ done tt (record t { vectors = vs })
      ]

  unfoldable pub delete_vector : Text → Action (Store F) (Unit {0})
  unfolding drop_vector write
  delete_vector id = write (λ t. record t { vectors = drop_vector id t.vectors })

  unfoldable pub recreate_vector_store : ℕ → Action (Store F) (Unit {0})
  unfolding write
  recreate_vector_store new_dim = write (λ t. record t { vectors = []; dim = new_dim })

  -- The JOIN and the WHERE clause of the search.
  abbrev pub is_hit : Text → Option Text → Option (Row F) → Bool
  is_hit user agent none = false
  is_hit user none (some r) = r.user_id == user && is_live r
  is_hit user (some a) (some r) = r.user_id == user && is_live r && holds r.agent_id a

-- `vec0`'s scan for the `k` nearest stored vectors with their distances, over the whole table.
abbrev pub Knn : Type 0 → Type 0
Knn F = List F → ℕ → List (Text × List F) → List (Text × F)

module _ {F : Type 0} ⦃fl : Floats F⦄ where
  -- SQLite binds NaN as NULL. INSERT OR REPLACE puts a column's default in place of a NULL that
  -- NOT NULL refuses.
  abbrev pub is_number : F → Bool
  is_number x = fl.le x x

  abbrev pub or_default : F → F → F
  or_default d x = if is_number x then x else d

  abbrev pub as_stored : MemoryRecord F → MemoryRecord F
  as_stored r = record r {
    salience = or_default (fl.decimal 5 1) r.salience;
    confidence = or_default (fl.decimal 9 1) r.confidence;
  }

  unfoldable pub upsert : MemoryRecord F → Action (Store F) (Unit {0})
  unfolding record_params write
  upsert r = write (λ t. set_rows (insert_row (record_params (as_stored r)) t.rows) t)

  -- UPDATE raises where it would write a NULL to a row.
  abbrev pub is_refused : Field F → Bool
  is_refused (Field.salience v) = not (is_number v)
  is_refused (Field.confidence v) = not (is_number v)
  is_refused _ = false

  unfoldable pub update : Text → List (Field F) → Action (Store F) (Unit {0})
  unfolding update_row assign_all is_disallowed
  update id [] t = done tt t
  update id (f ∷ fs) t =
      if any is_disallowed (f ∷ fs)
      then raised value_error t
      else if any is_refused (f ∷ fs) && any (λ r. r.id == id) t.rows
      then raised database_error t
      else done tt (set_rows (update_row id (assign_all (f ∷ fs)) t.rows) t)

  -- One transaction: on a missing or foreign `old_id`, or a refused vector, all is rolled back.
  unfoldable pub supersede : ℕ → Text → MemoryRecord F → List F → Action (Store F) (Unit {0})
  unfolding update_row record_params insert_vector
  supersede now old_id new v t =
      if owned_by old_id new.user_id t.rows
      then (elim (insert_vector new.id v t.dim t.vectors) [
        | none ↦ raised database_error t
        | some vs ↦ done tt (record t {
          rows =
              insert_row (record_params (as_stored new))
                (update_row old_id (retire now new.id) t.rows);
          vectors = vs;
        })
      ])
      else raised value_error t

  -- One transaction, as above.
  unfoldable pub upsert_with_vector : MemoryRecord F → List F → Action (Store F) (Unit {0})
  unfolding record_params insert_vector
  upsert_with_vector r v t = elim (insert_vector r.id v t.dim t.vectors) [
    | none ↦ raised database_error t
    | some vs ↦
        done tt (record t { rows = insert_row (record_params (as_stored r)) t.rows; vectors = vs })
  ]

  unfoldable pub nearer : Text × F → Text × F → Bool
  nearer a b = fl.lt a.1 b.1

  unfoldable pub vector_search :
      Knn F → List F → ℕ → Text → Option Text → Action (Store F) (List (Text × F))
  unfolding sort find_row nearer read
  vector_search knn q k user agent =
      read (λ t.
        sort nearer (filter (λ h. is_hit user agent (find_row h.0 t.rows)) (knn q k t.vectors)))
