-- ===== src/Consolidation/Verdict.antt =====
-- `_apply_verdict` and `_insert_new_confirmed` of src/mnema/core/consolidation.py, and what they
-- read off an extracted dict.
use memory_agent.Prelude.Dict
use memory_agent.T1
use memory_agent.Json.{Json, str, bool, float, as_float, as_list, as_texts, truthy}
use memory_agent.Env.{Env}
use memory_agent.World.{World, at_t1, utcnow, fresh_record}
use memory_agent.Packer.{is_fact}
use memory_agent.Prelude.{
  Bool, false, ◌||◌, Option, none, some, List, [], ◌∷◌, ◌++◌, map, if◌then◌else◌, ◌==◌, take,
}
use memory_agent.Action.{
  Error, value_error, type_error, validation_error, Action, return, or_throw, ◌>>=◌,
}
use memory_agent.Text.{Text, codes, strip, text_eq}
use memory_agent.T1.{Field, upsert_with_vector, update, supersede}
use memory_agent.Floats.{Floats}
use memory_agent.Prelude.Dict.{Dict}
use memory_agent.Schema.{RecordType, MemoryRecord, of_value, preference}

abbrev pub Extracted : Type 0 → Type 0
Extracted F = Dict Text (Json F)

module _ {F : Type 0} where
  -- `ext.get(key, default)`
  abbrev pub lookup_or : Text → Json F → Extracted F → Json F
  lookup_or key default ext = elim (Dict.get key ext) [ none ↦ default | some x ↦ x ]

  -- `RecordType(x)`, PREFERENCE where it raises ValueError.
  unfoldable pub record_type_or : Json F → RecordType
  unfolding of_value
  record_type_or (str s) = elim (of_value s) [ none ↦ preference | some t ↦ t ]
  record_type_or _ = preference

  abbrev pub extracted_type : Extracted F → RecordType
  extracted_type ext =
      record_type_or (lookup_or (codes "record_type") (str (codes "preference")) ext)

  -- `list(x)` of a present key.
  abbrev pub list_or : Option (Json F) → List (Json F) → Option (List (Json F))
  list_or none default = some default
  list_or (some x) default = as_list x

module _ {F : Type 0} ⦃fl : Floats F⦄ where
  -- `float(x)` raises ValueError for a text and TypeError for anything else.
  abbrev pub float_error : Json F → Error
  float_error (str s) = value_error
  float_error _ = type_error

  abbrev pub to_float : Json F → Action (World F) F
  to_float x = or_throw (float_error x) (as_float x)

  abbrev pub is_protected : Extracted F → Bool
  is_protected ext = truthy (lookup_or (codes "protected") (bool false) ext)

module _ {F : Type 0} (env : Env F) where
  -- `str(x)`
  abbrev pub to_text : Json F → Text
  to_text (str s) = s
  to_text x = env.show x

  abbrev pub extracted_summary : Extracted F → Text → Text
  extracted_summary ext text =
      strip (to_text (lookup_or (codes "summary") (str (take 60 text)) ext))

-- Where a new record comes from.
pub record Origin (F : Type 0) : Type 0 where
  pub user_id : Text
  pub session_id : Text
  pub t0_ref : Text
  pub content : Text
  pub embedding : List F

module _ {F : Type 0} ⦃fl : Floats F⦄ (env : Env F) where
  -- `MemoryRecord(…, provisional=False, …)`: the arguments are computed before pydantic checks them.
  unfoldable pub confirmed_record :
      Extracted F
      → Origin F
      → (summary : Text) → (edges : List (Dict Text (Json F))) → Action (World F) (MemoryRecord F)
  unfolding record_type_or as_float as_list as_texts truthy
  confirmed_record ext o summary edges = do
    items ← or_throw type_error (list_or (Dict.get (codes "keywords") ext) [])
    salience ← to_float (lookup_or (codes "salience") (float (fl.decimal 5 1)) ext)
    keywords ← or_throw validation_error (as_texts items)
    r ← fresh_record env o.user_id o.session_id (extracted_type ext) o.content
    return (record r {
      summary = summary;
      keywords = keywords;
      salience = salience;
      protected = is_protected ext;
      provisional = false;
      t0_ref = some o.t0_ref;
      graph_edges = edges;
      embedding_model = some env.embedder_name;
      embedding_dim = some env.embedder_dim;
      embedding_version = env.embedder_version;
    })

  unfoldable pub insert_new_confirmed : Extracted F → Origin F → Action (World F) (Unit {0})
  unfolding strip
  insert_new_confirmed ext o = do
    r ← confirmed_record ext o (extracted_summary env ext o.content) []
    at_t1 (T1.upsert_with_vector r o.embedding)

  -- The columns that a refinement writes.
  abbrev pub refined : MemoryRecord F → Extracted F → Text → F → List (Json F) → List (Field F)
  refined existing ext text salience keywords =
      Field.content text
      ∷ Field.summary (strip (take 60 text))
      ∷ Field.salience salience
      ∷ Field.keywords keywords
      ∷ Field.protected (is_protected ext || existing.protected)
      ∷ []

  -- The merge of a refinement into the existing record.
  unfoldable pub refine : MemoryRecord F → Extracted F → Text → Action (World F) (Unit {0})
  unfolding as_float as_list truthy strip
  refine existing ext text = do
    salience ← to_float (lookup_or (codes "salience") (float existing.salience) ext)
    keywords ←
        or_throw type_error (list_or (Dict.get (codes "keywords") ext) (map str existing.keywords))
    at_t1 (T1.update existing.id (refined existing ext text salience keywords))

  -- The audit edge of a contradiction that is not acted on.
  unfoldable pub mark_pending : MemoryRecord F → Text → Action (World F) (Unit {0})
  mark_pending existing t0_ref = do
    now ← utcnow env
    let edge =
        (codes "rel", str (codes "contradiction_pending"))
        ∷ (codes "target", str (codes "unresolved_" ++ t0_ref))
        ∷ (codes "ts", str (env.isoformat now))
        ∷ []
    at_t1 (T1.update existing.id (Field.graph_edges (existing.graph_edges ++ edge ∷ []) ∷ []))

  -- The replacement of a record that may be superseded.
  unfoldable pub replace : MemoryRecord F → Extracted F → Origin F → Action (World F) (Unit {0})
  unfolding strip
  replace existing ext o = do
    let edge = (codes "rel", str (codes "supersedes")) ∷ (codes "target", str existing.id) ∷ []
    r ← confirmed_record ext o (strip (take 60 o.content)) (edge ∷ [])
    now ← utcnow env
    at_t1 (T1.supersede now existing.id r o.embedding)

  unfoldable pub apply_verdict :
      (verdict : Text) → MemoryRecord F → Extracted F → Origin F → Action (World F) (Unit {0})
  apply_verdict verdict existing ext o =
      if verdict == codes "refine"
      then refine existing ext o.content
      else if verdict == codes "contradict"
      then (if existing.protected || is_fact existing.record_type
          then mark_pending existing o.t0_ref
          else replace existing ext o)
      else insert_new_confirmed ext o
