-- ===== src/Consolidation/Extraction.antt =====
-- `_process_turn` of src/mnema/core/consolidation.py.
use memory_agent.Prelude.Dict
use memory_agent.T1
use memory_agent.Json.{Json, str, bool, float, arr, dicts, as_float, as_list, truthy}
use memory_agent.Env.{Env}
use memory_agent.World.{World, Item, at_t1, embed, complete}
use memory_agent.WritePath.{is_safety_claim}
use memory_agent.Consolidation.Verdict.{
  Extracted, Origin, lookup_or, extracted_type, list_or, to_float, is_protected, to_text,
  extracted_summary, insert_new_confirmed, apply_verdict,
}
use memory_agent.Prelude.{
  Bool, true, false, ◌||◌, Option, none, some, List, [], ◌∷◌, ◌++◌, if◌then◌else◌,
}
use memory_agent.Action.{type_error, Action, return, or_throw, for_each, ◌>>=◌}
use memory_agent.Text.{Text, codes, newline, strip, lower, text_eq}
use memory_agent.T1.{Field, vector_search, update, find_by_t0_ref}
use memory_agent.Floats.{Floats}
use memory_agent.Prelude.Dict.{Dict}
use memory_agent.Schema.{RecordType, MemoryRecord, fact, preference, event, procedure}

abbrev pub extract_sentinel : Text
extract_sentinel = codes "EXTRACT_RECORDS:"

abbrev pub judge_sentinel : Text
judge_sentinel = codes "JUDGE_CONTRADICTION:"

-- `existing.record_type == …` of a `StrEnum`.
abbrev pub same_type : RecordType → RecordType → Bool
same_type fact fact = true
same_type preference preference = true
same_type event event = true
same_type procedure procedure = true
same_type _ _ = false

module _ {F : Type 0} ⦃fl : Floats F⦄ where
  abbrev pub entity_max_distance : F
  entity_max_distance =
      fl.sqrt (fl.sub (fl.decimal 20 1) (fl.mul (fl.decimal 20 1) (fl.decimal 85 2)))

  abbrev pub setdefault : Text → Json F → Extracted F → Extracted F
  setdefault key x ext = elim (Dict.get key ext) [ none ↦ Dict.put key x ext | some _ ↦ ext ]

  -- Step 3: the content rule overrides what the LLM says.
  unfoldable pub pin : Text → Extracted F → Extracted F
  unfolding is_safety_claim Dict.get Dict.put
  pin text ext =
      if is_safety_claim text
      then Dict.put (codes "record_type") (str (codes "fact")) (
          Dict.put (codes "salience") (float (fl.decimal 10 1))
            (Dict.put (codes "protected") (bool true) ext))
      else setdefault (codes "record_type") (str (codes "preference")) (
          setdefault (codes "salience") (float (fl.decimal 5 1))
            (setdefault (codes "protected") (bool false) ext))

module _ {F : Type 0} ⦃fl : Floats F⦄ (env : Env F) where
  -- The columns that a confirmation writes.
  abbrev pub confirmed : MemoryRecord F → Extracted F → Text → F → List (Json F) → List (Field F)
  confirmed existing ext text salience keywords =
      Field.provisional false
      ∷ Field.record_type
          (to_text env (lookup_or (codes "record_type") (str (codes "preference")) ext))
      ∷ Field.salience salience
      ∷ Field.summary (extracted_summary env ext text)
      ∷ Field.keywords keywords
      ∷ Field.protected (is_protected ext || existing.protected)
      ∷ []

  -- Step 4: the provisional record of the turn is confirmed in place.
  unfoldable pub reconcile : MemoryRecord F → Extracted F → Text → Action (World F) (Unit {0})
  unfolding as_float as_list truthy strip
  reconcile existing ext text = do
    salience ← to_float (lookup_or (codes "salience") (float (fl.decimal 5 1)) ext)
    keywords ← or_throw type_error (list_or (Dict.get (codes "keywords") ext) [])
    at_t1 (T1.update existing.id (confirmed existing ext text salience keywords))

  -- Step 5: the first candidate that is near enough, is stored, and has the type.
  unfoldable pub near_match :
      RecordType → List (Text × F) → Action (World F) (Option (MemoryRecord F))
  near_match t [] = return none
  near_match t ((id, d) ∷ hits) =
      let rest = near_match t hits in
      if fl.le d entity_max_distance
      then (do
        found ← at_t1 (T1.get id)
        elim found [
          | none ↦ rest
          | some r ↦ if same_type r.record_type t then return (some r) else rest
        ])
      else rest

  -- Step 6.
  unfoldable pub judge : MemoryRecord F → Text → Action (World F) Text
  unfolding strip lower
  judge existing text = do
    verdict ← complete env (judge_sentinel ++ b' ' ∷ existing.content ++ newline ∷ text)
    return (lower (strip verdict))

  -- Steps 5 and 6.
  unfoldable pub resolve :
      Extracted F → (text : Text) → (t0_ref user_id session_id : Text) → Action (World F) (Unit {0})
  resolve ext text t0_ref user_id session_id = do
    embedding ← embed env text
    let o : Origin F = record {
      user_id = user_id;
      session_id = session_id;
      t0_ref = t0_ref;
      content = text;
      embedding = embedding;
    }
    hits ← at_t1 (T1.vector_search env.knn embedding 5 user_id none)
    near ← near_match (extracted_type ext) hits
    elim near [
      | none ↦ insert_new_confirmed env ext o
      | some existing ↦ (do verdict ← judge existing text; apply_verdict env verdict existing ext o)
    ]

  -- The body of the loop over the extracted dicts of a turn.
  unfoldable pub process_extracted :
      (t0_ref user_id session_id turn_content : Text) → Extracted F → Action (World F) (Unit {0})
  unfolding pin
  process_extracted t0_ref user_id session_id turn_content raw = do
    let text = to_text env (lookup_or (codes "content") (str turn_content) raw)
    let ext = pin text raw
    existing ← at_t1 (T1.find_by_t0_ref t0_ref user_id)
    elim existing [
      | some r ↦ reconcile r ext text
      | none ↦ resolve ext text t0_ref user_id session_id
    ]

  -- What is not a JSON list is skipped; of a list, the dicts are processed.
  unfoldable pub process_turn : Item F → Action (World F) (Unit {0})
  process_turn item = do
    raw ← complete env (extract_sentinel ++ b' ' ∷ item.turn.content)
    elim (env.loads raw) [
      | some (arr xs) ↦
          for_each (dicts xs)
            (process_extracted item.t0_ref item.user_id item.turn.session_id item.turn.content)
      | _ ↦ return tt
    ]
