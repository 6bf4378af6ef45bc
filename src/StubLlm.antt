-- ===== src/StubLlm.antt =====
-- src/mnema/adapters/llm/stub.py: the language model of the local configuration, by keywords.
pub mod Turns
use memory_agent.Json.{Fields, Json, Items, bool, float, str, arr, obj, nil, cons, end, field}
use memory_agent.Env.{Env}
use memory_agent.Text.{codes, strip, drop_prefix, starts_with, contains, Text, is_space, lower}
use memory_agent.Floats.{Floats}
use memory_agent.Consolidation.Extraction.{judge_sentinel, extract_sentinel}
use memory_agent.Prelude.{
  ℕ, ◌%◌, Bool, true, false, Option, some, List, [], ◌∷◌, ltb, if◌then◌else◌, length, get_elem?,
  take, filter, any,
}
use memory_agent.World.{complete}

abbrev pub stub_safety_keywords : List Text
stub_safety_keywords =
    codes "allerg"
    ∷ codes "anaphyl"
    ∷ codes "celiac"
    ∷ codes "seizure"
    ∷ codes "epilep"
    ∷ codes "diabeti"
    ∷ codes "medication"
    ∷ codes "intolerant"
    ∷ []

abbrev pub stub_preference_keywords : List Text
stub_preference_keywords =
    codes "prefer"
    ∷ codes "love"
    ∷ codes "like"
    ∷ codes "enjoy"
    ∷ codes "hate"
    ∷ codes "dislike"
    ∷ []

abbrev pub verdicts : List Text
verdicts = codes "distinct" ∷ codes "refine" ∷ codes "contradict" ∷ []

-- `s.partition(pattern)[2]` for a pattern that is not empty.
unfoldable pub after : Text → Text → Text
unfolding starts_with drop_prefix
after [] pat = []
after (c ∷ s) pat = if starts_with (c ∷ s) pat then drop_prefix (c ∷ s) pat else after s pat

abbrev pub push_word : Text → List Text → List Text
push_word [] ws = ws
push_word (c ∷ w) ws = (c ∷ w) ∷ ws

-- The word that a text begins with, which may be empty, and the words behind it.
unfoldable pub words : Text → Text × List Text
unfolding is_space
words [] = ([], [])
words (c ∷ s) =
    let rest = words s in if is_space c then ([], push_word rest.0 rest.1) else (c ∷ rest.0, rest.1)

-- `s.split()`
abbrev pub split : Text → List Text
split s = push_word (words s).0 (words s).1

abbrev pub has_any : List Text → Text → Bool
has_any keywords text = any (contains (lower text)) keywords

abbrev pub strs : {F : Type 0} → List Text → Items F
strs [] = nil
strs (s ∷ ss) = cons (str s) (strs ss)

module _ {F : Type 0} ⦃fl : Floats F⦄ where
  -- `record_type`, `protected` and `salience`.
  unfoldable pub classify : Text → Text × Bool × F
  unfolding contains lower
  classify text =
      if has_any stub_safety_keywords text
      then (codes "fact", true, fl.decimal 10 1)
      else if has_any stub_preference_keywords text
      then (codes "preference", false, fl.decimal 7 1)
      else (codes "preference", false, fl.decimal 5 1)

  abbrev pub fields_of : Text → Text × Bool × F → Fields F
  fields_of text (record_type, protected, salience) = field (codes "content") (str text) (
      field (codes "record_type") (str record_type) (
        field (codes "salience") (float salience) (
          field (codes "protected") (bool protected) (
            field (codes "keywords") (arr (strs (filter (λ w. ltb 4 (length w)) (split text))))
              (field (codes "summary") (str (strip (take 60 text))) end)))))

  -- The dict that is extracted from a stripped content.
  unfoldable pub extracted_fields : Text → Fields F
  unfolding classify words strip
  extracted_fields text = fields_of text (classify text)

  -- What is answered for a stripped content.
  abbrev pub answer : Text → Json F
  answer text = arr (cons (obj (extracted_fields text)) nil)

-- `dumps` is `json.dumps`.
module _ {F : Type 0} ⦃fl : Floats F⦄ (dumps : Json F → Text) where
  unfoldable pub extract : Text → Text
  unfolding after strip extracted_fields
  extract prompt = dumps (answer (strip (after prompt extract_sentinel)))

-- `digest` is the SHA-256 of a text in UTF-8, as a number.
module _ (digest : Text → ℕ) where
  -- `none` is an index out of range.
  unfoldable pub stub_judge : Text → Option Text
  unfolding after strip
  stub_judge prompt = get_elem? verdicts (digest (strip (after prompt judge_sentinel)) % 3)

module _ {F : Type 0} ⦃fl : Floats F⦄ (dumps : Json F → Text) (digest : Text → ℕ) where
  unfoldable pub stub_complete : Text → Option Text
  unfolding contains extract stub_judge
  stub_complete prompt =
      if contains prompt extract_sentinel
      then some (extract dumps prompt)
      else (if contains prompt judge_sentinel then stub_judge digest prompt else some [])

  -- The engine with this language model.
  abbrev pub with_stub : Env F → Env F
  with_stub env = record env { complete = λ n. stub_complete }
