-- ===== src/LocalFs.antt =====
-- src/mnema/adapters/object_store/local_fs.py: the T0 store. A directory is a dict from file names
-- to contents; what is written is UTF-8 text.
pub mod Ids
pub mod Lines
pub mod Refs
pub mod History
pub mod Log
use memory_agent.Prelude.Dict
use memory_agent.Json.{ℤ, pos, negsuc}
use memory_agent.Env.{Env, Audit}
use memory_agent.Prelude.{
  ℕ, Bool, ◌&&◌, ◌||◌, Option, none, some, List, [], ◌∷◌, ◌++◌, leb, eqb, if◌then◌else◌, length,
  get_elem?, all,
}
use memory_agent.Action.{value_error, done, raised, Action, or_throw, write}
use memory_agent.Text.{Text, codes, newline, nonempty, starts_with, drop_prefix, text_eq}
use memory_agent.Text.Decimal.{show_ℕ, read_int}
use memory_agent.Prelude.Dict.{Dict}
use memory_agent.Schema.{MemoryRecord, Turn}

abbrev pub Directory : Type 0
Directory = Dict Text Text

abbrev pub is_id_char : ℕ → Bool
is_id_char c =
    (leb b'a' c && leb c b'z')
    || (leb b'A' c && leb c b'Z')
    || (leb b'0' c && leb c b'9')
    || eqb c b'_'
    || eqb c b'-'

-- `$` matches at the end and in front of a newline at the end.
unfoldable pub drop_final_newline : Text → Text
drop_final_newline [] = []
drop_final_newline (c ∷ []) = if eqb c newline then [] else c ∷ []
drop_final_newline (c ∷ d ∷ s) = c ∷ drop_final_newline (d ∷ s)

-- `^[A-Za-z0-9_\-]+$`
unfoldable pub valid_id : Text → Bool
unfolding drop_final_newline
valid_id s = let core = drop_final_newline s in nonempty core && all is_id_char core

abbrev pub file_of : Text → Text
file_of session_id = session_id ++ codes ".jsonl"

abbrev pub archive_file : Text
archive_file = codes "archived.jsonl"

abbrev pub audit_file : Text
audit_file = codes "eviction_audit.jsonl"

abbrev pub push_char : ℕ → List Text → List Text
push_char c [] = (c ∷ []) ∷ []
push_char c (l ∷ ls) = (c ∷ l) ∷ ls

-- The lines of a file, without their ends.
unfoldable pub lines : Text → List Text
lines [] = []
lines (c ∷ s) = if eqb c newline then [] ∷ lines s else push_char c (lines s)

abbrev pub contents : Text → Directory → Text
contents name d = elim (Dict.get name d) [ none ↦ [] | some s ↦ s ]

-- `open("a")` and one write of a line.
unfoldable pub append_line : Text → Text → Directory → Directory
unfolding Dict.get Dict.put
append_line name line d = Dict.put name (contents name d ++ line ++ newline ∷ []) d

abbrev pub prefix : Text
prefix = codes "t0://"

abbrev pub ref_of : Text → ℕ → Text
ref_of session_id n = prefix ++ session_id ++ b'/' ∷ show_ℕ n

-- The parts before and after the last `/`.
unfoldable pub split_last : Text → Option (Text × Text)
split_last [] = none
split_last (c ∷ s) = elim (split_last s) [
  | some (a, b) ↦ some (c ∷ a, b)
  | none ↦ if eqb c b'/' then some ([], s) else none
]

abbrev pub line_at : ℤ → List Text → Option Text
line_at (pos n) ls = get_elem? ls n
line_at (negsuc n) ls = none

module _ {F : Type 0} (env : Env F) where
  unfoldable pub append : Text → Turn F → Action Directory Text
  unfolding valid_id lines append_line
  append session_id turn d =
      if valid_id session_id
      then done (ref_of session_id (length (lines (contents (file_of session_id) d))))
          (append_line (file_of session_id) (env.dump_turn turn) d)
      else raised value_error d

  -- The file of a validated session, the line of an offset, and its turn.
  unfoldable pub read_turn : Text → Text → Directory → Option (Turn F)
  unfolding lines read_int Dict.get
  read_turn session_id offset d = elim (read_int offset) [
    | none ↦ none
    | some n ↦ elim (Dict.get (file_of session_id) d) [
      | none ↦ none
      | some s ↦ elim (line_at n (lines s)) [ none ↦ none | some l ↦ env.parse_turn l ]
    ]
  ]

  -- Every failure raises ValueError, or pydantic's and json's subclasses of it.
  unfoldable pub get : Text → Action Directory (Turn F)
  unfolding split_last valid_id read_turn starts_with drop_prefix or_throw
  get ref d =
      if starts_with ref prefix
      then elim (split_last (drop_prefix ref prefix)) [
        | none ↦ raised value_error d
        | some (session_id, offset) ↦
            if valid_id session_id
            then or_throw value_error (read_turn session_id offset d) d
            else raised value_error d
      ]
      else raised value_error d

  unfoldable pub archive : MemoryRecord F → Action Directory (Unit {0})
  unfolding append_line write
  archive r = write (append_line archive_file (env.dump_record r))

  unfoldable pub append_audit : Audit F → Action Directory (Unit {0})
  unfolding append_line write
  append_audit entry = write (append_line audit_file (env.dump_audit entry))
