-- ===== src/Evaluation.antt =====
-- src/mnema/eval/baseline.py: the scoring of a probe, and the two contexts that are scored.
pub mod Naive
use memory_agent.Prelude.Dict
use memory_agent.Json.{to_dict, truthy, str, obj}
use memory_agent.Env.{Env}
use memory_agent.Text.{strip, lower, contains, codes, newline, Text, nonempty, text_eq}
use memory_agent.Floats.{Floats}
use memory_agent.LocalFs.{lines, archive_file, audit_file}
use memory_agent.Consolidation.Verdict.{lookup_or, to_text}
use memory_agent.Prelude.{
  Bool, not, ◌&&◌, ◌||◌, some, List, [], ◌∷◌, ◌++◌, if◌then◌else◌, ◌==◌, all,
}
use memory_agent.Prelude.Dict.{Dict}

-- `containment_check`
unfoldable pub containment_check : Text → (must_contain must_not_contain : List Text) → Bool
unfolding lower contains
containment_check context must_contain must_not_contain =
    let ctx_lower = lower context in
    all (λ phrase. contains ctx_lower (lower phrase)) must_contain
    && all (λ phrase. not (contains ctx_lower (lower phrase))) must_not_contain

-- `"\n".join(parts)`
abbrev pub join_lines : List Text → Text
join_lines [] = []
join_lines (x ∷ []) = x
join_lines (x ∷ y ∷ xs) = x ++ newline ∷ join_lines (y ∷ xs)

-- `s.endswith(pattern)`, which the glob asks of a name.
unfoldable pub ends_with : Text → Text → Bool
ends_with [] pat = [] == pat
ends_with (c ∷ s) pat = (c ∷ s) == pat || ends_with s pat

-- The names that the glob matches, without the archive and the audit log.
unfoldable pub is_session_log : Text → Bool
unfolding ends_with
is_session_log name =
    ends_with name (codes ".jsonl") && not (name == archive_file || name == audit_file)

module _ {F : Type 0} ⦃fl : Floats F⦄ (env : Env F) where
  -- What a line adds to the parts: nothing where it is blank, is no JSON, is no dict, or has no
  -- content.
  unfoldable pub part_of_line : Text → List Text
  unfolding strip truthy Dict.get
  part_of_line line =
      if nonempty (strip line)
      then elim (env.loads (strip line)) [
        | some (obj fs) ↦
            let content = lookup_or (codes "content") (str []) (to_dict fs) in
            if truthy content then to_text env content ∷ [] else []
        | _ ↦ []
      ]
      else []

  abbrev pub parts_of_lines : List Text → List Text
  parts_of_lines [] = []
  parts_of_lines (l ∷ ls) = part_of_line l ++ parts_of_lines ls

  -- The parts of the files, in the order of the glob. A carriage return, which JSON escapes, is
  -- taken for no line end.
  unfoldable pub parts : List (Text × Text) → List Text
  unfolding lines is_session_log part_of_line
  parts [] = []
  parts ((name, text) ∷ files) =
      let rest = parts files in
      if is_session_log name then parts_of_lines (lines text) ++ rest else rest

  -- `_assemble_naive_context`, of the files of the directory.
  unfoldable pub naive_context : List (Text × Text) → Text
  unfolding parts
  naive_context files = join_lines (parts files)
