-- ===== src/Tests/Scores.antt =====
-- The theorem on the naive context at a concrete log.
use memory_agent.Samples.{sample_env, sample_turn, HasNoNewline-test, thousandths}
use memory_agent.Env.{Env}
use memory_agent.Schema.{Turn}
use memory_agent.Text.{lower, contains, Text, strip, codes, text_eq}
use memory_agent.Evaluation.{naive_context, is_session_log, containment_check}
use memory_agent.Evaluation.Naive.{naive_passes, IsJsonLine}
use memory_agent.LocalFs.Lines.{joined}
use memory_agent.Prelude.{ℕ, ◌≡◌, refl, inl, true, some, List, [], ◌∷◌}
use memory_agent.Prelude.Dict.{Dict}
use memory_agent.Json.{str, obj, end, field}

abbrev dict_env : Env ℕ
dict_env = record sample_env { loads = λ s. some (obj (field (codes "content") (str s) end)) }

abbrev tea : Turn ℕ
tea = sample_turn (codes "I love Tea")

tea-IsJsonLine : IsJsonLine dict_env tea
unfolding memory_agent.Text.strip memory_agent.Prelude.Dict.get
tea-IsJsonLine = record {
  one_line = HasNoNewline-test tea.content refl;
  not_blank = refl;
  fields = field (codes "content") (str tea.content) end;
  parsed = refl;
  with_content = refl;
}

abbrev tea_files : List (Text × Text)
tea_files = (codes "s1.jsonl", joined (tea.content ∷ [])) ∷ []

tea_log : is_session_log (codes "s1.jsonl") ≡ true
unfolding is_session_log
tea_log = refl

naive_passes_example :
    containment_check (naive_context dict_env tea_files) (codes "tea" ∷ []) [] ≡ true
unfolding memory_agent.Text.lower memory_agent.Text.contains
naive_passes_example =
    naive_passes dict_env tea_files (codes "s1.jsonl") (tea ∷ []) (codes "tea" ∷ []) (inl refl)
      tea_log (tea-IsJsonLine, tt) ((tea, inl refl, refl, refl), tt)
