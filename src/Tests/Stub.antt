-- ===== src/Tests/Stub.antt =====
-- The theorems on the keyword model at concrete inputs.
use memory_agent.Samples.{sample_env, session, alice, sample_world, nuts, sample_turn, thousandths}
use memory_agent.Json.{to_dict, Json, str}
use memory_agent.Env.{Env}
use memory_agent.Text.{codes, strip, contains, Text}
use memory_agent.WritePath.{is_safety_claim}
use memory_agent.World.{Item}
use memory_agent.StubLlm.{
  extracted_fields, stub_preference_keywords, has_any, verdicts, with_stub, answer,
}
use memory_agent.StubLlm.Turns.{judge_stub, process_turn_stub, IsPinned}
use memory_agent.Consolidation.Verdict.{lookup_or, to_text}
use memory_agent.Consolidation.Extraction.{judge, pin, process_extracted, process_turn}
use memory_agent.Prelude.{ℕ, ◌≡◌, refl, some, length, In}
use memory_agent.Action.{done}

abbrev claim : Text
claim = codes "I am allergic to nuts"

abbrev answer_text : Json ℕ → Text
answer_text x = codes "[]"

abbrev reading_env : Env ℕ
reading_env = record sample_env { loads = λ s. some (answer claim) }

abbrev claim_item : Item ℕ
claim_item = record { turn = sample_turn claim; t0_ref = codes "t0://s1/0"; user_id = alice }

process_turn_stub_example :
    (process_turn (with_stub answer_text length reading_env) claim_item sample_world
      ≡ process_extracted
          (with_stub answer_text length reading_env)
          claim_item.t0_ref
          alice
          session
          claim
          (to_dict (extracted_fields claim))
          (record sample_world { calls = 1 }))
    × (to_text
          (with_stub answer_text length reading_env)
          (lookup_or (codes "content") (str claim) (to_dict (extracted_fields claim)))
        ≡ claim)
    × IsPinned {F = ℕ}
        (is_safety_claim claim)
        (has_any stub_preference_keywords claim)
        (pin claim (to_dict (extracted_fields claim)))
unfolding memory_agent.Text.strip
process_turn_stub_example =
    process_turn_stub reading_env answer_text length claim_item sample_world refl

judge_stub_example :
    (verdict : Text) × In verdict verdicts
    × (judge (with_stub answer_text length sample_env) nuts (codes "eats nuts") sample_world
        ≡ done verdict (record sample_world { calls = 1 }))
unfolding memory_agent.Text.contains
judge_stub_example =
    judge_stub sample_env answer_text length nuts (codes "eats nuts") sample_world refl
