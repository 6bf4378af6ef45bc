-- ===== src/Tests/Records.antt =====
-- The theorems on eviction and on provenance at concrete inputs.
use memory_agent.WritePath
use memory_agent.Prelude.Dict
use memory_agent.Samples.{
  alice, nuts, likes_tea, empty_world, sample_env, sample_store, sample_world, session, thousandths,
}
use memory_agent.Action.{final, done}
use memory_agent.Json.{as_texts}
use memory_agent.Classifier.{looks_like_durable_claim}
use memory_agent.Schema.{value, of_value, MemoryRecord}
use memory_agent.Decay.{decay_pass}
use memory_agent.Text.{Text, newline, codes, text_eq}
use memory_agent.LocalFs.{valid_id, contents, file_of}
use memory_agent.WritePath.{is_durable, is_safety_claim, Utterance}
use memory_agent.World.{World}
use memory_agent.T1.{
  has_vector, live_records, Row, upsert_with_vector, Store, make_record, insert_vector,
  record_params, make_records,
}
use memory_agent.Engine.{evict, expand}
use memory_agent.Engine.Provenance.{record_of, expand_remembered, remembered_world}
use memory_agent.Engine.Eviction.{IsEvicted, below, evict-IsEvicted}
use memory_agent.Prelude.{
  ℕ, ◌≡◌, refl, ◌≢◌, true, false, not, none, [], ◌∷◌, arith, eqb, eqb_iff, length, all, All, some,
}
use memory_agent.Env.{IsCodecOf}
use memory_agent.LocalFs.Lines.{joined}
use memory_agent.WritePath.Effects.{ref_at, turn_at}
use memory_agent.Prelude.Dict.{Dict}

abbrev odd_row : Row ℕ
odd_row = record (record_params likes_tea) { record_type = codes "whim" }

abbrev odd_world : World ℕ
odd_world = record empty_world { t1 = record { rows = odd_row ∷ []; vectors = []; dim = 1 } }

live_sample : live_records alice sample_store ≡ done (nuts ∷ likes_tea ∷ []) sample_store
unfolding live_records make_records make_record record_params of_value value as_texts
live_sample = refl

evict-IsEvicted_example :
    (w' : World ℕ) × (evict sample_env alice sample_world
      ≡ done (length (below sample_env 0 (decay_pass (nuts ∷ likes_tea ∷ []) 0))) w')
    × IsEvicted sample_env 0
        (below sample_env 0 (decay_pass (nuts ∷ likes_tea ∷ []) 0))
        sample_world
        w'
evict-IsEvicted_example =
    evict-IsEvicted sample_env alice sample_world (nuts ∷ likes_tea ∷ []) live_sample

abbrev tea : Utterance
tea = record {
  content = codes "I like tea";
  user_id = alice;
  session_id = session;
  agent_id = none;
  type_hint = none;
  durable = true;
}

tea-is_durable : is_durable tea ≡ true
unfolding is_safety_claim looks_like_durable_claim
tea-is_durable = refl

session_id_is_valid : valid_id session ≡ true
unfolding valid_id
session_id_is_valid = refl

abbrev tea_record : MemoryRecord ℕ
tea_record = record_of sample_env tea empty_world

abbrev tea_store : Store ℕ
tea_store = final (upsert_with_vector tea_record (1000 ∷ []) empty_world.t1)

tea_stored : upsert_with_vector tea_record (1000 ∷ []) empty_world.t1 ≡ done tt tea_store
unfolding upsert_with_vector insert_vector has_vector
tea_stored = refl

not_line_end : (c : ℕ) → eqb c newline ≡ false → c ≢ newline
not_line_end c p e = let t = (eqb_iff c newline).1 e in cc

all-not_line_end : (s : Text) → all (λ c. not (eqb c newline)) s ≡ true → All (λ c. c ≢ newline) s
all-not_line_end [] h = tt
all-not_line_end (c ∷ s) h =
    let this : eqb c newline ≡ false = ground arith in
    let rest : all (λ d. not (eqb d newline)) s ≡ true = ground arith in
    (not_line_end c this, all-not_line_end s rest)

tea_is_line : All (λ c. c ≢ newline) tea.content
tea_is_line = all-not_line_end tea.content refl

tea_codec : IsCodecOf sample_env (turn_at sample_env tea empty_world)
tea_codec = record { parse-dump = refl; dump_one_line = tea_is_line }

no_session_file : contents (file_of session) [] ≡ joined []
unfolding Dict.get
no_session_file = refl

expand_remembered_example :
    (WritePath.execute sample_env tea empty_world
      ≡ done
          (ref_at sample_env tea empty_world, some tea_record.id)
          (remembered_world sample_env tea empty_world tea_store))
    × (expand sample_env tea_record.id alice (remembered_world sample_env tea empty_world tea_store)
        ≡ done
            (some (turn_at sample_env tea empty_world))
            (remembered_world sample_env tea empty_world tea_store))
expand_remembered_example =
    expand_remembered sample_env tea empty_world (1000 ∷ []) tea_store [] session_id_is_valid
      tea-is_durable refl tea_stored tea_codec no_session_file tt
