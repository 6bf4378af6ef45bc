-- ===== src/Tests/Stores.antt =====
-- The theorems on the stores and the write path at concrete inputs.
use memory_agent.Prelude.Dict
use memory_agent.T1
use memory_agent.Vault
use memory_agent.WritePath
use mathlib.Core.Option
use memory_agent.LocalFs.{append, get, append_line, file_of, Directory, ref_of, valid_id, contents}
use memory_agent.Samples.{
  empty_world, alice, session, sample_turn, sample_env, nuts, sample_store, thousandths, bob,
}
use memory_agent.Action.{final, value_error, done, raised, database_error}
use memory_agent.Classifier.{looks_like_durable_claim}
use memory_agent.Env.{IsCodecOf}
use memory_agent.Schema.{MemoryRecord, Turn}
use memory_agent.Buffer.{push, Buffer, as_candidates_for_user}
use memory_agent.Text.{newline, codes, Text, contains, text_eq, strip}
use memory_agent.WritePath.{Utterance, is_durable, is_safety_claim}
use memory_agent.T1.{
  supersede, upsert_with_vector, find_row, insert_vector, retire, record_params, has_vector,
  make_record, Store, Field, update, as_stored, is_disallowed,
}
use memory_agent.Text.Returns.{all-HasNoReturn, read_text, translated}
use memory_agent.Vault.{bullet_line, promote}
use memory_agent.LocalFs.History.{get-append, append_all}
use memory_agent.T1.RoundTrip.{get-upsert_with_vector, make_record-record_params}
use memory_agent.T1.Supersede.{IsAtomic, supersede-IsAtomic, supersede_links}
use memory_agent.WritePath.Effects.{ref_at, execute_ephemeral, execute_invalid, only_staged}
use memory_agent.Buffer.Bounded.{push-session_turns, session_turns}
use memory_agent.Vault.Promote.{model_of, promote_once}
use memory_agent.Prelude.{
  ℕ, ◌+◌, ◌-◌, ◌≡◌, refl, ◌≢◌, true, false, none, some, [], ◌∷◌, ◌++◌, arith, eqb, eqb_iff,
  ne_of_eq-false, length, drop, All, In, ◌&&◌, leb,
}
use memory_agent.LocalFs.Lines.{joined}
use memory_agent.Prelude.Dict.{Dict}
use memory_agent.Buffer.Users.{push_other_user, push_own_user}
use memory_agent.T1.Updates.{update-IsUpdate, IsUpdate}
use memory_agent.Floats.{Floats}

abbrev pub first_turn : Turn ℕ
first_turn = sample_turn (codes "hello")

abbrev pub second_turn : Turn ℕ
second_turn = sample_turn (codes "bye")

hello_is_line : All (λ c. c ≢ newline) (codes "hello")
hello_is_line = (ne 104 refl, (ne 101 refl, (ne 108 refl, (ne 108 refl, (ne 111 refl, tt)))))
  where
    ne : (c : ℕ) → eqb c newline ≡ false → c ≢ newline
    ne c e p = let t = (eqb_iff c newline).1 p in cc

bye_is_line : All (λ c. c ≢ newline) (codes "bye")
bye_is_line = (ne 98 refl, (ne 121 refl, (ne 101 refl, tt)))
  where
    ne : (c : ℕ) → eqb c newline ≡ false → c ≢ newline
    ne c e p = let t = (eqb_iff c newline).1 p in cc

pub sample_codec : All (IsCodecOf sample_env) (first_turn ∷ second_turn ∷ [])
sample_codec = (
  record { parse-dump = refl; dump_one_line = hello_is_line },
  (record { parse-dump = refl; dump_one_line = bye_is_line }, tt),
)

session_is_valid : valid_id session ≡ true
unfolding valid_id
session_is_valid = refl

no_file : contents (file_of session) [] ≡ joined []
unfolding Dict.get
no_file = refl

get-append_example :
    (append sample_env session first_turn []
      ≡ done (ref_of session 0) (append_line (file_of session) (codes "hello") []))
    × (get sample_env
          (ref_of session 0)
          (append_all sample_env session (first_turn ∷ second_turn ∷ []) [])
        ≡ done first_turn (append_all sample_env session (first_turn ∷ second_turn ∷ []) []))
get-append_example =
    get-append sample_env session first_turn (second_turn ∷ []) [] [] sample_codec session_is_valid
      no_file tt

abbrev new_nuts : MemoryRecord ℕ
new_nuts = record nuts { id = codes "r3" }

supersede-IsAtomic_example :
    IsAtomic 9
      (codes "r2")
      new_nuts
      (1000 ∷ [])
      sample_store
      (supersede 9 (codes "r2") new_nuts (1000 ∷ []) sample_store)
supersede-IsAtomic_example = supersede-IsAtomic 9 (codes "r2") new_nuts (1000 ∷ []) sample_store

abbrev superseded : Store ℕ
superseded = final (supersede 9 (codes "r2") new_nuts (1000 ∷ []) sample_store)

superseded_done : supersede 9 (codes "r2") new_nuts (1000 ∷ []) sample_store ≡ done tt superseded
unfolding supersede insert_vector has_vector record_params
superseded_done = refl

supersede_links_example :
    (find_row (codes "r2") superseded.rows
      ≡ Option.map (retire 9 (codes "r3")) (find_row (codes "r2") sample_store.rows))
    × (T1.get (codes "r3") superseded ≡ done (some new_nuts) superseded)
supersede_links_example =
    supersede_links 9 (codes "r2") new_nuts (1000 ∷ []) sample_store superseded superseded_done
      (ne_of_eq-false (codes "r3") (codes "r2") refl)

record_round_trip : make_record (record_params nuts) ≡ some nuts
record_round_trip = make_record-record_params nuts

abbrev stored : Store ℕ
stored = final (upsert_with_vector new_nuts (1000 ∷ []) sample_store)

stored_done : upsert_with_vector new_nuts (1000 ∷ []) sample_store ≡ done tt stored
unfolding upsert_with_vector insert_vector has_vector record_params
stored_done = refl

get-upsert_with_vector_example :
    (T1.get (codes "r3") stored ≡ done (some new_nuts) stored)
    × ((id : Text) → codes "r3" ≢ id → find_row id stored.rows ≡ find_row id sample_store.rows)
get-upsert_with_vector_example =
    get-upsert_with_vector new_nuts (1000 ∷ []) sample_store stored stored_done

abbrev small_talk : Utterance
small_talk = record {
  content = codes "ok thanks";
  user_id = alice;
  session_id = session;
  agent_id = none;
  type_hint = none;
  durable = false;
}

small_talk_passes : is_durable small_talk ≡ false
unfolding is_safety_claim looks_like_durable_claim
small_talk_passes = refl

execute_ephemeral_example :
    WritePath.execute sample_env small_talk empty_world
    ≡ done
        (ref_at sample_env small_talk empty_world, none)
        (only_staged sample_env small_talk empty_world)
execute_ephemeral_example =
    execute_ephemeral sample_env small_talk empty_world session_is_valid small_talk_passes

abbrev astray : Utterance
astray = record small_talk { session_id = codes "../x" }

astray_is_invalid : valid_id (codes "../x") ≡ false
unfolding valid_id
astray_is_invalid = refl

execute_invalid_example :
    WritePath.execute sample_env astray empty_world
    ≡ raised value_error (record empty_world { calls = 2 })
execute_invalid_example = execute_invalid sample_env astray empty_world astray_is_invalid

alice_is_valid : valid_id alice ≡ true
unfolding valid_id
alice_is_valid = refl

promote_once_example :
    (d' : Directory) × (Vault.promote nuts [] ≡ done tt d')
    × (contains (model_of alice d') (bullet_line nuts) ≡ true)
    × (Vault.promote nuts d' ≡ done tt d')
unfolding memory_agent.Text.strip
promote_once_example = promote_once nuts [] alice_is_valid (all-HasNoReturn (bullet_line nuts) refl)

abbrev full_buffer : Buffer ℕ
full_buffer = record { k = 1; turns = ((alice, session), first_turn ∷ []) ∷ [] }

push_example :
    session_turns alice session (push second_turn session alice full_buffer)
    ≡ drop
        (length (session_turns alice session full_buffer) + 1 - 1)
        (session_turns alice session full_buffer)
      ++ second_turn ∷ []
push_example = push-session_turns second_turn session alice full_buffer (omega arith)

push_other_user_example :
    as_candidates_for_user bob (push second_turn session alice full_buffer)
    ≡ as_candidates_for_user bob full_buffer
push_other_user_example =
    push_other_user second_turn session alice bob full_buffer (ne_of_eq-false alice bob refl)

push_own_user_example :
    In second_turn (as_candidates_for_user alice (push second_turn session alice full_buffer))
push_own_user_example = push_own_user second_turn session alice full_buffer (omega arith)

update-IsUpdate_example :
    IsUpdate
      (codes "r1")
      (Field.access_count 3 ∷ [])
      sample_store
      (update (codes "r1") (Field.access_count 3 ∷ []) sample_store)
update-IsUpdate_example = update-IsUpdate (codes "r1") (Field.access_count 3 ∷ []) sample_store

-- Thousandths with 0 as NaN.
abbrev nan_thousandths : Floats ℕ
nan_thousandths = record thousandths { le = λ x y. leb 1 x && leb x y }

update_nan :
    update ⦃fl = nan_thousandths⦄ (codes "r1") (Field.salience 0 ∷ []) sample_store
    ≡ raised database_error sample_store
unfolding update is_disallowed record_params
update_nan = refl

stored_nan :
    (as_stored ⦃fl = nan_thousandths⦄ (record nuts { salience = 0; confidence = 0 })).salience ≡ 500
stored_nan = refl

-- Carriage returns, alone and before a newline, are read as newlines.
read_returns : read_text (13 ∷ 10 ∷ 97 ∷ 13 ∷ []) ≡ 10 ∷ 97 ∷ 10 ∷ []
unfolding read_text translated
read_returns = refl
