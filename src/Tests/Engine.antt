-- ===== src/Tests/Engine.antt =====
-- The theorems on the engine at concrete calls.
use memory_agent.T1
use memory_agent.LocalFs
use memory_agent.WritePath
use memory_agent.Recall
use memory_agent.T1
use memory_agent.LocalFs
use memory_agent.WritePath
use memory_agent.Recall
use memory_agent.Recall.Isolation.{execute-IsOwn, IsOwn}
use memory_agent.Samples.{
  letters, alice, letters_injective, sample_env, empty_world, session, sample_store, nuts,
  sample_world, thousandths, sample_turn,
}
use memory_agent.Action.{final, write, or_throw, done}
use memory_agent.Text.{codes, Text, text_eq}
use memory_agent.LocalFs.{append, ref_of}
use memory_agent.WritePath.{
  resolve_record_type, write_provisional, provisional_record, is_safety_claim, Utterance,
}
use memory_agent.World.{new_turn, World, ask, fresh_record}
use memory_agent.T1.{
  upsert_with_vector, record_params, make_record, find_row, nearer, vector_search,
}
use memory_agent.Engine.{remember, Call, after_all, forgets, evicts, consolidates, forget}
use memory_agent.T1.Guard.{Guards}
use memory_agent.Engine.Safety.{safety_claim_kept}
use memory_agent.Text.Decimal.{show_ℕ}
use memory_agent.Prelude.{
  ℕ, ◌≤◌, ◌<◌, ◌≡◌, refl, ap, true, false, none, List, [], ◌∷◌, ◌++◌, get_elem?, ◌≢◌, Option, some,
  ne_of_eq-false, All, inl, In,
}
use memory_agent.Json.{as_texts}
use memory_agent.Schema.{value, of_value}
use memory_agent.World.Guard.{Keeps}
use memory_agent.Action.Results.{Leads}
use memory_agent.Engine.Ownership.{forget_refuses, refused}
use memory_agent.Engine.Guard.{after_all-Keeps}
use memory_agent.Recall.{accessed}
use memory_agent.Recall.Protection.{execute_keeps_protected}
use memory_agent.Prelude.Sort.{sort}
use memory_agent.Buffer.{as_candidates_for_user}
use memory_agent.Recall.Recent.{HasContent}
use memory_agent.Recall.Represents.{execute_represents}

abbrev allergy : Utterance
allergy = record {
  content = codes "I am allergic to nuts";
  user_id = alice;
  session_id = session;
  agent_id = none;
  type_hint = none;
  durable = false;
}

abbrev history : List Call
history = evicts alice ∷ consolidates none ∷ forgets (codes "r1") alice [] ∷ []

allergy-is_safety : is_safety_claim allergy.content ≡ true
unfolding is_safety_claim
allergy-is_safety = refl

abbrev world_after : World ℕ
world_after = final (remember sample_env allergy empty_world)

remembered : remember sample_env allergy empty_world ≡ done (codes "t0://s1/0") world_after
unfolding remember WritePath.execute new_turn fresh_record provisional_record write_provisional ask
    write or_throw LocalFs.append T1.upsert_with_vector is_safety_claim resolve_record_type show_ℕ
remembered = refl

safety_claim_kept_example :
    (n : ℕ) × (0 ≤ n)
    × (n < world_after.calls)
    × Guards (codes "mem_" ++ letters n) (after_all sample_env history world_after).t1.rows
safety_claim_kept_example =
    safety_claim_kept sample_env allergy allergy-is_safety letters_injective empty_world world_after
      (codes "t0://s1/0") remembered history

apart_tea : codes "r2" ≢ codes "r1"
apart_tea = ne_of_eq-false (codes "r2") (codes "r1") refl

mem_r1 : (m : ℕ) → codes "mem_" ++ letters m ≢ codes "r1"
mem_r1 m e = let t = ap (get_elem?_at 0) e in cc
  where
    get_elem?_at : ℕ → Text → Option ℕ
    get_elem?_at i s = get_elem? s i

nuts-Keeps : Keeps sample_env (codes "r1") sample_world
unfolding record_params
nuts-Keeps = ((refl, ((λ p. (refl, refl)), ((λ p. absurd (apart_tea p)), tt))), λ m le. mem_r1 m)

after_all-Keeps_example : Keeps sample_env (codes "r1") (after_all sample_env history sample_world)
after_all-Keeps_example = after_all-Keeps sample_env (codes "r1") history sample_world nuts-Keeps

IsOwn-recall :
    Leads
      (λ rs w'. All (IsOwn alice) rs)
      (Recall.execute sample_env (codes "nuts") alice none 5 (some 100) sample_world)
IsOwn-recall = execute-IsOwn sample_env alice (codes "nuts") none 5 (some 100) sample_world

found_nuts : T1.get (codes "r1") sample_store ≡ done (some nuts) sample_store
unfolding T1.get find_row make_record record_params of_value value as_texts
found_nuts = refl

forget_refuses_example :
    forget sample_env (codes "r1") alice [] sample_world ≡ refused sample_env sample_world
forget_refuses_example =
    forget_refuses sample_env (codes "r1") alice [] sample_world nuts found_nuts refl

nuts_found :
    vector_search sample_env.knn (1000 ∷ []) 5 alice none sample_world.t1
    ≡ done ((codes "r1", 0) ∷ (codes "r2", 0) ∷ []) sample_world.t1
unfolding vector_search sort nearer find_row record_params
nuts_found = refl

execute_keeps_protected_example :
    Leads
      (λ rs w'. (now : ℕ) × In (accessed sample_env now nuts) rs)
      (Recall.execute sample_env (codes "nuts") alice none 5 (some 1) sample_world)
execute_keeps_protected_example =
    execute_keeps_protected sample_env (codes "nuts") alice none 5 (some 1) sample_world (1000 ∷ [])
      ((codes "r1", 0) ∷ (codes "r2", 0) ∷ []) nuts 0 refl nuts_found (inl refl) found_nuts refl

abbrev talking_world : World ℕ
talking_world = record sample_world {
  buffer = record { k = 20; turns = ((alice, session), sample_turn (codes "hi") ∷ []) ∷ [] };
}

execute_represents_example :
    Leads
      (λ rs w'. HasContent (codes "hi") rs)
      (Recall.execute sample_env (codes "nuts") alice none 5 none talking_world)
unfolding as_candidates_for_user
execute_represents_example =
    execute_represents sample_env (codes "nuts") alice none 5 talking_world (1000 ∷ [])
      ((codes "r1", 0) ∷ (codes "r2", 0) ∷ []) (sample_turn (codes "hi")) refl nuts_found (inl refl)
      refl
