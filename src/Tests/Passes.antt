-- ===== src/Tests/Passes.antt =====
-- The theorems on consolidation, decay and migration at concrete inputs.
use memory_agent.Consolidation
use memory_agent.Samples.{
  sample_world, bob, thousandths-IsComparable, alice, sample_turn, sample_env, nuts, likes_tea,
  sample_store, thousandths, HasNoNewline-test,
}
use memory_agent.Schema.{MemoryRecord, of_value}
use memory_agent.Decay.{keep_score, decay_pass}
use memory_agent.Text.{Text, codes, text_eq, newline, strip}
use memory_agent.Migrate.{migrate_embedder}
use memory_agent.World.{Item, World}
use memory_agent.T1.{make_records, has_vector, record_params}
use memory_agent.Consolidation.{run, passes}
use memory_agent.Consolidation.Queue.{run_discards, run_loses}
use memory_agent.Action.Results.{Leads}
use memory_agent.Decay.Score.{keep_score_bounds, decay_pass_exact}
use memory_agent.Action.{final, provider_error, raised}
use memory_agent.Json.{Json, as_texts}
use memory_agent.LocalFs.{Directory, valid_id}
use memory_agent.Consolidation.Passes.{is_promotable}
use memory_agent.Consolidation.Promotion.{IsInVault}
use memory_agent.Consolidation.Promotion.First.{passes-IsInVault}
use memory_agent.Vault.Keeps.{bullet_text}
use memory_agent.Vault.{bullet_line}
use memory_agent.Text.Returns.{all-HasNoReturn}
use memory_agent.Migrate.Coverage.{migrate_embedder-IsCovered, is_wanted}
use memory_agent.Prelude.{
  ℕ, ◌≡◌, refl, true, false, none, some, List, [], ◌∷◌, leb, ne_of_eq-false, length, filter, In,
  All,
}
use memory_agent.Env.{Env}

abbrev item_of : Text → Item ℕ
item_of user = record {
  turn = sample_turn (codes "hi");
  t0_ref = codes "t0://s1/0";
  user_id = user;
}

abbrev queued_world : World ℕ
queued_world = record sample_world { staging = item_of alice ∷ item_of bob ∷ [] }

run_discards_example :
    Consolidation.run sample_env (some alice) queued_world
    ≡ Consolidation.run sample_env
        (some alice)
        (record queued_world { staging = item_of alice ∷ [] })
run_discards_example =
    run_discards sample_env alice queued_world (item_of alice ∷ []) (item_of bob ∷ []) []
      (ne_of_eq-false bob alice refl, tt) refl

keep_score_bounds_example :
    (leb 0 (keep_score nuts 5) ≡ true) × (leb (keep_score nuts 5) 1000 ≡ true)
keep_score_bounds_example = keep_score_bounds thousandths-IsComparable nuts 5

decay_pass_exact_example :
    All
      (λ p. In p.0 (nuts ∷ likes_tea ∷ []) × (p.0.protected ≡ false) × (p.1 ≡ keep_score p.0 5))
      (decay_pass (nuts ∷ likes_tea ∷ []) 5)
    × ((r : MemoryRecord ℕ)
        → In r (nuts ∷ likes_tea ∷ [])
        → r.protected ≡ false
        → In (r, keep_score r 5) (decay_pass (nuts ∷ likes_tea ∷ []) 5))
decay_pass_exact_example = decay_pass_exact (nuts ∷ likes_tea ∷ []) 5

migrate_example :
    Leads
      (λ n w'.
        (rs : List (MemoryRecord ℕ)) × (make_records (filter (is_wanted none) sample_store.rows)
          ≡ some rs)
        × (n ≡ length rs)
        × (w'.t1.rows ≡ sample_store.rows)
        × (w'.t1.dim ≡ 1)
        × All (λ r. has_vector r.id w'.t1.vectors ≡ true) rs)
      (migrate_embedder sample_env none sample_world)
migrate_example = migrate_embedder-IsCovered sample_env none sample_world

passes-IsInVault_example :
    (d' : Directory) × ((final (passes sample_env 5 alice sample_world)).vault ≡ some d')
    × All (IsInVault alice d') (filter is_promotable (nuts ∷ likes_tea ∷ []))
unfolding memory_agent.LocalFs.valid_id make_records memory_agent.T1.record_params
    memory_agent.Schema.of_value memory_agent.Json.as_texts memory_agent.Text.strip
passes-IsInVault_example =
    passes-IsInVault sample_env 5 alice sample_world [] (nuts ∷ likes_tea ∷ []) refl refl refl (
      (HasNoNewline-test (bullet_text nuts) refl, all-HasNoReturn (bullet_line nuts) refl),
      (
        (
          HasNoNewline-test (bullet_text likes_tea) refl,
          all-HasNoReturn (bullet_line likes_tea) refl,
        ),
        tt,
      ),
    )

abbrev failing_env : Env ℕ
failing_env = record sample_env { complete = λ n s. none }

run_loses_example :
    Consolidation.run failing_env none queued_world
    ≡ raised provider_error (record queued_world { staging = []; calls = 1 })
run_loses_example =
    run_loses failing_env none queued_world (item_of alice) (item_of bob ∷ []) refl refl
