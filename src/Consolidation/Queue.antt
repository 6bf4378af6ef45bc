-- ===== src/Consolidation/Queue.antt =====
-- The staging queue under a run: it is drained whole, and a run for one user processes the items
-- of that user only.
use memory_agent.Consolidation.{run, drain_queue, processed_user_ids, scoped, passes}
use memory_agent.Action.{
  Action, for_each, ◌>>=◌, Outcome, or_throw, provider_error, raised, then_do, return,
}
use memory_agent.Env.{Env}
use memory_agent.Text.{Text, text_eq}
use memory_agent.Floats.{Floats}
use memory_agent.World.{Item, ask, World}
use memory_agent.Consolidation.Extraction.{process_turn, extract_sentinel, process_extracted}
use memory_agent.Prelude.{
  ◌≡◌, refl, sym, ap, ◌∙◌, ◌≢◌, inl, inr, Option, some, List, [], ◌∷◌, ◌++◌, Bool-cases, ◌==◌,
  eq-false_of_ne, All, suc, none,
}
use memory_agent.Json.{dicts, arr}

module _ {F : Type 0} where
  abbrev pub emptied : World F → World F
  emptied w = record w { staging = [] }

  -- An item of somebody else.
  abbrev pub IsForeign : Text → Item F → Type 0
  IsForeign user i = i.user_id ≢ user

  pub scoped-foreign :
      (user : Text) (items : List (Item F))
      → All (IsForeign user) items
      → scoped (some user) items ≡ []
  scoped-foreign user [] h = refl
  scoped-foreign user (i ∷ items) h =
      rw (eq-false_of_ne i.user_id user h.0) (scoped-foreign user items h.1)

  scoped-append :
      (user : Text) (xs ys : List (Item F))
      → scoped (some user) (xs ++ ys) ≡ scoped (some user) xs ++ scoped (some user) ys
  scoped-append user [] ys = refl
  scoped-append user (x ∷ xs) ys = elim (Bool-cases (x.user_id == user)) [
    | inl e ↦ rw e (ap (λ zs. x ∷ zs) (scoped-append user xs ys))
    | inr e ↦ rw e (scoped-append user xs ys)
  ]

module _ {F : Type 0} ⦃fl : Floats F⦄ (env : Env F) where
  -- What `run` does with the items that it was given.
  abbrev run_items : Option Text → List (Item F) → Action (World F) (Unit {0})
  run_items user_id items = for_each items (process_turn env) >>= λ _. ask env.clock >>= λ now.
      for_each (env.set_order (processed_user_ids user_id items)) (passes env now)

  run-run_items :
      (user_id : Option Text) (w : World F)
      → run env user_id w ≡ run_items user_id (scoped user_id w.staging) (emptied w)
  unfolding run drain_queue
  run-run_items user_id w = refl

  -- A run for one user ends as if the staged turns of the others, wherever they stand in the queue,
  -- had never been staged: they are taken off the queue and nothing is done with them.
  pub run_discards :
      (user : Text) (w : World F) (before foreign behind : List (Item F))
      → All (IsForeign user) foreign
      → w.staging ≡ before ++ (foreign ++ behind)
      → run env (some user) w ≡ run env (some user) (record w { staging = before ++ behind })
  run_discards user w before foreign behind h e =
      run-run_items (some user) w
      ∙ ap (λ items. run_items (some user) items (emptied w)) same
      ∙ sym (run-run_items (some user) (record w { staging = before ++ behind }))
    where
      same : scoped (some user) w.staging ≡ scoped (some user) (before ++ behind)
      same =
          ap (scoped (some user)) e
          ∙ scoped-append user before (foreign ++ behind)
          ∙ ap (λ zs. scoped (some user) before ++ zs)
              (scoped-append user foreign behind
                ∙ ap (λ zs. zs ++ scoped (some user) behind) (scoped-foreign user foreign h))
          ∙ sym (scoped-append user before behind)

  -- A run in which the language model fails on the first turn raises its error. The queue is then
  -- empty, records, logs and vault are as they were, and no other turn has been looked at.
  pub run_loses :
      (user_id : Option Text) (w : World F) (i : Item F) (items : List (Item F))
      → scoped user_id w.staging ≡ i ∷ items
      → env.complete w.calls (extract_sentinel ++ b' ' ∷ i.turn.content) ≡ none
      → run env user_id w ≡ raised provider_error (record w { staging = []; calls = suc w.calls })
  unfolding for_each process_turn ask or_throw
  run_loses user_id w i items e fails =
      run-run_items user_id w
      ∙ ap (λ xs. run_items user_id xs (emptied w)) e
      ∙ ap (λ o. run_rest (or_throw provider_error o asked)) fails
    where
      asked : World F
      asked = record w { staging = []; calls = suc w.calls }

      parse : Text → Action (World F) (Unit {0})
      parse raw = elim (env.loads raw) [
        | some (arr xs) ↦
            for_each (dicts xs)
              (process_extracted env i.t0_ref i.user_id i.turn.session_id i.turn.content)
        | _ ↦ return tt
      ]

      run_rest : Outcome (World F) Text → Outcome (World F) Unit
      run_rest o =
          then_do
            (λ _. ask env.clock >>= λ now.
              for_each (env.set_order (processed_user_ids user_id (i ∷ items))) (passes env now))
            (then_do (λ _. for_each items (process_turn env)) (then_do parse o))
