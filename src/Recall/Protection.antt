-- ===== src/Recall/Protection.antt =====
-- A protected record among the hits of the search is in the result, whatever the budget.
use mathlib.Core.Path.{subst}
use memory_agent.T1.{get, find_row, fetch_one, update, Store, Row, make_record, vector_search}
use memory_agent.Recall.{accessed, fit, reinforce, fetch, execute, synthesize}
use memory_agent.Packer.Critical.{pack_records_keeps_protected}
use memory_agent.Action.{Outcome, validation_error, done, raised, read}
use memory_agent.Env.{Env}
use memory_agent.Schema.{MemoryRecord}
use memory_agent.Text.{Text}
use memory_agent.Floats.{Floats}
use memory_agent.World.{World, at_t1, ask, embed}
use memory_agent.Action.Results.{Leads-always, Leads, Leads-focus, Leads-bind}
use memory_agent.Prelude.{
  ℕ, ◌≡◌, refl, sym, ap, ◌∙◌, inl, inr, true, Option, none, some, List, [], ◌∷◌, In, ◌++◌,
  In-append_left,
}
use memory_agent.World.Runs.{embed-run}
use memory_agent.Packer.Rank.{In-re_rank}

module _ {F : Type 0} where
  fetch_one-same : (o : Option (Row F)) (t : Store F) → Leads (λ m t'. t' ≡ t) (fetch_one o t)
  fetch_one-same none t = refl
  fetch_one-same (some r) t = step (make_record r)
    where
      step :
          (o : Option (MemoryRecord F))
          → Leads
              (λ m t'. t' ≡ t)
              (elim o as (λ _. Outcome (Store F) (Option (MemoryRecord F))) [
                | none ↦ raised validation_error t
                | some m ↦ done (some m) t
              ])
      step none = tt
      step (some m) = refl

  -- A lookup that returns leaves the store.
  get-same : (id : Text) (t : Store F) → Leads (λ m t'. t' ≡ t) (get id t)
  unfolding get
  get-same id t = fetch_one-same (find_row id t.rows) t

module _ {F : Type 0} ⦃fl : Floats F⦄ (env : Env F) where
  at_t1-get-Leads :
      (id : Text) (w : World F) (o : Option (MemoryRecord F) → World F → Type 0)
      → Leads (λ m t. o m (record w { t1 = t })) (get id w.t1)
      → Leads o (at_t1 (get id) w)
  at_t1-get-Leads id w o h = Leads-focus o (λ x. x.t1) (λ t x. record x { t1 = t }) (get id) w h

  fetch-In :
      (r : MemoryRecord F) (d : F) (hits : List (Text × F)) (w : World F)
      → In (r.id, d) hits
      → get r.id w.t1 ≡ done (some r) w.t1
      → Leads (λ rs w'. In r rs) (fetch env hits w)
  unfolding fetch
  fetch-In r d [] w i g = absurd i
  fetch-In r d ((id, e) ∷ hits) w (inl p) g =
      let same : r.id ≡ id = ap (λ (z : Text × F). z.0) p in
      Leads-bind _ (λ m w'. m ≡ some r) (at_t1 (get id) w) _
        (at_t1-get-Leads id w (λ m w'. m ≡ some r)
          (subst (Leads (λ m t. m ≡ some r)) (sym g ∙ ap (λ j. get j w.t1) same) refl))
        (λ m w1 q. Leads-bind _ _ (fetch env hits w1) _ (Leads-always _) (λ rs w2 _. here m rs q))
    where
      here :
          (m : Option (MemoryRecord F)) (rs : List (MemoryRecord F))
          → m ≡ some r
          → In r (elim m as (λ _. List (MemoryRecord F)) [ none ↦ rs | some x ↦ x ∷ rs ])
      here none rs q = cc
      here (some x) rs q = inl (let z : r ≡ x = cc in z)
  fetch-In r d ((id, e) ∷ hits) w (inr i) g =
      let rest = fetch-In r d hits in
      Leads-bind _ (λ m w'. w'.t1 ≡ w.t1) (at_t1 (get id) w) _
        (at_t1-get-Leads id w (λ m w'. w'.t1 ≡ w.t1) (get-same id w.t1))
        (λ m w1 q.
          Leads-bind _ _ (fetch env hits w1) _
            (rest w1 i (subst (λ t. get r.id t ≡ done (some r) t) (sym q) g))
            (λ rs w2 k. there m rs k))
    where
      there :
          (m : Option (MemoryRecord F)) (rs : List (MemoryRecord F))
          → In r rs
          → In r (elim m as (λ _. List (MemoryRecord F)) [ none ↦ rs | some x ↦ x ∷ rs ])
      there none rs k = k
      there (some x) rs k = inr k

  pub reinforce-In :
      (now : ℕ) (r : MemoryRecord F) (rs : List (MemoryRecord F)) (w : World F)
      → In r rs
      → Leads (λ qs w'. In (accessed env now r) qs) (reinforce env now rs w)
  unfolding reinforce
  reinforce-In now r [] w i = absurd i
  reinforce-In now r (x ∷ rs) w (inl p) =
      Leads-bind _ _ (at_t1 (update x.id _) w) _ (Leads-always _) (λ a w1 _.
        Leads-bind _ _ (reinforce env now rs w1) _ (Leads-always _)
          (λ qs w2 _. inl (ap (accessed env now) p)))
  reinforce-In now r (x ∷ rs) w (inr i) =
      let rest = λ (v : World F). reinforce-In now r rs v i in
      Leads-bind _ _ (at_t1 (update x.id _) w) _ (Leads-always _)
        (λ a w1 _. Leads-bind _ _ (reinforce env now rs w1) _ (rest w1) (λ qs w2 k. inr k))

  fit_keeps :
      (budget : Option ℕ) (a : MemoryRecord F) (rs : List (MemoryRecord F))
      → a.protected ≡ true
      → In a rs
      → In a (fit env budget rs)
  fit_keeps none a rs h i = i
  fit_keeps (some n) a rs h i = pack_records_keeps_protected env.count_tokens n rs a i h

  -- If recall returns, a protected record that the search found and that T1 has is in the result,
  -- with this access counted, for every budget and whatever else was found.
  pub execute_keeps_protected :
      (query user : Text) (agent : Option Text) (k : ℕ) (budget : Option ℕ) (w : World F)
      → (q : List F) (hits : List (Text × F)) (r : MemoryRecord F) (d : F)
      → env.embed w.calls query ≡ some q
      → vector_search env.knn q k user agent w.t1 ≡ done hits w.t1
      → In (r.id, d) hits
      → get r.id w.t1 ≡ done (some r) w.t1
      → r.protected ≡ true
      → Leads
          (λ rs w'. (now : ℕ) × In (accessed env now r) rs)
          (execute env query user agent k budget w)
  unfolding execute read
  execute_keeps_protected query user agent k budget w q hits r d e s i g p =
      Leads-bind _ (λ v w'. (v ≡ q) × (w'.t1 ≡ w.t1)) (embed env query w) _
        (subst (Leads (λ v w'. (v ≡ q) × (w'.t1 ≡ w.t1))) (sym (embed-run env query w q e))
          (refl, refl))
        (λ v w1 a.
          Leads-bind _ (λ hs w'. (hs ≡ hits) × (w'.t1 ≡ w.t1))
            (at_t1 (vector_search env.knn v k user agent) w1) _ (searched v w1 a.0 a.1)
            (λ hs w2 b.
              Leads-bind _ (λ rs w'. In r rs) (fetch env hs w2) _
                (fetch-In r d hs w2 (subst (In (r.id, d)) (sym b.0) i)
                  (subst (λ t. get r.id t ≡ done (some r) t) (sym b.1) g))
                (λ stored w3 c.
                  Leads-bind _ _ (synthesize env user _ w3) _ (Leads-always _) (λ buffered w4 _.
                    Leads-bind _ (λ n w'. Unit) (ask env.clock w4) _ (Leads-always _)
                      (λ now w5 _.
                        Leads-bind _ (λ rs w'. In (accessed env now r) rs)
                          (reinforce env now stored w5) _ (reinforce-In now r stored w5 c)
                          (λ rs w6 m. (
                            now,
                            fit_keeps budget (accessed env now r) _ p (
                                In-re_rank hs now (accessed env now r) (rs ++ buffered)
                                  (In-append_left _ rs buffered m)),
                          )))))))
    where
      searched :
          (v : List F) (w1 : World F)
          → v ≡ q
          → w1.t1 ≡ w.t1
          → Leads
              (λ hs w'. (hs ≡ hits) × (w'.t1 ≡ w.t1))
              (at_t1 (vector_search env.knn v k user agent) w1)
      searched v w1 a b =
          Leads-focus (λ hs w'. (hs ≡ hits) × (w'.t1 ≡ w.t1)) (λ x. x.t1)
            (λ t x. record x { t1 = t }) (vector_search env.knn v k user agent) w1
            (subst (Leads (λ hs t. (hs ≡ hits) × (t ≡ w.t1)))
              (sym (
                ap (λ t. vector_search env.knn v k user agent t) b
                ∙ ap (λ z. vector_search env.knn z k user agent w.t1) a
                ∙ s))
              (refl, refl))
