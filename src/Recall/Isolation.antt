-- ===== src/Recall/Isolation.antt =====
-- What recall returns: live records of the user who asks, whatever the store holds.
use memory_agent.T1
use mathlib.Core.Path.{subst}
use memory_agent.Recall.{execute, turn_to_record, fit, synthesize, fetch, reinforce}
use memory_agent.Packer.Critical.{pack_records-In}
use memory_agent.Packer.Rank.{re_rank-In}
use memory_agent.T1.Guard.Reads.{make_record_inv}
use memory_agent.Action.{Outcome, read, validation_error, done, raised}
use memory_agent.Env.{Env}
use memory_agent.Schema.{MemoryRecord, new_record, Turn}
use memory_agent.Text.{Text, text_eq}
use memory_agent.Floats.{Floats}
use memory_agent.Packer.{re_rank}
use memory_agent.World.{World, embed, ask, at_t1}
use memory_agent.T1.{
  update, make_record, find_row, is_none, Store, Row, is_hit, nearer, fetch_one, vector_search,
}
use memory_agent.Action.Results.{Leads-always, Leads-bind, Leads, Leads-weaken, Leads-focus}
use memory_agent.Prelude.{
  ℕ, ◌≡◌, refl, sym, ap, ◌∙◌, true, Option, none, some, List, [], ◌∷◌, ◌++◌, arith, ◌==◌, eq_iff,
  In, All, In-filter_inv, All-append, All-In, All-intro,
}
use memory_agent.Prelude.Sort.{sort-In}

-- A live record of a user.
abbrev pub IsOwn : {F : Type 0} → Text → MemoryRecord F → Type 0
IsOwn user r = (r.user_id ≡ user) × (r.valid_until ≡ none)

is_none-none : (o : Option ℕ) → is_none o ≡ true → o ≡ none
is_none-none none h = refl
is_none-none (some n) h = cc

module _ {F : Type 0} (user : Text) where
  is_hit-IsOwn :
      (agent : Option Text) (r : Row F)
      → is_hit user agent (some r) ≡ true
      → (r.user_id ≡ user) × (r.valid_until ≡ none)
  is_hit-IsOwn none r h =
      let a : (r.user_id == user) ≡ true = ground arith in
      let b : is_none r.valid_until ≡ true = ground arith in
      ((eq_iff r.user_id user).0 a, is_none-none r.valid_until b)
  is_hit-IsOwn (some agent) r h =
      let a : (r.user_id == user) ≡ true = ground arith in
      let b : is_none r.valid_until ≡ true = ground arith in
      ((eq_iff r.user_id user).0 a, is_none-none r.valid_until b)

  make_record-IsOwn :
      (r : Row F) (m : MemoryRecord F)
      → (r.user_id ≡ user) × (r.valid_until ≡ none)
      → make_record r ≡ some m
      → IsOwn user m
  make_record-IsOwn r m h e =
      let inv = make_record_inv r m e in
      (
        ap (λ (x : MemoryRecord F). x.user_id) inv.2 ∙ h.0,
        ap (λ (x : MemoryRecord F). x.valid_until) inv.2 ∙ h.1,
      )

  abbrev IsOwnFound : Option (MemoryRecord F) → Type 0
  IsOwnFound none = Unit
  IsOwnFound (some m) = IsOwn user m

  -- A hit's record, in the state in which the search found it.
  get-IsOwn :
      (agent : Option Text) (id : Text) (t : Store F)
      → is_hit user agent (find_row id t.rows) ≡ true
      → Leads (λ o t'. IsOwnFound o × (t' ≡ t)) (T1.get id t)
  unfolding T1.get
  get-IsOwn agent id t h = step (find_row id t.rows) h
    where
      made :
          (r : Row F)
          → is_hit user agent (some r) ≡ true
          → (o : Option (MemoryRecord F)) → make_record r ≡ o
          → Leads
              (λ o t'. IsOwnFound o × (t' ≡ t))
              (elim o as (λ _. Outcome (Store F) (Option (MemoryRecord F))) [
                | none ↦ raised validation_error t
                | some m ↦ done (some m) t
              ])
      made r h none e = tt
      made r h (some m) e = (make_record-IsOwn r m (is_hit-IsOwn agent r h) e, refl)

      step :
          (o : Option (Row F))
          → is_hit user agent o ≡ true
          → Leads (λ o t'. IsOwnFound o × (t' ≡ t)) (fetch_one o t)
      step none h = (tt, refl)
      step (some r) h = made r h (make_record r) refl

module _ {F : Type 0} ⦃fl : Floats F⦄ (env : Env F) (user : Text) where
  abbrev AllHit : Option Text → Store F → List (Text × F) → Type 0
  AllHit agent t hits = All (λ h. is_hit user agent (find_row h.0 t.rows) ≡ true) hits

  vector_search-AllHit :
      (q : List F) (k : ℕ) (agent : Option Text) (t : Store F)
      → Leads (λ hits t'. AllHit agent t hits × (t' ≡ t)) (vector_search env.knn q k user agent t)
  unfolding vector_search
  vector_search-AllHit q k agent t = (
    All-intro _ _ (λ h i. (In-filter_inv _ h (env.knn q k t.vectors) (sort-In nearer h _ i)).1),
    refl,
  )

  fetch-IsOwn :
      (agent : Option Text) (hits : List (Text × F)) (w : World F)
      → AllHit agent w.t1 hits
      → Leads (λ rs w'. All (IsOwn user) rs) (fetch env hits w)
  unfolding fetch
  fetch-IsOwn agent [] w h = tt
  fetch-IsOwn agent ((id, d) ∷ hits) w h =
      let rest = fetch-IsOwn agent hits in
      Leads-bind _ (λ o w'. IsOwnFound user o × AllHit agent w'.t1 hits) (at_t1 (T1.get id) w) _
        (Leads-focus _ (λ x. x.t1) (λ t x. record x { t1 = t }) (T1.get id) w
          (Leads-weaken _ (λ o t. IsOwnFound user o × AllHit agent t hits) _
            (get-IsOwn user agent id w.t1 h.0)
            (λ o t p. (p.0, subst (λ s. AllHit agent s hits) (sym p.1) h.1))))
        (λ o w' p.
          Leads-bind _ _ (fetch env hits w') _ (rest w' p.1) (λ rs w'' q. joined o rs p.0 q))
    where
      joined :
          (o : Option (MemoryRecord F)) (rs : List (MemoryRecord F))
          → IsOwnFound user o
          → All (IsOwn user) rs
          → All
              (IsOwn user)
              (elim o as (λ _. List (MemoryRecord F)) [ none ↦ rs | some r ↦ r ∷ rs ])
      joined none rs p q = q
      joined (some r) rs p q = (p, q)

  synthesize-IsOwn :
      (ts : List (Turn F)) (w : World F)
      → Leads (λ rs w'. All (IsOwn user) rs) (synthesize env user ts w)
  unfolding synthesize turn_to_record new_record
  synthesize-IsOwn [] w = tt
  synthesize-IsOwn (t ∷ ts) w =
      let rest = synthesize-IsOwn ts in
      Leads-bind _ _ (ask env.clock w) _ (Leads-always _) (λ now w1 _.
        Leads-bind _ _ (synthesize env user ts w1) _ (rest w1) (λ rs w2 q. ((refl, refl), q)))

  reinforce-IsOwn :
      (now : ℕ) (rs : List (MemoryRecord F)) (w : World F)
      → All (IsOwn user) rs
      → Leads (λ rs w'. All (IsOwn user) rs) (reinforce env now rs w)
  unfolding reinforce
  reinforce-IsOwn now [] w h = tt
  reinforce-IsOwn now (r ∷ rs) w h =
      let rest = λ (v : World F). reinforce-IsOwn now rs v h.1 in
      Leads-bind _ _ (at_t1 (T1.update r.id _) w) _ (Leads-always _)
        (λ a w1 _. Leads-bind _ _ (reinforce env now rs w1) _ (rest w1) (λ qs w2 q. (h.0, q)))

  fit-In :
      (budget : Option ℕ) (a : MemoryRecord F) (rs : List (MemoryRecord F))
      → In a (fit env budget rs)
      → In a rs
  fit-In none a rs i = i
  fit-In (some n) a rs i = pack_records-In env.count_tokens n rs a i

  ranked-IsOwn :
      (budget : Option ℕ) (hits : List (Text × F)) (now : ℕ) (rs : List (MemoryRecord F))
      → All (IsOwn user) rs
      → All (IsOwn user) (fit env budget (re_rank rs hits now))
  ranked-IsOwn budget hits now rs h =
      All-intro _ _
        (λ a i. All-In _ rs h (re_rank-In hits now a rs (fit-In budget a (re_rank rs hits now) i)))

  -- Every record that recall returns belongs to the user who asks and is live, for every query,
  -- agent, limit and budget, and whatever other users have stored.
  pub execute-IsOwn :
      (query : Text) (agent_id : Option Text) (k : ℕ) (budget : Option ℕ) (w : World F)
      → Leads (λ rs w'. All (IsOwn user) rs) (execute env query user agent_id k budget w)
  unfolding execute read
  execute-IsOwn query agent_id k budget w =
      Leads-bind _ _ (embed env query w) _ (Leads-always _) (λ q w1 _.
        Leads-bind _ (λ hits w'. AllHit agent_id w'.t1 hits)
          (at_t1 (vector_search env.knn q k user agent_id) w1) _ (searched q w1)
          (λ hits w2 h.
            Leads-bind _ _ (fetch env hits w2) _ (fetch-IsOwn agent_id hits w2 h) (λ stored w3 s.
              Leads-bind _ _ (synthesize env user _ w3) _ (synthesize-IsOwn _ w3) (λ buffered w4 b.
                Leads-bind _ _ (ask env.clock w4) _ (Leads-always _) (λ now w5 _.
                  Leads-bind _ _ (reinforce env now stored w5) _ (reinforce-IsOwn now stored w5 s)
                    (λ rs w6 r.
                      ranked-IsOwn budget hits now (rs ++ buffered)
                        (All-append _ rs buffered r b)))))))
    where
      searched :
          (q : List F) (w1 : World F)
          → Leads
              (λ hits w'. AllHit agent_id w'.t1 hits)
              (at_t1 (vector_search env.knn q k user agent_id) w1)
      searched q w1 =
          Leads-focus _ (λ x. x.t1) (λ t x. record x { t1 = t })
            (vector_search env.knn q k user agent_id) w1
            (Leads-weaken _ (λ hits t. AllHit agent_id t hits) _
              (vector_search-AllHit q k agent_id w1.t1)
              (λ hits t p. subst (λ s. AllHit agent_id s hits) (sym p.1) p.0))
