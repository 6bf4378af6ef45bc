-- ===== src/Migrate/Coverage.antt =====
-- What a migration leaves: the records as they were, and a vector for each.
use mathlib.Core.Path.{subst}
use memory_agent.Action.{
  Outcome, database_error, done, raised, or_throw, validation_error, provider_error, throw, ◌>>=◌,
  when, read, return,
}
use memory_agent.Text.{Text, text_eq}
use memory_agent.T1.{
  drop_vector, Store, insert_vector, has_vector, upsert_vector, Row, make_records,
  recreate_vector_store, is_live, live_stream, all_live_stream,
}
use memory_agent.Action.Results.{Leads, Leads-focus, Leads-bind, Leads-weaken}
use memory_agent.Prelude.{
  ◌≡◌, refl, sym, ◌∙◌, ◌≢◌, inl, inr, Bool, true, false, ◌||◌, none, some, List, [], ◌∷◌, ◌++◌,
  arith, eqb, if◌then◌else◌, Bool-cases, ◌==◌, eq_iff, eq_refl, eq-false_of_ne, length, ℕ, suc, ◌+◌,
  ap, ◌&&◌, Option, filter, All,
}
use memory_agent.Env.{Env}
use memory_agent.Schema.{MemoryRecord}
use memory_agent.Migrate.{records_of, reindex_each, embedded_text, reindex_all, migrate_embedder}
use memory_agent.World.{at_t1, World, embed, ask}
use memory_agent.T1.Stream.{yielded_whole}
use memory_agent.T1.Rows.{fetches, yielded}

module _ {F : Type 0} where
  has_vector-append :
      (id : Text) (xs ys : List (Text × List F))
      → has_vector id (xs ++ ys) ≡ (has_vector id xs || has_vector id ys)
  unfolding has_vector
  has_vector-append id [] ys = refl
  has_vector-append id ((j, v) ∷ xs) ys = ground (arith, has_vector-append id xs ys)

  has_vector-drop_vector :
      (id j : Text) (vs : List (Text × List F))
      → j ≢ id
      → has_vector id (drop_vector j vs) ≡ has_vector id vs
  unfolding has_vector drop_vector
  has_vector-drop_vector id j [] h = refl
  has_vector-drop_vector id j ((k, v) ∷ vs) h = elim (Bool-cases (k == j)) [
    | inl e ↦
        let same = (eq_iff k j).0 e in
        let other = eq-false_of_ne k id (λ p. h (sym same ∙ p)) in
        rw (e, other) (has_vector-drop_vector id j vs h)
    | inr e ↦ rw e (ground (arith, has_vector-drop_vector id j vs h))
  ]

  -- What one step of the loop keeps: rows, width, and the vectors of the other records.
  abbrev IsIndexed : Text → Store F → Store F → Type 0
  IsIndexed id t t' =
      (t'.rows ≡ t.rows)
      × (t'.dim ≡ t.dim)
      × (has_vector id t'.vectors ≡ true)
      × ((j : Text) → has_vector j t.vectors ≡ true → has_vector j t'.vectors ≡ true)

  put_vector-has :
      (id : Text) (v : List F) (vs : List (Text × List F))
      → has_vector id (drop_vector id vs ++ (id, v) ∷ []) ≡ true
  unfolding has_vector
  put_vector-has id v vs =
      has_vector-append id (drop_vector id vs) ((id, v) ∷ []) ∙ ground (arith, eq_refl id)

  put_vector-keeps :
      (id j : Text) (v : List F) (vs : List (Text × List F))
      → has_vector j vs ≡ true
      → has_vector j (drop_vector id vs ++ (id, v) ∷ []) ≡ true
  unfolding has_vector
  put_vector-keeps id j v vs h = elim (Bool-cases (id == j)) [
    | inl e ↦
        let same = (eq_iff id j).0 e in
        subst (λ x. has_vector x (drop_vector id vs ++ (id, v) ∷ []) ≡ true) same
          (put_vector-has id v vs)
    | inr e ↦
        let apart : id ≢ j = λ p. let t = (eq_iff id j).1 p in cc in
        has_vector-append j (drop_vector id vs) ((id, v) ∷ [])
        ∙ ground (arith, has_vector-drop_vector j id vs apart, h)
  ]

  upsert_vector-IsIndexed :
      (id : Text) (v : List F) (t : Store F)
      → Leads (λ a t'. IsIndexed id t t') (upsert_vector id v t)
  unfolding upsert_vector insert_vector
  upsert_vector-IsIndexed id v t =
      step (has_vector id (drop_vector id t.vectors)) (eqb (length v) t.dim)
    where
      step :
          (b c : Bool)
          → Leads
              (λ a t'. IsIndexed id t t')
              (elim (if b
                  then none
                  else if c
                  then some (drop_vector id t.vectors ++ (id, v) ∷ [])
                  else none)
                as (λ _. Outcome (Store F) Unit) [
                  | none ↦ raised database_error (record t { vectors = drop_vector id t.vectors })
                  | some vs ↦ done tt (record t { vectors = vs })
                ])
      step true c = tt
      step false false = tt
      step false true =
          (refl, refl, put_vector-has id v t.vectors, λ j h. put_vector-keeps id j v t.vectors h)

  -- The rows that a migration of one user, or of all, reads.
  abbrev pub is_wanted : Option Text → Row F → Bool
  is_wanted none r = is_live r
  is_wanted (some user) r = r.user_id == user && is_live r

  abbrev stream_of : Option Text → Store F → List (MemoryRecord F) × Bool
  stream_of user t = yielded (fetches 64 (filter (is_wanted user) t.rows))

  records_of-Leads :
      (env : Env F) (user : Option Text) (t : Store F)
      → Leads (λ y t'. (t' ≡ t) × (y ≡ stream_of user t)) (records_of env user t)
  unfolding all_live_stream live_stream read
  records_of-Leads env none t = (refl, refl)
  records_of-Leads env (some user) t = (refl, refl)

module _ {F : Type 0} (env : Env F) where
  -- The state after the re-embedding of some records.
  abbrev pub IsCovered : List (MemoryRecord F) → Store F → Store F → Type 0
  IsCovered rs t t' =
      (t'.rows ≡ t.rows)
      × (t'.dim ≡ t.dim)
      × All (λ r. has_vector r.id t'.vectors ≡ true) rs
      × ((j : Text) → has_vector j t.vectors ≡ true → has_vector j t'.vectors ≡ true)

  embed-t1 : (s : Text) (w : World F) → Leads (λ v w'. w'.t1 ≡ w.t1) (embed env s w)
  unfolding ask or_throw
  embed-t1 s w = step (env.embed w.calls s)
    where
      step :
          (o : Option (List F))
          → Leads
              (λ v w'. w'.t1 ≡ w.t1)
              (or_throw provider_error o (record w { calls = suc w.calls }))
      step none = tt
      step (some v) = refl

  IsCovered-cons :
      (r : MemoryRecord F) (rs : List (MemoryRecord F)) (t t1 t2 : Store F)
      → IsIndexed r.id t t1
      → IsCovered rs t1 t2
      → IsCovered (r ∷ rs) t t2
  IsCovered-cons r rs t t1 t2 a b =
      (b.0 ∙ a.0, b.1 ∙ a.1, (b.3 r.id a.2, b.2), λ j h. b.3 j (a.3 j h))

  reindex_each-IsCovered :
      (rs : List (MemoryRecord F)) (count : ℕ) (w : World F)
      → Leads
          (λ n w'. (n ≡ count + length rs) × IsCovered rs w.t1 w'.t1)
          (reindex_each env rs count w)
  unfolding reindex_each
  reindex_each-IsCovered [] count w = (omega arith, (refl, refl, tt, λ j h. h))
  reindex_each-IsCovered (r ∷ rs) count w =
      let rest = λ (u : World F). reindex_each-IsCovered rs (count + 1) u in
      Leads-bind _ _ (embed env (embedded_text env r) w) _ (embed-t1 (embedded_text env r) w)
        (λ v w1 e.
          Leads-bind _ (λ a u. IsIndexed r.id w1.t1 u.t1) (at_t1 (upsert_vector r.id v) w1) _
            (Leads-focus _ (λ x. x.t1) (λ t x. record x { t1 = t }) (upsert_vector r.id v) w1
              (upsert_vector-IsIndexed r.id v w1.t1))
            (λ a w2 i. Leads-weaken _ _ (reindex_each env rs (count + 1) w2) (rest w2) (λ n w3 c. (
              (let q = c.0 in omega (arith, q)),
              subst (λ t. IsCovered (r ∷ rs) t w3.t1) e
                  (IsCovered-cons r rs w1.t1 w2.t1 w3.t1 i c.1),
            ))))

  -- A migration that returns read every live record (of the user, if one is named), left the rows
  -- as they were, set the index to the width of the new embedder, put a vector into it for each of
  -- these records, and returns their number.
  pub migrate_embedder-IsCovered :
      (user : Option Text) (w : World F)
      → Leads
          (λ n w'.
            (rs : List (MemoryRecord F)) × (make_records (filter (is_wanted user) w.t1.rows)
              ≡ some rs)
            × (n ≡ length rs)
            × (w'.t1.rows ≡ w.t1.rows)
            × (w'.t1.dim ≡ env.embedder_dim)
            × All (λ r. has_vector r.id w'.t1.vectors ≡ true) rs)
          (migrate_embedder env user w)
  unfolding migrate_embedder reindex_all recreate_vector_store
  migrate_embedder-IsCovered user w =
      Leads-bind _ (λ y u. (u.t1 ≡ fresh) × (y ≡ stream_of user fresh))
        (at_t1 (records_of env user) (record w { t1 = fresh })) _
        (Leads-focus _ (λ x. x.t1) (λ t x. record x { t1 = t }) (records_of env user)
          (record w { t1 = fresh }) (records_of-Leads env user fresh))
        (λ y w1 p.
          Leads-bind _ _ (reindex_each env y.0 0 w1) _ (reindex_each-IsCovered y.0 0 w1) (λ n w2 c.
            finished y p.1 n w2 (
              c.0,
              c.1.0 ∙ ap (λ (t : Store F). t.rows) p.0,
              c.1.1 ∙ ap (λ (t : Store F). t.dim) p.0,
              c.1.2,
            )))
    where
      fresh : Store F
      fresh = record w.t1 { vectors = []; dim = env.embedder_dim }

      covered :
          (y : List (MemoryRecord F) × Bool)
          → y ≡ stream_of user fresh
          → y.1 ≡ false
          → make_records (filter (is_wanted user) w.t1.rows) ≡ some y.0
      covered y e b =
          yielded_whole 64 (filter (is_wanted user) w.t1.rows) (sym (ap (λ z. z.1) e) ∙ b)
          ∙ ap (λ z. some z.0) (sym e)

      -- A loop over a generator returns only if the generator ended.
      finished :
          (y : List (MemoryRecord F) × Bool)
          → y ≡ stream_of user fresh
          → (n : ℕ) (u : World F)
          → (n ≡ 0 + length y.0)
            × (u.t1.rows ≡ w.t1.rows)
            × (u.t1.dim ≡ env.embedder_dim)
            × All (λ r. has_vector r.id u.t1.vectors ≡ true) y.0
          → Leads
              (λ m w'.
                (rs : List (MemoryRecord F)) × (make_records (filter (is_wanted user) w.t1.rows)
                  ≡ some rs)
                × (m ≡ length rs)
                × (w'.t1.rows ≡ w.t1.rows)
                × (w'.t1.dim ≡ env.embedder_dim)
                × All (λ r. has_vector r.id w'.t1.vectors ≡ true) rs)
              ((when y.1 (throw validation_error) >>= λ _. return n) u)
      finished (rs, true) e n u h = tt
      finished (rs, false) e n u h =
          (rs, covered (rs, false) e refl, (let q = h.0 in omega (arith, q)), h.1, h.2, h.3)
