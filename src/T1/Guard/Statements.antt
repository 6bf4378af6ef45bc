-- ===== src/T1/Guard/Statements.antt =====
-- The statements of the store that write, under the invariant that a fixed id is guarded: what
-- each may do to it.
use memory_agent.T1.{
  Store, update, is_disallowed, is_refused, as_stored, insert_row, upsert_with_vector, update_row,
  record_params, supersede, insert_vector, assign_all, Field, owned_by, delete_vector, retire,
  set_rows, Knn, vector_search,
}
use memory_agent.Schema.{MemoryRecord}
use memory_agent.Text.{Text, text_eq}
use memory_agent.T1.Guard.{
  IsHarmless, insert_row-Guards, assign_all-IsGuarded, update_row-Guards, assign_all-id,
}
use memory_agent.Prelude.{
  ◌≡◌, refl, Bool, true, Option, none, some, List, [], ◌∷◌, All, ℕ, ◌≢◌, false, if◌then◌else◌, any,
  ◌&&◌, ◌==◌,
}
use memory_agent.Action.{Outcome, value_error, database_error, done, raised}
use memory_agent.Action.Triples.{Triple, Anything, Ends}
use memory_agent.Floats.{Floats}
use memory_agent.T1.Guard.Reads.{Guarded}

module _ {F : Type 0} ⦃fl : Floats F⦄ (id : Text) where
  pub update-Triple :
      (j : Text) (fs : List (Field F))
      → (j ≡ id → All IsHarmless fs)
      → Triple (Guarded id) (update j fs) Anything
  unfolding update
  update-Triple j [] h = record { from = λ t g. (g, tt) }
  update-Triple j (f ∷ fs) h = record {
    from = λ t g.
        step t g (any is_disallowed (f ∷ fs))
          (any is_refused (f ∷ fs) && any (λ r. r.id == j) t.rows);
  }
    where
      step :
          (t : Store F)
          → Guarded id t
          → (b c : Bool)
          → Ends (Guarded id) Anything (
              if b
              then raised value_error t
              else if c
              then raised database_error t
              else done tt (set_rows (update_row j (assign_all (f ∷ fs)) t.rows) t))
      step t g true c = g
      step t g false true = g
      step t g false false = (
        update_row-Guards id j (assign_all (f ∷ fs)) t.rows (assign_all-id (f ∷ fs))
            (λ p r k. assign_all-IsGuarded (f ∷ fs) r (h p) k) g,
        tt,
      )

  pub upsert_with_vector-Triple :
      (r : MemoryRecord F) (v : List F)
      → r.id ≢ id
      → Triple (Guarded id) (upsert_with_vector r v) Anything
  unfolding upsert_with_vector record_params
  upsert_with_vector-Triple r v n = record {
    from = λ t g. step t g (insert_vector r.id v t.dim t.vectors);
  }
    where
      step :
          (t : Store F)
          → Guarded id t
          → (o : Option (List (Text × List F)))
          → Ends (Guarded id) Anything (elim o as (λ _. Outcome (Store F) Unit) [
            | none ↦ raised database_error t
            | some vs ↦
                done tt (record t {
                  rows = insert_row (record_params (as_stored r)) t.rows;
                  vectors = vs;
                })
          ])
      step t g none = g
      step t g (some vs) = (insert_row-Guards id (record_params (as_stored r)) t.rows n g, tt)

  pub supersede-Triple :
      (now : ℕ) (old_id : Text) (r : MemoryRecord F) (v : List F)
      → old_id ≢ id
      → r.id ≢ id
      → Triple (Guarded id) (supersede now old_id r v) Anything
  unfolding supersede record_params
  supersede-Triple now old_id r v o n = record {
    from =
        λ t g. step t g (owned_by old_id r.user_id t.rows) (insert_vector r.id v t.dim t.vectors);
  }
    where
      step :
          (t : Store F)
          → Guarded id t
          → (b : Bool) → (p : Option (List (Text × List F)))
          → Ends (Guarded id) Anything (
              if b
              then (elim p as (λ _. Outcome (Store F) Unit) [
                | none ↦ raised database_error t
                | some vs ↦ done tt (record t {
                  rows =
                      insert_row
                        (record_params (as_stored r))
                        (update_row old_id (retire now r.id) t.rows);
                  vectors = vs;
                })
              ])
              else raised value_error t)
      step t g false p = g
      step t g true none = g
      step t g true (some vs) = (
        insert_row-Guards id (record_params (as_stored r)) _ n (
            update_row-Guards id old_id (retire now r.id) t.rows (λ q. refl) (λ p. absurd (o p)) g),
        tt,
      )

module _ {F : Type 0} (id : Text) where
  pub delete_vector-Triple : (j : Text) → Triple (Guarded {F = F} id) (delete_vector j) Anything
  unfolding delete_vector
  delete_vector-Triple j = record { from = λ t g. (g, tt) }

module _ {F : Type 0} ⦃fl : Floats F⦄ (id : Text) where
  pub vector_search-Triple :
      (knn : Knn F) (q : List F) (k : ℕ) (user : Text) (agent : Option Text)
      → Triple (Guarded id) (vector_search knn q k user agent) Anything
  unfolding vector_search
  vector_search-Triple knn q k user agent = record { from = λ t g. (g, tt) }
