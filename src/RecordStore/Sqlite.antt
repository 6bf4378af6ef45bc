-- ===== src/RecordStore/Sqlite.antt =====
-- src/mnema/adapters/vector_store/sqlite_t1.py: the writes refine those of a table by ids.
use memory_agent.T1
use mathlib.Core.Path.{subst}
use mathlib.Core.Option
use memory_agent.T1.Supersede.{IsAtomic, supersede-IsAtomic}
use memory_agent.RecordStore.{
  written, Refined, Holds, change, Records, sqlite_write, sqlite_stored, Write, puts, puts_vector,
  supersedes, updates,
}
use memory_agent.Action.{Outcome, write, value_error, database_error, done, raised}
use memory_agent.Floats.{Floats}
use memory_agent.Text.{Text, text_eq}
use memory_agent.T1.{
  record_params, Store, insert_vector, retire, update_row, insert_row, is_disallowed, assign_all,
  set_rows, Row, as_stored,
}
use memory_agent.RecordStore.Rows.{update_row-Holds, insert_row-Holds}
use memory_agent.T1.Guard.{assign_all-id}
use memory_agent.T1.Updates.{map_same, is_violation}
use memory_agent.Prelude.{
  ◌≡◌, refl, sym, ◌∙◌, Bool, true, false, Option, none, some, List, [], ◌∷◌, if◌then◌else◌, ◌==◌,
  any,
}

module _ {F : Type 0} where
  -- No assignment changes nothing.
  pub Holds-unchanged :
      (id : Text) (m : Records F) (rs : List (Row F))
      → Holds m rs
      → Holds (change id (assign_all []) m) rs
  Holds-unchanged id m rs h = (h.0, λ j. h.1 j ∙ step (id == j) j)
    where
      step : (b : Bool) (j : Text) → m j ≡ (if b then Option.map (assign_all []) (m j) else m j)
      step true j = map_same id (m j)
      step false j = refl

module _ {F : Type 0} ⦃fl : Floats F⦄ where
  -- Every write of SqliteT1 on rows that hold a table, with unique ids: where it raises, the rows
  -- hold the same table; where it returns, they hold the table that the write makes, with the
  -- column's default for a salience or confidence of its record that is no number. All other ids
  -- have their rows in it, and no other.
  pub sqlite_refines :
      (w : Write F) (m : Records F) (t : Store F)
      → Holds m t.rows
      → Refined (λ s. s.rows) (sqlite_stored w) m (sqlite_write w t)
  unfolding T1.upsert T1.update T1.upsert_with_vector write
  sqlite_refines (puts r) m t h = insert_row-Holds (record_params (as_stored r)) m t.rows h
  sqlite_refines (puts_vector r v) m t h = step (insert_vector r.id v t.dim t.vectors)
    where
      step :
          (o : Option (List (Text × List F)))
          → Refined
              (λ s. s.rows)
              (puts_vector (as_stored r) v)
              m
              (elim o as (λ _. Outcome (Store F) Unit) [
                | none ↦ raised database_error t
                | some vs ↦ done tt (record t {
                  rows = insert_row (record_params (as_stored r)) t.rows;
                  vectors = vs;
                })
              ])
      step none = h
      step (some vs) = insert_row-Holds (record_params (as_stored r)) m t.rows h
  sqlite_refines (supersedes now old_id new v) m t h =
      step (T1.supersede now old_id new v t) (supersede-IsAtomic now old_id new v t)
    where
      step :
          (o : Outcome (Store F) (Unit {0}))
          → IsAtomic now old_id new v t o
          → Refined (λ s. s.rows) (supersedes now old_id (as_stored new) v) m o
      step (raised e t') a = subst (λ (x : Store F). Holds m x.rows) (sym a) h
      step (done a t') q =
          subst (Holds (written (supersedes now old_id (as_stored new) v) m)) (sym q.1) (
            insert_row-Holds (record_params (as_stored new)) (change old_id (retire now new.id) m) _
              (update_row-Holds old_id (retire now new.id) m t.rows (λ r. refl) h))
  sqlite_refines (updates id []) m t h = Holds-unchanged id m t.rows h
  sqlite_refines (updates id (f ∷ fs)) m t h =
      step (any is_disallowed (f ∷ fs)) (is_violation id (f ∷ fs) t)
    where
      step :
          (b c : Bool)
          → Refined
              (λ s. s.rows)
              (updates id (f ∷ fs))
              m
              (if b
                then raised value_error t
                else if c
                then raised database_error t
                else done tt (set_rows (update_row id (assign_all (f ∷ fs)) t.rows) t))
      step true c = h
      step false true = h
      step false false =
          update_row-Holds id (assign_all (f ∷ fs)) m t.rows (assign_all-id (f ∷ fs)) h
