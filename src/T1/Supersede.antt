-- ===== src/T1/Supersede.antt =====
-- The supersession of a record: all of it or nothing, and only of a record of the same user.
use mathlib.Core.Path.{subst}
use mathlib.Core.Option
use memory_agent.T1.{
  supersede, get, retire, Store, insert_vector, find_row, record_params, owned_by, update_row,
  insert_row, as_stored,
}
use memory_agent.Action.{Outcome, value_error, database_error, done, raised}
use memory_agent.Schema.{MemoryRecord}
use memory_agent.Text.{Text, text_eq}
use memory_agent.T1.RoundTrip.{find_row-insert_row_ne, record_params_ne, get-insert_row}
use memory_agent.Floats.{Floats}
use memory_agent.Prelude.{
  ℕ, ◌≡◌, refl, ap, ◌∙◌, ◌≢◌, Bool, true, false, Option, none, some, List, if◌then◌else◌,
}
use memory_agent.T1.Updates.{find_row-assigned}

module _ {F : Type 0} ⦃fl : Floats F⦄ (now : ℕ) (old_id : Text) (new : MemoryRecord F)
    (v : List F) where
  -- The two ways in which a supersession ends.
  abbrev pub IsAtomic : Store F → Outcome (Store F) (Unit {0}) → Type 0
  IsAtomic t (raised e t') = t' ≡ t
  IsAtomic t (done a t') =
      (owned_by old_id new.user_id t.rows ≡ true)
      × (t'.rows
          ≡ insert_row (record_params (as_stored new))
              (update_row old_id (retire now new.id) t.rows))

  -- A supersession that raises changes nothing. One that returns had an old record of the new
  -- record's user, retired it with a link to the new one, and inserted the new one, as it is stored.
  pub supersede-IsAtomic : (t : Store F) → IsAtomic t (supersede now old_id new v t)
  unfolding supersede
  supersede-IsAtomic t =
      step (owned_by old_id new.user_id t.rows) refl (insert_vector new.id v t.dim t.vectors)
    where
      step :
          (b : Bool)
          → owned_by old_id new.user_id t.rows ≡ b
          → (o : Option (List (Text × List F)))
          → IsAtomic t (
              if b
              then (elim o as (λ _. Outcome (Store F) Unit) [
                | none ↦ raised database_error t
                | some vs ↦ done tt (record t {
                  rows =
                      insert_row
                        (record_params (as_stored new))
                        (update_row old_id (retire now new.id) t.rows);
                  vectors = vs;
                })
              ])
              else raised value_error t)
      step false e o = refl
      step true e none = refl
      step true e (some vs) = (e, refl)

  -- After a supersession by a record of another id, the old row is as it was but for its end and
  -- its successor, which are set, and the new id yields the new record as it is stored.
  pub supersede_links :
      (t t' : Store F)
      → supersede now old_id new v t ≡ done tt t'
      → new.id ≢ old_id
      → (find_row old_id t'.rows ≡ Option.map (retire now new.id) (find_row old_id t.rows))
        × (get new.id t' ≡ done (some (as_stored new)) t')
  supersede_links t t' e n =
      let a : IsAtomic t (done tt t') = subst (IsAtomic t) e (supersede-IsAtomic t) in
      (
        ap (find_row old_id) a.1
            ∙ find_row-insert_row_ne old_id (record_params (as_stored new)) _
                (record_params_ne (as_stored new) old_id n)
            ∙ find_row-assigned old_id (retire now new.id) t.rows (λ r. refl),
        get-insert_row (as_stored new) _ t' a.1,
      )
