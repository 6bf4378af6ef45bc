-- ===== src/T1/Updates.antt =====
-- What `update` writes: the columns named, to the row of the id, and to no other.
use mathlib.Core.Option
use memory_agent.T1.{
  update, Row, set_rows, is_refused, is_disallowed, find_row, assign_all, Store, Field, update_row,
}
use memory_agent.Action.{Outcome, value_error, database_error, done, raised}
use memory_agent.Text.{Text, text_eq}
use memory_agent.Floats.{Floats}
use memory_agent.T1.Guard.{assign_all-id}
use memory_agent.Prelude.{
  ◌≡◌, refl, sym, ap, ◌∙◌, ◌≢◌, Bool, true, false, Option, none, some, List, [], ◌∷◌, if◌then◌else◌,
  ◌==◌, eq_iff, eq-false_of_ne, any, ◌&&◌, ◌⊎◌, inl, inr,
}

module _ {F : Type 0} (id : Text) where
  pub find_row-assigned :
      (f : Row F → Row F) (rs : List (Row F))
      → ((r : Row F) → (f r).id ≡ r.id)
      → find_row id (update_row id f rs) ≡ Option.map f (find_row id rs)
  unfolding find_row update_row
  find_row-assigned f [] h = refl
  find_row-assigned f (r ∷ rs) h = step (r.id == id) refl (find_row-assigned f rs h)
    where
      step :
          (b : Bool)
          → (r.id == id) ≡ b
          → find_row id (update_row id f rs) ≡ Option.map f (find_row id rs)
          → (if (if b then f r else r).id == id
              then some (if b then f r else r)
              else find_row id (update_row id f rs))
            ≡ Option.map f (if b then some r else find_row id rs)
      step true e ih = rw (h r, e) refl
      step false e ih = rw e ih

  pub find_row-elsewhere :
      (j : Text) (f : Row F → Row F) (rs : List (Row F))
      → ((r : Row F) → (f r).id ≡ r.id)
      → id ≢ j
      → find_row j (update_row id f rs) ≡ find_row j rs
  unfolding find_row update_row
  find_row-elsewhere j f [] h n = refl
  find_row-elsewhere j f (r ∷ rs) h n = step (r.id == id) refl (find_row-elsewhere j f rs h n)
    where
      step :
          (b : Bool)
          → (r.id == id) ≡ b
          → find_row j (update_row id f rs) ≡ find_row j rs
          → (if (if b then f r else r).id == j
              then some (if b then f r else r)
              else find_row j (update_row id f rs))
            ≡ (if r.id == j then some r else find_row j rs)
      step true e ih =
          let same = (eq_iff r.id id).0 e in
          let other = eq-false_of_ne r.id j (λ p. n (sym same ∙ p)) in rw (h r, other) ih
      step false e ih = ap (λ o. if r.id == j then some r else o) ih

  pub map_same : (o : Option (Row F)) → o ≡ Option.map (assign_all []) o
  unfolding assign_all
  map_same none = refl
  map_same (some r) = refl

module _ {F : Type 0} ⦃fl : Floats F⦄ (id : Text) where
  -- A NULL would be written to a row of the id.
  abbrev pub is_violation : List (Field F) → Store F → Bool
  is_violation fs t = any is_refused fs && any (λ r. r.id == id) t.rows

  -- The two ways in which an update ends.
  abbrev pub IsUpdate : List (Field F) → Store F → Outcome (Store F) (Unit {0}) → Type 0
  IsUpdate fs t (raised e t') =
      (t' ≡ t) × ((any is_disallowed fs ≡ true) ⊎ (is_violation fs t ≡ true))
  IsUpdate fs t (done a t') =
      (any is_disallowed fs ≡ false)
      × (is_violation fs t ≡ false)
      × (find_row id t'.rows ≡ Option.map (assign_all fs) (find_row id t.rows))
      × ((j : Text) → id ≢ j → find_row j t'.rows ≡ find_row j t.rows)
      × (t'.vectors ≡ t.vectors)

  -- An update that names a column outside the whitelist raises, as does one of an existing row
  -- with a salience or confidence that is no number, and both write nothing (the transaction that
  -- the second leaves open aside). Any other returns: the row of the id has the named columns
  -- written, the rows of all other ids and the vectors are as they were.
  pub update-IsUpdate : (fs : List (Field F)) (t : Store F) → IsUpdate fs t (update id fs t)
  unfolding update
  update-IsUpdate [] t = (refl, refl, map_same id (find_row id t.rows), (λ j n. refl), refl)
  update-IsUpdate (f ∷ fs) t = step (any is_disallowed (f ∷ fs)) refl (is_violation (f ∷ fs) t) refl
    where
      step :
          (b : Bool)
          → any is_disallowed (f ∷ fs) ≡ b
          → (c : Bool) → is_violation (f ∷ fs) t ≡ c
          → IsUpdate (f ∷ fs) t (
              if b
              then raised value_error t
              else if c
              then raised database_error t
              else done tt (set_rows (update_row id (assign_all (f ∷ fs)) t.rows) t))
      step true e c q = (refl, inl e)
      step false e true q = (refl, inr q)
      step false e false q = (
        e,
        q,
        find_row-assigned id (assign_all (f ∷ fs)) t.rows (assign_all-id (f ∷ fs)),
        (λ j n. find_row-elsewhere id j (assign_all (f ∷ fs)) t.rows (assign_all-id (f ∷ fs)) n),
        refl,
      )
