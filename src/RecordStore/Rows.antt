-- ===== src/RecordStore/Rows.antt =====
-- src/mnema/ports/record_store.py: lists of rows with unique ids, and the statements on them.
use mathlib.Core.Path.{subst}
use mathlib.Core.Option
use memory_agent.RecordStore.{change, HasNo, put, Records, Unique, Holds}
use memory_agent.Text.{Text, text_eq}
use memory_agent.T1.{find_row, Row, update_row, insert_row}
use memory_agent.T1.RoundTrip.{find_row-insert_row, find_row-insert_row_ne}
use memory_agent.T1.Updates.{find_row-assigned, find_row-elsewhere}
use memory_agent.Prelude.{
  ◌≡◌, sym, ap, ◌∙◌, ◌≢◌, inl, inr, Bool, true, false, not, List, [], ◌∷◌, ◌++◌, if◌then◌else◌,
  Bool-cases, ◌==◌, eq_iff, ne_of_eq-false, filter, All-append,
}

module _ {F : Type 0} where
  HasNo-append : (j : Text) (xs ys : List (Row F)) → HasNo j xs → HasNo j ys → HasNo j (xs ++ ys)
  HasNo-append j xs ys h k = All-append (λ q. q.id ≢ j) xs ys h k

  -- UPDATE by a function that keeps ids.
  update_row-HasNo :
      (id j : Text) (f : Row F → Row F) (rs : List (Row F))
      → ((r : Row F) → (f r).id ≡ r.id)
      → HasNo j rs
      → HasNo j (update_row id f rs)
  unfolding update_row
  update_row-HasNo id j f [] h n = tt
  update_row-HasNo id j f (r ∷ rs) h n = (step (r.id == id), update_row-HasNo id j f rs h n.1)
    where
      step : (b : Bool) → (if b then f r else r).id ≢ j
      step true = λ e. n.0 (sym (h r) ∙ e)
      step false = n.0

  pub update_row-Unique :
      (id : Text) (f : Row F → Row F) (rs : List (Row F))
      → ((r : Row F) → (f r).id ≡ r.id)
      → Unique rs
      → Unique (update_row id f rs)
  unfolding update_row
  update_row-Unique id f [] h u = tt
  update_row-Unique id f (r ∷ rs) h u = (step (r.id == id), update_row-Unique id f rs h u.1)
    where
      rest : HasNo r.id (update_row id f rs)
      rest = update_row-HasNo id r.id f rs h u.0

      step : (b : Bool) → HasNo (if b then f r else r).id (update_row id f rs)
      step true = subst (λ k. HasNo k (update_row id f rs)) (sym (h r)) rest
      step false = rest

  filter-HasNo :
      (p : Row F → Bool) (j : Text) (rs : List (Row F)) → HasNo j rs → HasNo j (filter p rs)
  filter-HasNo p j [] h = tt
  filter-HasNo p j (r ∷ rs) h = elim (Bool-cases (p r)) [
    | inl e ↦ rw e (h.0, filter-HasNo p j rs h.1)
    | inr e ↦ rw e (filter-HasNo p j rs h.1)
  ]

  filter-Unique : (p : Row F → Bool) (rs : List (Row F)) → Unique rs → Unique (filter p rs)
  filter-Unique p [] u = tt
  filter-Unique p (r ∷ rs) u = elim (Bool-cases (p r)) [
    | inl e ↦ rw e (filter-HasNo p r.id rs u.0, filter-Unique p rs u.1)
    | inr e ↦ rw e (filter-Unique p rs u.1)
  ]

  Unique-snoc : (r : Row F) (rs : List (Row F)) → Unique rs → HasNo r.id rs → Unique (rs ++ r ∷ [])
  Unique-snoc r [] u h = (tt, tt)
  Unique-snoc r (q ∷ rs) u h =
      (HasNo-append q.id rs (r ∷ []) u.0 ((λ e. h.0 (sym e)), tt), Unique-snoc r rs u.1 h.1)

  dropped-HasNo : (id : Text) (rs : List (Row F)) → HasNo id (filter (λ q. not (q.id == id)) rs)
  dropped-HasNo id [] = tt
  dropped-HasNo id (q ∷ rs) = elim (Bool-cases (q.id == id)) [
    | inl e ↦ rw e (dropped-HasNo id rs)
    | inr e ↦ rw e (ne_of_eq-false q.id id e, dropped-HasNo id rs)
  ]

  pub insert_row-Unique : (r : Row F) (rs : List (Row F)) → Unique rs → Unique (insert_row r rs)
  insert_row-Unique r rs u =
      Unique-snoc r (filter (λ q. not (q.id == r.id)) rs) (filter-Unique _ rs u)
        (dropped-HasNo r.id rs)

  -- An INSERT OR REPLACE, and an UPDATE by id, on rows that hold a table.
  pub insert_row-Holds :
      (r : Row F) (m : Records F) (rs : List (Row F))
      → Holds m rs
      → Holds (put r m) (insert_row r rs)
  insert_row-Holds r m rs h = (insert_row-Unique r rs h.0, found)
    where
      found : (j : Text) → find_row j (insert_row r rs) ≡ put r m j
      found j = elim (Bool-cases (r.id == j)) [
        | inl e ↦ rw e (
            ap (λ k. find_row k (insert_row r rs)) (sym ((eq_iff r.id j).0 e))
            ∙ find_row-insert_row r rs)
        | inr e ↦ rw e (find_row-insert_row_ne j r rs (ne_of_eq-false r.id j e) ∙ h.1 j)
      ]

  pub update_row-Holds :
      (id : Text) (f : Row F → Row F) (m : Records F) (rs : List (Row F))
      → ((r : Row F) → (f r).id ≡ r.id)
      → Holds m rs
      → Holds (change id f m) (update_row id f rs)
  update_row-Holds id f m rs k h = (update_row-Unique id f rs k h.0, found)
    where
      found : (j : Text) → find_row j (update_row id f rs) ≡ change id f m j
      found j = elim (Bool-cases (id == j)) [
        | inl e ↦
            let same = (eq_iff id j).0 e in
            rw e (
              ap (λ x. find_row x (update_row id f rs)) (sym same)
              ∙ find_row-assigned id f rs k
              ∙ ap (λ x. Option.map f (find_row x rs)) same
              ∙ ap (Option.map f) (h.1 j))
        | inr e ↦ rw e (find_row-elsewhere id j f rs k (ne_of_eq-false id j e) ∙ h.1 j)
      ]
