-- ===== src/T1/RoundTrip.antt =====
-- What is written is read back: a record through its row, and through the table.
use memory_agent.T1.{
  record_params, insert_row, find_row, make_record, Row, get, fetch_one, insert_vector, Store,
  upsert_with_vector, checked, as_stored,
}
use memory_agent.Json.{as_texts, str}
use memory_agent.Schema.{
  RecordType, MemoryRecord, value, of_value, fact, preference, event, procedure,
}
use memory_agent.Text.{Text, text_eq}
use memory_agent.Prelude.{
  ◌≡◌, refl, sym, ◌∙◌, ◌≢◌, inl, inr, some, List, [], ◌∷◌, map, arith, Bool-cases, ◌==◌, eq_iff,
  eq_refl, eq-false_of_ne, ap, Option, none,
}
use memory_agent.Action.{Outcome, validation_error, database_error, done, raised}
use memory_agent.Floats.{Floats}
use memory_agent.Action.Results.{Leads, Leads-done}

of_value-value : (t : RecordType) → of_value (value t) ≡ some t
unfolding of_value value
of_value-value fact = refl
of_value-value preference = refl
of_value-value event = refl
of_value-value procedure = refl

as_texts-map_str : (F : Type 0) (ks : List Text) → as_texts {F = F} (map str ks) ≡ some ks
unfolding as_texts
as_texts-map_str F [] = refl
as_texts-map_str F (k ∷ ks) = rw (as_texts-map_str F ks) refl

module _ {F : Type 0} where
  -- A record is its row's: no column is lost or changed.
  pub make_record-record_params : (r : MemoryRecord F) → make_record (record_params r) ≡ some r
  unfolding make_record record_params
  make_record-record_params r =
      step (of_value (value r.record_type)) (as_texts (map str r.keywords))
        (of_value-value r.record_type) (as_texts-map_str F r.keywords)
    where
      step :
          (o : Option RecordType) (p : Option (List Text))
          → o ≡ some r.record_type
          → p ≡ some r.keywords
          → elim o as (λ _. Option (MemoryRecord F)) [
            | none ↦ none
            | some t ↦ elim p [ none ↦ none | some ks ↦ some (checked (record_params r) t ks) ]
          ]
            ≡ some r
      step none p a b = cc
      step (some t) none a b = cc
      step (some t) (some ks) a b =
          let a' : t ≡ r.record_type = cc in
          let b' : ks ≡ r.keywords = cc in
          ap (λ z. some (checked (record_params r) z ks)) a'
          ∙ ap (λ z. some (checked (record_params r) r.record_type z)) b'

  pub find_row-insert_row :
      (r : Row F) (rs : List (Row F)) → find_row r.id (insert_row r rs) ≡ some r
  unfolding find_row
  find_row-insert_row r [] = rw (eq_refl r.id) refl
  find_row-insert_row r (q ∷ rs) = elim (Bool-cases (q.id == r.id)) [
    | inl e ↦ rw e (find_row-insert_row r rs)
    | inr e ↦ rw (e, e) (find_row-insert_row r rs)
  ]

  pub find_row-insert_row_ne :
      (id : Text) (r : Row F) (rs : List (Row F))
      → r.id ≢ id
      → find_row id (insert_row r rs) ≡ find_row id rs
  unfolding find_row
  find_row-insert_row_ne id r [] h = rw (eq-false_of_ne r.id id h) refl
  find_row-insert_row_ne id r (q ∷ rs) h = elim (Bool-cases (q.id == r.id)) [
    | inl e ↦
        let same = (eq_iff q.id r.id).0 e in
        let other = eq-false_of_ne q.id id (λ p. h (sym same ∙ p)) in
        rw (e, other) (find_row-insert_row_ne id r rs h)
    | inr e ↦ rw e (ground (arith, find_row-insert_row_ne id r rs h))
  ]

  pub record_params_ne : (r : MemoryRecord F) (id : Text) → r.id ≢ id → (record_params r).id ≢ id
  unfolding record_params
  record_params_ne r id h = h

  -- Reading a record that was inserted.
  pub get-insert_row :
      (r : MemoryRecord F) (rs : List (Row F)) (t : Store F)
      → t.rows ≡ insert_row (record_params r) rs
      → get r.id t ≡ done (some r) t
  unfolding get record_params
  get-insert_row r rs t e =
      fetched (find_row r.id t.rows)
        (ap (find_row r.id) e ∙ find_row-insert_row (record_params r) rs)
    where
      made :
          (o : Option (MemoryRecord F))
          → o ≡ some r
          → elim o as (λ _. Outcome (Store F) (Option (MemoryRecord F))) [
            | none ↦ raised validation_error t
            | some m ↦ done (some m) t
          ]
            ≡ done (some r) t
      made none q = cc
      made (some m) q = cc

      fetched : (o : Option (Row F)) → o ≡ some (record_params r) → fetch_one o t ≡ done (some r) t
      fetched o q =
          ap (λ x. fetch_one x t) q
          ∙ made (make_record (record_params r)) (make_record-record_params r)

module _ {F : Type 0} ⦃fl : Floats F⦄ where
  pub upsert_with_vector-Leads :
      (r : MemoryRecord F) (v : List F) (t : Store F)
      → Leads
          (λ a t'. t'.rows ≡ insert_row (record_params (as_stored r)) t.rows)
          (upsert_with_vector r v t)
  unfolding upsert_with_vector
  upsert_with_vector-Leads r v t = step (insert_vector r.id v t.dim t.vectors)
    where
      step :
          (o : Option (List (Text × List F)))
          → Leads
              (λ (a : Unit) t'. t'.rows ≡ insert_row (record_params (as_stored r)) t.rows)
              (elim o as (λ _. Outcome (Store F) Unit) [
                | none ↦ raised database_error t
                | some vs ↦ done tt (record t {
                  rows = insert_row (record_params (as_stored r)) t.rows;
                  vectors = vs;
                })
              ])
      step none = tt
      step (some vs) = refl

  -- After the write of a record, `get` by its id returns the record, in which the column's default
  -- stands for a salience or confidence that is no number. The rows of all other ids are as before.
  pub get-upsert_with_vector :
      (r : MemoryRecord F) (v : List F) (t t' : Store F)
      → upsert_with_vector r v t ≡ done tt t'
      → (get r.id t' ≡ done (some (as_stored r)) t')
        × ((id : Text) → r.id ≢ id → find_row id t'.rows ≡ find_row id t.rows)
  get-upsert_with_vector r v t t' e =
      let rows = Leads-done _ (upsert_with_vector r v t) tt t' (upsert_with_vector-Leads r v t) e in
      (
        get-insert_row (as_stored r) t.rows t' rows,
        λ id h.
            ap (find_row id) rows
            ∙ find_row-insert_row_ne id (record_params (as_stored r)) t.rows
                (record_params_ne (as_stored r) id h),
      )
