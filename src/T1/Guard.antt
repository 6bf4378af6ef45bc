-- ===== src/T1/Guard.antt =====
-- A guarded row is one that is protected and live. What each statement of the store needs so that
-- the rows of a fixed id stay guarded.
pub mod Reads
pub mod Statements
use memory_agent.Prelude.{
  ◌≡◌, refl, sym, ◌∙◌, ◌≢◌, inl, inr, Bool, true, none, List, [], ◌∷◌, arith, Bool-cases, ◌==◌,
  eq_iff, eq-false_of_ne, any, All,
}
use memory_agent.Text.{Text, text_eq}
use memory_agent.T1.{Row, Field, assign, update_row, insert_row, assign_all}

module _ {F : Type 0} where
  abbrev pub IsGuarded : Row F → Type 0
  IsGuarded r = (r.protected ≡ true) × (r.valid_until ≡ none)

  abbrev has_id : Text → List (Row F) → Bool
  has_id id rs = any (λ r. r.id == id) rs

  -- Some row has the id, and every row that has it is guarded.
  abbrev pub Guards : Text → List (Row F) → Type 0
  Guards id rs = (has_id id rs ≡ true) × All (λ r. r.id ≡ id → IsGuarded r) rs

  -- What may be written to a guarded row.
  abbrev pub IsHarmless : Field F → Type 0
  IsHarmless (Field.valid_until v) = v ≡ none
  IsHarmless (Field.protected v) = v ≡ true
  IsHarmless _ = Unit

  assign-id : (f : Field F) (r : Row F) → (assign f r).id ≡ r.id
  unfolding assign
  assign-id (Field.user_id v) r = refl
  assign-id (Field.session_id v) r = refl
  assign-id (Field.record_type v) r = refl
  assign-id (Field.content v) r = refl
  assign-id (Field.summary v) r = refl
  assign-id (Field.embedding_model v) r = refl
  assign-id (Field.embedding_version v) r = refl
  assign-id (Field.superseded_by v) r = refl
  assign-id (Field.t0_ref v) r = refl
  assign-id (Field.agent_id v) r = refl
  assign-id (Field.keywords v) r = refl
  assign-id (Field.embedding_dim v) r = refl
  assign-id (Field.access_count v) r = refl
  assign-id (Field.valid_from v) r = refl
  assign-id (Field.valid_until v) r = refl
  assign-id (Field.last_accessed v) r = refl
  assign-id (Field.created_at v) r = refl
  assign-id (Field.protected v) r = refl
  assign-id (Field.provisional v) r = refl
  assign-id (Field.salience v) r = refl
  assign-id (Field.confidence v) r = refl
  assign-id (Field.source_refs v) r = refl
  assign-id (Field.graph_edges v) r = refl
  assign-id (Field.other name) r = refl

  assign-IsGuarded : (f : Field F) (r : Row F) → IsHarmless f → IsGuarded r → IsGuarded (assign f r)
  unfolding assign
  assign-IsGuarded (Field.user_id v) r h g = g
  assign-IsGuarded (Field.session_id v) r h g = g
  assign-IsGuarded (Field.record_type v) r h g = g
  assign-IsGuarded (Field.content v) r h g = g
  assign-IsGuarded (Field.summary v) r h g = g
  assign-IsGuarded (Field.embedding_model v) r h g = g
  assign-IsGuarded (Field.embedding_version v) r h g = g
  assign-IsGuarded (Field.superseded_by v) r h g = g
  assign-IsGuarded (Field.t0_ref v) r h g = g
  assign-IsGuarded (Field.agent_id v) r h g = g
  assign-IsGuarded (Field.keywords v) r h g = g
  assign-IsGuarded (Field.embedding_dim v) r h g = g
  assign-IsGuarded (Field.access_count v) r h g = g
  assign-IsGuarded (Field.valid_from v) r h g = g
  assign-IsGuarded (Field.valid_until v) r h g = (g.0, h)
  assign-IsGuarded (Field.last_accessed v) r h g = g
  assign-IsGuarded (Field.created_at v) r h g = g
  assign-IsGuarded (Field.protected v) r h g = (h, g.1)
  assign-IsGuarded (Field.provisional v) r h g = g
  assign-IsGuarded (Field.salience v) r h g = g
  assign-IsGuarded (Field.confidence v) r h g = g
  assign-IsGuarded (Field.source_refs v) r h g = g
  assign-IsGuarded (Field.graph_edges v) r h g = g
  assign-IsGuarded (Field.other name) r h g = g

  pub assign_all-id : (fs : List (Field F)) (r : Row F) → (assign_all fs r).id ≡ r.id
  unfolding assign_all
  assign_all-id [] r = refl
  assign_all-id (f ∷ fs) r = assign_all-id fs (assign f r) ∙ assign-id f r

  pub assign_all-IsGuarded :
      (fs : List (Field F)) (r : Row F)
      → All IsHarmless fs
      → IsGuarded r
      → IsGuarded (assign_all fs r)
  unfolding assign_all
  assign_all-IsGuarded [] r h g = g
  assign_all-IsGuarded (f ∷ fs) r h g =
      assign_all-IsGuarded fs (assign f r) h.1 (assign-IsGuarded f r h.0 g)

  -- An update that keeps ids, and keeps the guard where it hits the id.
  pub update_row-Guards :
      (id j : Text) (f : Row F → Row F) (rs : List (Row F))
      → ((r : Row F) → (f r).id ≡ r.id)
      → (j ≡ id → (r : Row F) → IsGuarded r → IsGuarded (f r))
      → Guards id rs
      → Guards id (update_row j f rs)
  unfolding update_row
  update_row-Guards id j f rs same keeps g = (found rs g.0, kept rs g.1)
    where
      found : (qs : List (Row F)) → has_id id qs ≡ true → has_id id (update_row j f qs) ≡ true
      found [] h = h
      found (r ∷ qs) h = elim (Bool-cases (r.id == j)) [
        | inl e ↦ rw e (rw (same r) (ground (arith, found qs)))
        | inr e ↦ rw e (ground (arith, found qs))
      ]

      kept :
          (qs : List (Row F))
          → All (λ r. r.id ≡ id → IsGuarded r) qs
          → All (λ r. r.id ≡ id → IsGuarded r) (update_row j f qs)
      kept [] h = tt
      kept (r ∷ qs) h = elim (Bool-cases (r.id == j)) [
        | inl e ↦ rw e (
          (λ q. let i = sym (same r) ∙ q in keeps (sym ((eq_iff r.id j).0 e) ∙ i) r (h.0 i)),
          kept qs h.1,
        )
        | inr e ↦ rw e (h.0, kept qs h.1)
      ]

  pub insert_row-Guards :
      (id : Text) (r : Row F) (rs : List (Row F))
      → r.id ≢ id
      → Guards id rs
      → Guards id (insert_row r rs)
  insert_row-Guards id r rs n g = (found rs g.0, kept rs g.1)
    where
      found : (qs : List (Row F)) → has_id id qs ≡ true → has_id id (insert_row r qs) ≡ true
      found [] h = cc
      found (q ∷ qs) h = elim (Bool-cases (q.id == r.id)) [
        | inr e ↦ rw e (ground (arith, found qs))
        | inl e ↦
            let same = (eq_iff q.id r.id).0 e in
            let other = eq-false_of_ne q.id id (λ p. n (sym same ∙ p)) in
            rw e (found qs (ground (arith, other)))
      ]

      kept :
          (qs : List (Row F))
          → All (λ r. r.id ≡ id → IsGuarded r) qs
          → All (λ r. r.id ≡ id → IsGuarded r) (insert_row r qs)
      kept [] h = ((λ p. absurd (n p)), tt)
      kept (q ∷ qs) h = elim (Bool-cases (q.id == r.id)) [
        | inl e ↦ rw e (kept qs h.1)
        | inr e ↦ rw e (h.0, kept qs h.1)
      ]
