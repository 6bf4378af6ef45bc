-- ===== src/T1/Guard/Reads.antt =====
-- The reads of the store under the invariant that a fixed id is guarded: no record of this id
-- that is read is unprotected.
use memory_agent.T1.Stream.{yielded-All}
use memory_agent.T1.{
  make_records, first_row, find_row, checked, Row, Store, make_record, find_by_t0_ref, fetch_one,
  live_stream, is_fenced, get,
}
use memory_agent.Json.{as_texts}
use memory_agent.Schema.{RecordType, MemoryRecord, of_value}
use memory_agent.Text.{Text, text_eq}
use memory_agent.T1.Guard.{Guards, IsGuarded}
use memory_agent.Prelude.{
  ◌≡◌, refl, sym, ap, ◌∙◌, inl, inr, Bool, true, Option, none, some, List, [], ◌∷◌, Bool-cases,
  ◌==◌, filter, All, eq_iff,
}
use memory_agent.Action.{read, Outcome, validation_error, done, raised}
use memory_agent.Action.Triples.{Triple, Ends}

module _ {F : Type 0} where
  -- A record is read off its row.
  pub make_record_inv :
      (r : Row F) (m : MemoryRecord F)
      → make_record r ≡ some m
      → (t : RecordType) × (ks : List Text) × (m ≡ checked r t ks)
  unfolding make_record
  make_record_inv r m e = step (of_value r.record_type) (as_texts r.keywords) e
    where
      step :
          (o : Option RecordType) (p : Option (List Text))
          → elim o as (λ _. Option (MemoryRecord F)) [
            | none ↦ none
            | some t ↦ elim p [ none ↦ none | some ks ↦ some (checked r t ks) ]
          ]
            ≡ some m
          → (t : RecordType) × (ks : List Text) × (m ≡ checked r t ks)
      step none p e = cc
      step (some t) none e = cc
      step (some t) (some ks) e = (t, ks, cc)

module _ {F : Type 0} (id : Text) where
  abbrev pub Guarded : Store F → Type 0
  Guarded t = Guards id t.rows

  -- A record that was read: protected, if it is the one with the id.
  abbrev pub IsSafe : MemoryRecord F → Type 0
  IsSafe m = m.id ≡ id → m.protected ≡ true

  make_record-IsSafe :
      (r : Row F) (m : MemoryRecord F)
      → (r.id ≡ id → IsGuarded r)
      → make_record r ≡ some m
      → IsSafe m
  make_record-IsSafe r m g e =
      let inv = make_record_inv r m e in
      λ p.
        ap (λ (x : MemoryRecord F). x.protected) inv.2
        ∙ (g (sym (ap (λ (x : MemoryRecord F). x.id) inv.2) ∙ p)).0

  make_records-IsSafe :
      (rs : List (Row F)) (ms : List (MemoryRecord F))
      → All (λ r. r.id ≡ id → IsGuarded r) rs
      → make_records rs ≡ some ms
      → All IsSafe ms
  unfolding make_records
  make_records-IsSafe [] ms g e = let q : ms ≡ [] = cc in rw q tt
  make_records-IsSafe (r ∷ rs) ms g e =
      step (make_record r) refl (make_records rs) (λ xs. make_records-IsSafe rs xs g.1) ms e
    where
      step :
          (o : Option (MemoryRecord F))
          → make_record r ≡ o
          → (p : Option (List (MemoryRecord F)))
          → ((xs : List (MemoryRecord F)) → p ≡ some xs → All IsSafe xs)
          → (ms : List (MemoryRecord F))
          → elim o as (λ _. Option (List (MemoryRecord F))) [
            | none ↦ none
            | some m ↦ elim p [ none ↦ none | some xs ↦ some (m ∷ xs) ]
          ]
            ≡ some ms
          → All IsSafe ms
      step none q p k ms e = cc
      step (some m) q none k ms e = cc
      step (some m) q (some xs) k ms e =
          let same : ms ≡ m ∷ xs = cc in rw same (make_record-IsSafe r m g.0 q, k xs refl)

  All-filter :
      (P : Row F → Type 0) (p : Row F → Bool) (rs : List (Row F)) → All P rs → All P (filter p rs)
  All-filter P p [] h = tt
  All-filter P p (r ∷ rs) h = elim (Bool-cases (p r)) [
    | inl e ↦ rw e (h.0, All-filter P p rs h.1)
    | inr e ↦ rw e (All-filter P p rs h.1)
  ]

  find_row-All :
      (P : Row F → Type 0) (j : Text) (rs : List (Row F)) (r : Row F)
      → All P rs
      → find_row j rs ≡ some r
      → P r
  unfolding find_row
  find_row-All P j [] r h e = cc
  find_row-All P j (q ∷ rs) r h e = elim (Bool-cases (q.id == j)) [
    | inl b ↦ let same : q ≡ r = (let e' = rw b at e in cc) in rw (← same) h.0
    | inr b ↦ find_row-All P j rs r h.1 (rw b at e)
  ]

  first_row-All :
      (P : Row F → Type 0) (p : Row F → Bool) (rs : List (Row F)) (r : Row F)
      → All P rs
      → first_row p rs ≡ some r
      → P r
  unfolding first_row
  first_row-All P p [] r h e = cc
  first_row-All P p (q ∷ rs) r h e = elim (Bool-cases (p q)) [
    | inl b ↦ let same : q ≡ r = (let e' = rw b at e in cc) in rw (← same) h.0
    | inr b ↦ first_row-All P p rs r h.1 (rw b at e)
  ]

  -- What a lookup returns.
  abbrev pub IsSafeFound : Option (MemoryRecord F) → Type 0
  IsSafeFound none = Unit
  IsSafeFound (some m) = IsSafe m

  fetch_one-Ends :
      (o : Option (Row F)) (t : Store F)
      → Guarded t
      → ((r : Row F) → o ≡ some r → r.id ≡ id → IsGuarded r)
      → Ends Guarded IsSafeFound (fetch_one o t)
  fetch_one-Ends none t g h = (g, tt)
  fetch_one-Ends (some r) t g h = step (make_record r) refl
    where
      step :
          (o : Option (MemoryRecord F))
          → make_record r ≡ o
          → Ends Guarded IsSafeFound (elim o as (λ _. Outcome (Store F) (Option (MemoryRecord F))) [
            | none ↦ raised validation_error t
            | some m ↦ done (some m) t
          ])
      step none e = g
      step (some m) e = (g, make_record-IsSafe r m (h r refl) e)

  pub get-Triple : (j : Text) → Triple Guarded (get j) IsSafeFound
  unfolding get
  get-Triple j = record {
    from = λ t g.
        fetch_one-Ends (find_row j t.rows) t g
          (λ r e. find_row-All (λ q. q.id ≡ id → IsGuarded q) j t.rows r g.1 e);
  }

  -- A lookup by the id finds no unprotected record.
  abbrev pub IsSafeAt : Text → Option (MemoryRecord F) → Type 0
  IsSafeAt j none = Unit
  IsSafeAt j (some m) = j ≡ id → m.protected ≡ true

  pub find_row-id : (j : Text) (rs : List (Row F)) (r : Row F) → find_row j rs ≡ some r → r.id ≡ j
  unfolding find_row
  find_row-id j [] r e = cc
  find_row-id j (q ∷ rs) r e = elim (Bool-cases (q.id == j)) [
    | inl b ↦ (let same : q ≡ r = (let e' = rw b at e in cc) in rw (← same) ((eq_iff q.id j).0 b))
    | inr b ↦ find_row-id j rs r (rw b at e)
  ]

  pub get_at-Triple : (j : Text) → Triple Guarded (get j) (IsSafeAt j)
  unfolding get
  get_at-Triple j = record { from = λ t g. step t g (find_row j t.rows) refl }
    where
      made :
          (t : Store F)
          → Guarded t
          → (r : Row F) → (j ≡ id → r.protected ≡ true)
          → (o : Option (MemoryRecord F)) → make_record r ≡ o
          → Ends Guarded
              (IsSafeAt j)
              (elim o as (λ _. Outcome (Store F) (Option (MemoryRecord F))) [
                | none ↦ raised validation_error t
                | some m ↦ done (some m) t
              ])
      made t g r h none e = g
      made t g r h (some m) e =
          let inv = make_record_inv r m e in
          (g, λ p. ap (λ (x : MemoryRecord F). x.protected) inv.2 ∙ h p)

      step :
          (t : Store F)
          → Guarded t
          → (o : Option (Row F)) → find_row j t.rows ≡ o
          → Ends Guarded (IsSafeAt j) (fetch_one o t)
      step t g none e = (g, tt)
      step t g (some r) e =
          made t g r
            (λ p.
              (find_row-All (λ q. q.id ≡ id → IsGuarded q) j t.rows r g.1 e
                (find_row-id j t.rows r e ∙ p)).0)
            (make_record r) refl

  pub find_by_t0_ref-Triple :
      (ref user : Text) → Triple Guarded (find_by_t0_ref ref user) IsSafeFound
  unfolding find_by_t0_ref
  find_by_t0_ref-Triple ref user = record {
    from = λ t g.
        fetch_one-Ends (first_row (is_fenced ref user) t.rows) t g
          (λ r e. first_row-All (λ q. q.id ≡ id → IsGuarded q) (is_fenced ref user) t.rows r g.1 e);
  }

  pub live_stream-Triple : (user : Text) → Triple Guarded (live_stream user) (λ y. All IsSafe y.0)
  unfolding live_stream read
  live_stream-Triple user = record {
    from = λ t g. (
      g,
      yielded-All (λ r. r.id ≡ id → IsGuarded r) IsSafe make_records-IsSafe 64 _
          (All-filter _ _ t.rows g.1),
    );
  }
