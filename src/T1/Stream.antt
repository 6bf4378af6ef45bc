-- ===== src/T1/Stream.antt =====
-- What the generators of src/mnema/adapters/vector_store/sqlite_t1.py yield over their fetches.
use memory_agent.T1.{Row, make_record, make_records, add_row, fetches, yielded}
use memory_agent.Schema.{MemoryRecord}
use memory_agent.Prelude.{
  ℕ, zero, suc, ◌≡◌, refl, ap, ◌∙◌, Bool, true, false, Option, none, some, List, [], ◌∷◌, ◌++◌, All,
  ◌≤◌, length, arith, sym, All-append,
}

module _ {F : Type 0} where
  abbrev flattened : List (List (Row F)) → List (Row F)
  flattened [] = []
  flattened (rs ∷ fs) = rs ++ flattened fs

  flattened-add_row :
      (r : Row F) (fs : List (List (Row F))) → flattened (add_row r fs) ≡ r ∷ flattened fs
  unfolding add_row
  flattened-add_row r [] = refl
  flattened-add_row r (rs ∷ fs) = refl

  -- No row is lost in the fetches.
  flattened-fetches : (room : ℕ) (rs : List (Row F)) → flattened (fetches room rs) ≡ rs
  unfolding fetches
  flattened-fetches room [] = refl
  flattened-fetches zero (r ∷ rs) =
      flattened-add_row r (fetches 63 rs) ∙ ap (λ qs. r ∷ qs) (flattened-fetches 63 rs)
  flattened-fetches (suc room) (r ∷ rs) =
      flattened-add_row r (fetches room rs) ∙ ap (λ qs. r ∷ qs) (flattened-fetches room rs)

  -- Both parts of a list of rows are made where the whole is.
  abbrev made_both :
      Option (List (MemoryRecord F))
      → Option (List (MemoryRecord F))
      → Option (List (MemoryRecord F))
  made_both none q = none
  made_both (some a) none = none
  made_both (some a) (some b) = some (a ++ b)

  make_records-append :
      (rs qs : List (Row F))
      → make_records (rs ++ qs) ≡ made_both (make_records rs) (make_records qs)
  unfolding make_records
  make_records-append [] qs = step (make_records qs)
    where
      step : (q : Option (List (MemoryRecord F))) → q ≡ made_both (some []) q
      step none = refl
      step (some b) = refl
  make_records-append (r ∷ rs) qs =
      step (make_record r) (make_records rs) (make_records qs) (make_records (rs ++ qs))
        (make_records-append rs qs)
    where
      cons_made :
          Option (MemoryRecord F) → Option (List (MemoryRecord F)) → Option (List (MemoryRecord F))
      cons_made o p = elim o [
        | none ↦ none
        | some m ↦ elim p [ none ↦ none | some ms ↦ some (m ∷ ms) ]
      ]

      step :
          (o : Option (MemoryRecord F)) (p q pq : Option (List (MemoryRecord F)))
          → pq ≡ made_both p q
          → cons_made o pq ≡ made_both (cons_made o p) q
      step none p q pq e = refl
      step (some m) none q pq e = ap (cons_made (some m)) e
      step (some m) (some a) none pq e = ap (cons_made (some m)) e
      step (some m) (some a) (some b) pq e = ap (cons_made (some m)) e

  yielded_readable :
      (fs : List (List (Row F))) (ms : List (MemoryRecord F))
      → make_records (flattened fs) ≡ some ms
      → yielded fs ≡ (ms, false)
  unfolding yielded make_records
  yielded_readable [] ms e = let q : ms ≡ [] = cc in rw q refl
  yielded_readable (rs ∷ fs) ms e =
      step (make_records rs) (make_records (flattened fs)) (yielded_readable fs)
        (sym (make_records-append rs (flattened fs)) ∙ e)
    where
      step :
          (p q : Option (List (MemoryRecord F)))
          → ((xs : List (MemoryRecord F)) → q ≡ some xs → yielded fs ≡ (xs, false))
          → made_both p q ≡ some ms
          → elim p as (λ _. List (MemoryRecord F) × Bool) [
            | none ↦ ([], true)
            | some a ↦ (a ++ (yielded fs).0, (yielded fs).1)
          ]
            ≡ (ms, false)
      step none q k h = cc
      step (some a) none k h = cc
      step (some a) (some b) k h =
          let same : a ++ b ≡ ms = cc in
          ap (λ y. (a ++ y.0, y.1)) (k b refl) ∙ ap (λ xs. (xs, false)) same

  -- Where all rows can be read, the generator yields their records and ends.
  pub yielded_all :
      (room : ℕ) (rs : List (Row F)) (ms : List (MemoryRecord F))
      → make_records rs ≡ some ms
      → yielded (fetches room rs) ≡ (ms, false)
  yielded_all room rs ms e =
      yielded_readable (fetches room rs) ms (ap make_records (flattened-fetches room rs) ∙ e)

  -- A generator that ends without raising has yielded the records of all rows.
  yielded_ended :
      (fs : List (List (Row F)))
      → (yielded fs).1 ≡ false
      → make_records (flattened fs) ≡ some (yielded fs).0
  unfolding yielded make_records
  yielded_ended [] e = refl
  yielded_ended (rs ∷ fs) e =
      make_records-append rs (flattened fs) ∙ step (make_records rs) (yielded_ended fs) e
    where
      over : Option (List (MemoryRecord F)) → List (MemoryRecord F) × Bool
      over p = elim p [ none ↦ ([], true) | some a ↦ (a ++ (yielded fs).0, (yielded fs).1) ]

      step :
          (p : Option (List (MemoryRecord F)))
          → ((yielded fs).1 ≡ false → make_records (flattened fs) ≡ some (yielded fs).0)
          → (over p).1 ≡ false
          → made_both p (make_records (flattened fs)) ≡ some (over p).0
      step none k h = cc
      step (some a) k h = ap (made_both (some a)) (k h)

  pub yielded_whole :
      (room : ℕ) (rs : List (Row F))
      → (yielded (fetches room rs)).1 ≡ false
      → make_records rs ≡ some (yielded (fetches room rs)).0
  yielded_whole room rs e =
      ap make_records (sym (flattened-fetches room rs)) ∙ yielded_ended (fetches room rs) e

  -- Rows that fit into one fetch.
  fetches_one : (room : ℕ) (rs : List (Row F)) → length rs ≤ room → fetches room rs ≡ rs ∷ []
  unfolding fetches add_row
  fetches_one room [] h = refl
  fetches_one zero (r ∷ rs) h = absurd (omega arith)
  fetches_one (suc room) (r ∷ rs) h =
      ap (add_row r) (fetches_one room rs (let z : length rs ≤ room = omega arith in z))

  -- If one of them cannot be read, nothing is yielded.
  pub yielded_unreadable :
      (room : ℕ) (rs : List (Row F))
      → length rs ≤ room
      → make_records rs ≡ none
      → yielded (fetches room rs) ≡ ([], true)
  unfolding yielded
  yielded_unreadable room rs h e = ap yielded (fetches_one room rs h) ∙ step (make_records rs) e
    where
      step :
          (o : Option (List (MemoryRecord F)))
          → o ≡ none
          → elim o as (λ _. List (MemoryRecord F) × Bool) [
            | none ↦ ([], true)
            | some ms ↦ (ms ++ [], false)
          ]
            ≡ ([], true)
      step none q = refl
      step (some ms) q = cc

  All-add_row :
      (P : Row F → Type 0) (r : Row F) (fs : List (List (Row F)))
      → P r
      → All (All P) fs
      → All (All P) (add_row r fs)
  unfolding add_row
  All-add_row P r [] h k = ((h, tt), tt)
  All-add_row P r (qs ∷ fs) h k = ((h, k.0), k.1)

  -- What holds of all rows holds of the rows of every fetch.
  All-fetches :
      (P : Row F → Type 0) (room : ℕ) (rs : List (Row F)) → All P rs → All (All P) (fetches room rs)
  unfolding fetches
  All-fetches P room [] h = (tt, tt)
  All-fetches P zero (r ∷ rs) h =
      (tt, All-add_row P r (fetches 63 rs) h.0 (All-fetches P 63 rs h.1))
  All-fetches P (suc room) (r ∷ rs) h =
      All-add_row P r (fetches room rs) h.0 (All-fetches P room rs h.1)

  -- What reading makes of such rows holds of all that is yielded.
  pub yielded-All :
      (P : Row F → Type 0) (Q : MemoryRecord F → Type 0)
      → ((qs : List (Row F)) (ms : List (MemoryRecord F))
          → All P qs
          → make_records qs ≡ some ms
          → All Q ms)
      → (room : ℕ) (rs : List (Row F)) → All P rs
      → All Q (yielded (fetches room rs)).0
  unfolding yielded
  yielded-All P Q k room rs h = over (fetches room rs) (All-fetches P room rs h)
    where
      over : (fs : List (List (Row F))) → All (All P) fs → All Q (yielded fs).0
      over [] g = tt
      over (qs ∷ fs) g = step (make_records qs) refl (over fs g.1)
        where
          step :
              (o : Option (List (MemoryRecord F)))
              → make_records qs ≡ o
              → All Q (yielded fs).0
              → All Q
                  (elim o as (λ _. List (MemoryRecord F) × Bool) [
                    | none ↦ ([], true)
                    | some ms ↦ (ms ++ (yielded fs).0, (yielded fs).1)
                  ]).0
          step none e ih = tt
          step (some ms) e ih = All-append Q ms (yielded fs).0 (k qs ms g.0 e) ih
