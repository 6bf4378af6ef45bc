-- ===== src/T1/Unreadable.antt =====
-- A row whose unchecked columns hold no valid value, and what it does to the reads of its user.
use memory_agent.T1.{make_record, checked, make_records, Row}
use memory_agent.Json.{as_texts}
use memory_agent.Schema.{RecordType, MemoryRecord, of_value}
use memory_agent.Text.{text_eq}
use memory_agent.Prelude.{◌≡◌, refl, sym, ap, ◌∙◌, inl, inr, Option, none, some, List, [], ◌∷◌, In}

module _ {F : Type 0} where
  -- A label outside the enum makes a row unreadable.
  pub make_record_unreadable : (r : Row F) → of_value r.record_type ≡ none → make_record r ≡ none
  unfolding make_record
  make_record_unreadable r e = step (of_value r.record_type) e
    where
      step :
          (o : Option RecordType)
          → o ≡ none
          → elim o as (λ _. Option (MemoryRecord F)) [
            | none ↦ none
            | some t ↦ elim (as_texts r.keywords) [ none ↦ none | some ks ↦ some (checked r t ks) ]
          ]
            ≡ none
      step none q = refl
      step (some t) q = cc

  pub make_records_unreadable :
      (rs : List (Row F)) (r : Row F) → In r rs → make_record r ≡ none → make_records rs ≡ none
  unfolding make_records
  make_records_unreadable [] r i e = absurd i
  make_records_unreadable (q ∷ rs) r (inl p) e = first (make_record q) (ap make_record (sym p) ∙ e)
    where
      first :
          (o : Option (MemoryRecord F))
          → o ≡ none
          → elim o as (λ _. Option (List (MemoryRecord F))) [
            | none ↦ none
            | some m ↦ elim (make_records rs) [ none ↦ none | some ms ↦ some (m ∷ ms) ]
          ]
            ≡ none
      first none s = refl
      first (some m) s = cc
  make_records_unreadable (q ∷ rs) r (inr i) e =
      later (make_record q) (make_records rs) (make_records_unreadable rs r i e)
    where
      later :
          (o : Option (MemoryRecord F)) (p : Option (List (MemoryRecord F)))
          → p ≡ none
          → elim o as (λ _. Option (List (MemoryRecord F))) [
            | none ↦ none
            | some m ↦ elim p [ none ↦ none | some ms ↦ some (m ∷ ms) ]
          ]
            ≡ none
      later none p s = refl
      later (some m) none s = refl
      later (some m) (some ms) s = cc
