-- ===== src/Packer.antt =====
-- src/mnema/core/packer.py: the re-ranking of recalled records and the packer of a token budget.
-- A budget is a number; the counter of tokens is an argument, as in the source.
pub mod Budget
pub mod Critical
pub mod Rank
use memory_agent.T1.{is_none}
use memory_agent.Prelude.{
  ℕ, ◌+◌, ◌/◌, max, Bool, true, false, not, ◌&&◌, ◌||◌, none, some, List, [], ◌∷◌, ◌++◌, ltb, leb,
  if◌then◌else◌, ◌==◌, take, filter, any,
}
use memory_agent.Text.{Text, or_else, text_eq}
use memory_agent.Prelude.Sort.{sort}
use memory_agent.Floats.{Floats, max_float}
use memory_agent.Schema.{RecordType, MemoryRecord, fact}

abbrev pub is_fact : RecordType → Bool
is_fact fact = true
is_fact _ = false

-- `len(text.encode("utf-8"))`
unfoldable pub utf8_length : Text → ℕ
utf8_length [] = 0
utf8_length (c ∷ s) =
    (if leb c 0x7f then 1 else if leb c 0x7ff then 2 else if leb c 0xffff then 3 else 4)
    + utf8_length s

-- `ByteLengthCounter.count`
unfoldable pub byte_length_count : Text → ℕ
unfolding utf8_length
byte_length_count s = max 1 (utf8_length s / 4)

-- What has been packed, in order, and its cost.
pub record Packing (F : Type 0) : Type 0 where
  pub packed : List (MemoryRecord F)
  pub used : ℕ

abbrev pub nothing : {F : Type 0} → Packing F
nothing = record { packed = []; used = 0 }

module _ {F : Type 0} where
  -- `record.summary or record.content[:80]`
  abbrev pub shown : MemoryRecord F → Text
  shown r = or_else r.summary (take 80 r.content)

  abbrev pub is_critical : MemoryRecord F → Bool
  is_critical r = r.protected || (is_fact r.record_type && is_none r.valid_until)

  -- `r.id in packed_ids`
  abbrev pub has_id : Text → List (MemoryRecord F) → Bool
  has_id id = any (λ q. q.id == id)

module _ {F : Type 0} (count : Text → ℕ) where
  abbrev pub cost : MemoryRecord F → ℕ
  cost r = count (shown r)

  abbrev pub pack_one : MemoryRecord F → Packing F → Packing F
  pack_one r p = record { packed = p.packed ++ r ∷ []; used = p.used + cost r }

module _ {F : Type 0} (count : Text → ℕ) (budget : ℕ) where
  -- The body of pass 1: a protected record is packed whatever it costs.
  unfoldable pub reserve_step : MemoryRecord F → Packing F → Packing F
  reserve_step r p =
      if r.protected
      then pack_one count r p
      else if leb (p.used + cost count r) budget
      then pack_one count r p
      else p

  -- Pass 1, over the critical records.
  unfoldable pub reserve : List (MemoryRecord F) → Packing F → Packing F
  reserve [] p = p
  reserve (r ∷ rs) p = reserve rs (reserve_step r p)

  -- The body of pass 2.
  unfoldable pub fill_step : MemoryRecord F → Packing F → Packing F
  fill_step r p =
      if has_id r.id p.packed
      then p
      else if ltb budget (p.used + cost count r)
      then p
      else pack_one count r p

  -- Pass 2, over all records.
  unfoldable pub fill : List (MemoryRecord F) → Packing F → Packing F
  fill [] p = p
  fill (r ∷ rs) p = fill rs (fill_step r p)

  unfoldable pub pack : List (MemoryRecord F) → Packing F
  pack ranked = fill ranked (reserve (filter is_critical ranked) nothing)

  unfoldable pub pack_records : List (MemoryRecord F) → List (MemoryRecord F)
  pack_records ranked = (pack ranked).packed

module _ {F : Type 0} ⦃fl : Floats F⦄ where
  abbrev pub lambda_decay : F
  lambda_decay = fl.decimal 5 2

  -- The time from which a record's recency counts.
  abbrev pub ref_time : MemoryRecord F → ℕ
  ref_time r = elim r.last_accessed [ none ↦ r.created_at | some t ↦ t ]

  abbrev pub age_days : ℕ → MemoryRecord F → F
  age_days now r =
      max_float (fl.decimal 0 1)
        (fl.div (fl.seconds_between now (ref_time r)) (fl.decimal 864000 1))

  abbrev pub recency : ℕ → MemoryRecord F → F
  recency now r = fl.exp (fl.mul (fl.neg lambda_decay) (age_days now r))

  -- `similarity_scores.get(r.id, 0.5)`, of a dict built from pairs, where a later pair wins.
  unfoldable pub similarity : List (Text × F) → Text → F
  similarity [] id = fl.decimal 5 1
  similarity ((j, d) ∷ hits) id =
      if (j == id) && not (any (λ h. h.0 == id) hits) then d else similarity hits id

  unfoldable pub composite : List (Text × F) → ℕ → MemoryRecord F → F
  unfolding max_float similarity
  composite scores now r = fl.mul (fl.mul (similarity scores r.id) r.salience) (recency now r)

  -- A record goes in front of another if its composite score is strictly greater.
  abbrev pub ranks_before : List (Text × F) → ℕ → MemoryRecord F → MemoryRecord F → Bool
  ranks_before scores now a b = fl.lt (composite scores now b) (composite scores now a)

  unfoldable pub re_rank : List (MemoryRecord F) → List (Text × F) → ℕ → List (MemoryRecord F)
  unfolding sort
  re_rank records scores now = sort (ranks_before scores now) records
