-- ===== src/Packer/Critical.antt =====
-- Which records `pack_records` returns: those that matter stay in, whatever else was recalled.
use memory_agent.Packer.{
  Packing, nothing, is_critical, has_id, cost, pack_one, reserve_step, reserve, fill_step, fill,
  pack, pack_records,
}
use memory_agent.Packer.Budget.{total, pack-IsCounted}
use memory_agent.Prelude.{
  ℕ, ◌+◌, ◌≤◌, ◌<◌, ◌≡◌, refl, sym, ap, ◌∙◌, ◌⊎◌, inl, inr, true, false, ◌||◌, List, [], ◌∷◌, ◌++◌,
  append-nil, arith, eq_refl, filter, In, All, append_chain, In-grown, In-append_left, In-append,
  In-filter, In-filter_inv,
}
use memory_agent.Text.{Text, text_eq}
use memory_agent.Schema.{MemoryRecord}

module _ {F : Type 0} (count : Text → ℕ) (budget : ℕ) where
  -- A step of either pass appends its record, or nothing.
  abbrev Appends : MemoryRecord F → Packing F → Packing F → Type 0
  Appends r p q = (q ≡ p) ⊎ (q ≡ pack_one count r p)

  reserve_step_cases :
      (r : MemoryRecord F) (p : Packing F) → Appends r p (reserve_step count budget r p)
  unfolding reserve_step
  reserve_step_cases r p = ground arith

  fill_step_cases : (r : MemoryRecord F) (p : Packing F) → Appends r p (fill_step count budget r p)
  unfolding fill_step
  fill_step_cases r p = ground arith

  reserve_step_protected :
      (r : MemoryRecord F) (p : Packing F)
      → r.protected ≡ true
      → (reserve_step count budget r p).packed ≡ p.packed ++ r ∷ []
  unfolding reserve_step
  reserve_step_protected r p h = ground arith

  Appends-append :
      (r : MemoryRecord F) (p q : Packing F)
      → Appends r p q
      → (rest : List (MemoryRecord F)) × (q.packed ≡ p.packed ++ rest)
  Appends-append r p q (inl e) =
      ([], ap (λ (s : Packing F). s.packed) e ∙ sym (append-nil p.packed))
  Appends-append r p q (inr e) = (r ∷ [], ap (λ (s : Packing F). s.packed) e)

  -- What is packed already stays, at the front.
  reserve-append :
      (rs : List (MemoryRecord F)) (p : Packing F)
      → (rest : List (MemoryRecord F)) × ((reserve count budget rs p).packed ≡ p.packed ++ rest)
  unfolding reserve
  reserve-append [] p = ([], sym (append-nil p.packed))
  reserve-append (r ∷ rs) p =
      let now = Appends-append r p _ (reserve_step_cases r p) in
      let later = reserve-append rs (reserve_step count budget r p) in
      (now.0 ++ later.0, append_chain p.packed now.0 later.0 now.1 later.1)

  fill-append :
      (rs : List (MemoryRecord F)) (p : Packing F)
      → (rest : List (MemoryRecord F)) × ((fill count budget rs p).packed ≡ p.packed ++ rest)
  unfolding fill
  fill-append [] p = ([], sym (append-nil p.packed))
  fill-append (r ∷ rs) p =
      let now = Appends-append r p _ (fill_step_cases r p) in
      let later = fill-append rs (fill_step count budget r p) in
      (now.0 ++ later.0, append_chain p.packed now.0 later.0 now.1 later.1)

  reserve_protected :
      (r : MemoryRecord F) (rs : List (MemoryRecord F)) (p : Packing F)
      → In r rs
      → r.protected ≡ true
      → In r (reserve count budget rs p).packed
  unfolding reserve
  reserve_protected r [] p i h = absurd i
  reserve_protected r (x ∷ rs) p (inl e) h =
      let later = reserve-append rs (reserve_step count budget x p) in
      let now = reserve_step_protected x p (rw e at h) in
      rw e (In-grown x p.packed later.0 now later.1)
  reserve_protected r (x ∷ rs) p (inr i) h =
      reserve_protected r rs (reserve_step count budget x p) i h

  -- Pass 1 is all that a record of the critical set depends on.
  abbrev pub reserved : List (MemoryRecord F) → List (MemoryRecord F)
  reserved ranked = (reserve count budget (filter is_critical ranked) nothing).packed

  pub pack_records-append :
      (ranked : List (MemoryRecord F))
      → (rest : List (MemoryRecord F)) × (pack_records count budget ranked
          ≡ reserved ranked ++ rest)
  unfolding pack_records pack
  pack_records-append ranked = fill-append ranked _

  filter-flood :
      (flood ranked : List (MemoryRecord F))
      → All (λ r. is_critical r ≡ false) flood
      → filter is_critical (flood ++ ranked) ≡ filter is_critical ranked
  filter-flood [] ranked h = refl
  filter-flood (x ∷ flood) ranked h = rw h.0 (filter-flood flood ranked h.1)

  -- Records outside the critical set cannot displace one of the critical set: with any number of
  -- them ranked in front, the result still begins with what pass 1 reserves without them.
  pub pack_records_flood :
      (flood ranked : List (MemoryRecord F))
      → All (λ r. is_critical r ≡ false) flood
      → (rest : List (MemoryRecord F)) × (pack_records count budget (flood ++ ranked)
          ≡ reserved ranked ++ rest)
  pack_records_flood flood ranked h =
      let whole = pack_records-append (flood ++ ranked) in
      (
        whole.0,
        whole.1
            ∙ ap (λ xs. (reserve count budget xs nothing).packed ++ whole.0)
                (filter-flood flood ranked h),
      )

  -- Every protected record of the input is in the result, also where that exceeds the budget.
  pub pack_records_keeps_protected :
      (ranked : List (MemoryRecord F)) (r : MemoryRecord F)
      → In r ranked
      → r.protected ≡ true
      → In r (pack_records count budget ranked)
  pack_records_keeps_protected ranked r i h =
      let whole = pack_records-append ranked in
      rw whole.1 (
        In-append_left r (reserved ranked) whole.0 (
          reserve_protected r (filter is_critical ranked) nothing
            (In-filter is_critical r ranked i (rw h)) h))

  Appends-In :
      (a r : MemoryRecord F) (p q : Packing F)
      → Appends r p q
      → In a q.packed
      → In a p.packed ⊎ (a ≡ r)
  Appends-In a r p q (inl e) h = inl (rw e at h)
  Appends-In a r p q (inr e) h = elim (In-append a p.packed (r ∷ []) (rw e at h)) [
    | inl i ↦ inl i
    | inr (inl s) ↦ inr s
    | inr (inr i) ↦ absurd i
  ]

  reserve-In :
      (a : MemoryRecord F) (rs : List (MemoryRecord F)) (p : Packing F)
      → In a (reserve count budget rs p).packed
      → In a p.packed ⊎ In a rs
  unfolding reserve
  reserve-In a [] p h = inl h
  reserve-In a (r ∷ rs) p h = elim (reserve-In a rs (reserve_step count budget r p) h) [
    | inr i ↦ inr (inr i)
    | inl i ↦ elim (Appends-In a r p _ (reserve_step_cases r p) i) [
      | inl j ↦ inl j
      | inr e ↦ inr (inl e)
    ]
  ]

  fill-In :
      (a : MemoryRecord F) (rs : List (MemoryRecord F)) (p : Packing F)
      → In a (fill count budget rs p).packed
      → In a p.packed ⊎ In a rs
  unfolding fill
  fill-In a [] p h = inl h
  fill-In a (r ∷ rs) p h = elim (fill-In a rs (fill_step count budget r p) h) [
    | inr i ↦ inr (inr i)
    | inl i ↦ elim (Appends-In a r p _ (fill_step_cases r p) i) [
      | inl j ↦ inl j
      | inr e ↦ inr (inl e)
    ]
  ]

  -- Every packed record is one of the input.
  pub pack_records-In :
      (ranked : List (MemoryRecord F)) (r : MemoryRecord F)
      → In r (pack_records count budget ranked)
      → In r ranked
  unfolding pack_records pack
  pack_records-In ranked r h = elim (fill-In r ranked _ h) [
    | inr i ↦ i
    | inl i ↦ elim (reserve-In r (filter is_critical ranked) nothing i) [
      | inl j ↦ absurd j
      | inr j ↦ (In-filter_inv is_critical r ranked j).0
    ]
  ]

  has_id-append :
      (id : Text) (xs ys : List (MemoryRecord F))
      → has_id id (xs ++ ys) ≡ (has_id id xs || has_id id ys)
  has_id-append id [] ys = refl
  has_id-append id (x ∷ xs) ys = ground (arith, has_id-append id xs ys)

  fill_step_missing :
      (r : MemoryRecord F) (p : Packing F)
      → has_id r.id (fill_step count budget r p).packed ≡ false
      → budget < (fill_step count budget r p).used + cost count r
  unfolding fill_step
  fill_step_missing r p h = ground (arith, has_id-append r.id p.packed (r ∷ []), eq_refl r.id)

  fill_step-used : (r : MemoryRecord F) (p : Packing F) → p.used ≤ (fill_step count budget r p).used
  unfolding fill_step
  fill_step-used r p = ground arith

  fill-used : (rs : List (MemoryRecord F)) (p : Packing F) → p.used ≤ (fill count budget rs p).used
  unfolding fill
  fill-used [] p = omega arith
  fill-used (r ∷ rs) p =
      omega (arith, fill_step-used r p, fill-used rs (fill_step count budget r p))

  fill-has_id :
      (id : Text) (rs : List (MemoryRecord F)) (p : Packing F)
      → has_id id (fill count budget rs p).packed ≡ false
      → has_id id p.packed ≡ false
  fill-has_id id rs p h =
      let whole = fill-append rs p in
      ground (arith, has_id-append id p.packed whole.0, rw whole.1 at h)

  -- A record whose id is missing at the end was too dear at its turn, and nothing is unpacked.
  fill_missing :
      (rs : List (MemoryRecord F)) (p : Packing F) (r : MemoryRecord F)
      → In r rs
      → has_id r.id (fill count budget rs p).packed ≡ false
      → budget < (fill count budget rs p).used + cost count r
  unfolding fill
  fill_missing [] p r i h = absurd i
  fill_missing (x ∷ rs) p r (inl e) h =
      let q = fill_step count budget x p in
      let h' : has_id x.id (fill count budget rs q).packed ≡ false = rw e at h in
      let lacking = fill_step_missing x p (fill-has_id x.id rs q h') in
      rw e (omega (arith, lacking, fill-used rs q))
  fill_missing (x ∷ rs) p r (inr i) h = fill_missing rs (fill_step count budget x p) r i h

  -- A record of the input is left out only if it does not fit beside what is packed.
  pub pack_records_maximal :
      (ranked : List (MemoryRecord F)) (r : MemoryRecord F)
      → In r ranked
      → has_id r.id (pack_records count budget ranked) ≡ false
      → budget < total count (pack_records count budget ranked) + cost count r
  unfolding pack_records pack
  pack_records_maximal ranked r i h =
      let counted = (pack-IsCounted count budget ranked).counted in
      rw (← counted)
        (fill_missing ranked (reserve count budget (filter is_critical ranked) nothing) r i h)
