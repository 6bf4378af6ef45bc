-- ===== src/Packer/Budget.antt =====
-- What `pack_records` costs, and that it leaves out only what does not fit.
use memory_agent.Packer.{
  Packing, nothing, is_critical, cost, reserve_step, reserve, fill_step, fill, pack, pack_records,
}
use memory_agent.Prelude.{ℕ, ◌+◌, ◌≤◌, ◌≡◌, List, [], ◌∷◌, ◌++◌, arith, if◌then◌else◌, filter}
use memory_agent.Text.{Text}
use memory_agent.Schema.{MemoryRecord}

module _ {F : Type 0} (count : Text → ℕ) where
  abbrev pub total : List (MemoryRecord F) → ℕ
  total [] = 0
  total (r ∷ rs) = cost count r + total rs

  -- The cost of the records that are not protected.
  abbrev pub unprotected_total : List (MemoryRecord F) → ℕ
  unprotected_total [] = 0
  unprotected_total (r ∷ rs) = (if r.protected then 0 else cost count r) + unprotected_total rs

  total-append : (xs ys : List (MemoryRecord F)) → total (xs ++ ys) ≡ total xs + total ys
  total-append [] ys = omega arith
  total-append (x ∷ xs) ys = omega (arith, total-append xs ys)

  unprotected_total-append :
      (xs ys : List (MemoryRecord F))
      → unprotected_total (xs ++ ys) ≡ unprotected_total xs + unprotected_total ys
  unprotected_total-append [] ys = omega arith
  unprotected_total-append (x ∷ xs) ys = omega (arith, unprotected_total-append xs ys)

  unprotected_total-le-total : (xs : List (MemoryRecord F)) → unprotected_total xs ≤ total xs
  unprotected_total-le-total [] = omega arith
  unprotected_total-le-total (x ∷ xs) = ground (arith, unprotected_total-le-total xs)

module _ {F : Type 0} (count : Text → ℕ) (budget : ℕ) where
  pub record IsCounted (p : Packing F) : Type 0 where
    pub counted : p.used ≡ total count p.packed
    pub bounded : unprotected_total count p.packed ≤ budget

  reserve_step-IsCounted :
      (r : MemoryRecord F) (p : Packing F) → IsCounted p → IsCounted (reserve_step count budget r p)
  unfolding reserve_step
  reserve_step-IsCounted r p h = ground (
    arith,
    total-append count p.packed (r ∷ []),
    unprotected_total-append count p.packed (r ∷ []),
    unprotected_total-le-total count p.packed,
  )

  fill_step-IsCounted :
      (r : MemoryRecord F) (p : Packing F) → IsCounted p → IsCounted (fill_step count budget r p)
  unfolding fill_step
  fill_step-IsCounted r p h = ground (
    arith,
    total-append count p.packed (r ∷ []),
    unprotected_total-append count p.packed (r ∷ []),
    unprotected_total-le-total count p.packed,
  )

  reserve-IsCounted :
      (rs : List (MemoryRecord F)) (p : Packing F)
      → IsCounted p
      → IsCounted (reserve count budget rs p)
  unfolding reserve
  reserve-IsCounted [] p h = h
  reserve-IsCounted (r ∷ rs) p h =
      reserve-IsCounted rs (reserve_step count budget r p) (reserve_step-IsCounted r p h)

  fill-IsCounted :
      (rs : List (MemoryRecord F)) (p : Packing F)
      → IsCounted p
      → IsCounted (fill count budget rs p)
  unfolding fill
  fill-IsCounted [] p h = h
  fill-IsCounted (r ∷ rs) p h =
      fill-IsCounted rs (fill_step count budget r p) (fill_step-IsCounted r p h)

  pub pack-IsCounted : (ranked : List (MemoryRecord F)) → IsCounted (pack count budget ranked)
  unfolding pack
  pack-IsCounted ranked =
      fill-IsCounted ranked _ (reserve-IsCounted (filter is_critical ranked) nothing (omega arith))

  -- The records that are not protected cost at most the budget, whatever the protected ones cost.
  pub pack_records_within_budget :
      (ranked : List (MemoryRecord F))
      → unprotected_total count (pack_records count budget ranked) ≤ budget
  unfolding pack_records
  pack_records_within_budget ranked = (pack-IsCounted ranked).bounded
