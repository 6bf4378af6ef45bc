-- ===== src/Packer/Rank.antt =====
-- The ranking of src/mnema/core/packer.py keeps the records that it is given.
use memory_agent.Packer.{ranks_before, re_rank}
use memory_agent.Prelude.{ℕ, List, In}
use memory_agent.Text.{Text}
use memory_agent.Prelude.Sort.{sort-In, In-sort}
use memory_agent.Floats.{Floats}
use memory_agent.Schema.{MemoryRecord}

module _ {F : Type 0} ⦃fl : Floats F⦄ (scores : List (Text × F)) (now : ℕ) where
  pub In-re_rank :
      (a : MemoryRecord F) (records : List (MemoryRecord F))
      → In a records
      → In a (re_rank records scores now)
  unfolding re_rank
  In-re_rank a records = In-sort (ranks_before scores now) a records

  pub re_rank-In :
      (a : MemoryRecord F) (records : List (MemoryRecord F))
      → In a (re_rank records scores now)
      → In a records
  unfolding re_rank
  re_rank-In a records = sort-In (ranks_before scores now) a records
