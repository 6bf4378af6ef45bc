-- ===== src/Tests/Packer.antt =====
-- The theorems on ranking and packing at concrete inputs.
use memory_agent.Samples.{likes_tea, nuts, thousandths}
use memory_agent.Schema.{MemoryRecord}
use memory_agent.Text.{codes}
use memory_agent.Packer.{reserve_step, fill_step, pack, has_id, pack_records, cost, reserve, fill}
use memory_agent.Packer.Budget.{pack_records_within_budget, total, unprotected_total}
use memory_agent.Packer.Critical.{pack_records_flood, pack_records_maximal, reserved}
use memory_agent.Prelude.{ℕ, ◌+◌, ◌≤◌, ◌<◌, ◌≡◌, refl, inl, false, List, [], ◌∷◌, ◌++◌, length}

abbrev chatter : MemoryRecord ℕ
chatter = record likes_tea { id = codes "r9"; content = codes "hm" }

pack_records_flood_example :
    (rest : List (MemoryRecord ℕ)) × (pack_records length 20
        ((chatter ∷ chatter ∷ []) ++ (nuts ∷ []))
      ≡ reserved length 20 (nuts ∷ []) ++ rest)
pack_records_flood_example =
    pack_records_flood length 20 (chatter ∷ chatter ∷ []) (nuts ∷ []) (refl, (refl, tt))

pack_records_within_budget_example :
    unprotected_total length (pack_records length 20 (nuts ∷ chatter ∷ [])) ≤ 20
pack_records_within_budget_example = pack_records_within_budget length 20 (nuts ∷ chatter ∷ [])

dropped_tea : has_id (codes "r2") (pack_records length 3 (likes_tea ∷ [])) ≡ false
unfolding pack_records pack reserve reserve_step fill fill_step
dropped_tea = refl

pack_records_maximal_example :
    3 < total length (pack_records length 3 (likes_tea ∷ [])) + cost length likes_tea
pack_records_maximal_example =
    pack_records_maximal length 3 (likes_tea ∷ []) likes_tea (inl refl) dropped_tea
