-- ===== src/Decay.antt =====
-- src/mnema/core/decay.py: the retention score and the pass that scores a user's records.
pub mod Score
use memory_agent.Packer.{ref_time, age_days, recency}
use memory_agent.Prelude.{ℕ, List, [], ◌∷◌, if◌then◌else◌}
use memory_agent.Floats.{Floats, max_float, min_float}
use memory_agent.Schema.{MemoryRecord}

module _ {F : Type 0} ⦃fl : Floats F⦄ where
  abbrev pub w_recency : F
  w_recency = fl.decimal 4 1

  abbrev pub w_reinforce : F
  w_reinforce = fl.decimal 3 1

  abbrev pub w_salience : F
  w_salience = fl.decimal 3 1

  abbrev pub weighted_score : MemoryRecord F → ℕ → F
  weighted_score r now =
      fl.add
        (fl.add (fl.mul w_recency (recency now r))
          (fl.mul w_reinforce (fl.log (fl.add (fl.decimal 10 1) (fl.of_ℕ r.access_count)))))
        (fl.mul w_salience r.salience)

  unfoldable pub keep_score : MemoryRecord F → ℕ → F
  unfolding max_float min_float
  keep_score r now = min_float (fl.decimal 10 1) (max_float (fl.decimal 0 1) (weighted_score r now))

  -- What the generator yields over the live records of a user.
  unfoldable pub decay_pass : List (MemoryRecord F) → ℕ → List (MemoryRecord F × F)
  unfolding keep_score
  decay_pass [] now = []
  decay_pass (r ∷ rs) now =
      if r.protected then decay_pass rs now else (r, keep_score r now) ∷ decay_pass rs now
