-- ===== src/Decay/Score.antt =====
-- The retention score is between 0 and 1, and no protected record is scored.
use memory_agent.Prelude.{
  ◌≡◌, ℕ, refl, inl, inr, false, List, [], ◌∷◌, In, All, Bool, true, if◌then◌else◌, ap,
}
use memory_agent.Schema.{MemoryRecord}
use memory_agent.Decay.{keep_score, decay_pass, weighted_score}
use memory_agent.Floats.{Floats, max_float, min_float, IsComparable}

module _ {F : Type 0} ⦃fl : Floats F⦄ where
  -- What is yielded is unprotected and of the input.
  pub decay_pass-All :
      (P : MemoryRecord F × F → Type 0) (rs : List (MemoryRecord F)) (now : ℕ)
      → ((r : MemoryRecord F) → In r rs → r.protected ≡ false → P (r, keep_score r now))
      → All P (decay_pass rs now)
  unfolding decay_pass
  decay_pass-All P [] now h = tt
  decay_pass-All P (r ∷ rs) now h =
      step r.protected refl (decay_pass-All P rs now (λ q i. h q (inr i)))
    where
      step :
          (b : Bool)
          → r.protected ≡ b
          → All P (decay_pass rs now)
          → All P (if b then decay_pass rs now else (r, keep_score r now) ∷ decay_pass rs now)
      step true e rest = rest
      step false e rest = (h r (inl refl) e, rest)

  -- Every pair that the pass yields is an unprotected record of the input with its own score.
  decay_pass_unprotected :
      (rs : List (MemoryRecord F)) (now : ℕ)
      → All
          (λ p. In p.0 rs × (p.0.protected ≡ false) × (p.1 ≡ keep_score p.0 now))
          (decay_pass rs now)
  decay_pass_unprotected rs now = decay_pass-All _ rs now (λ r i e. (i, e, refl))

  -- Every unprotected record of the input is scored.
  decay_pass_complete :
      (rs : List (MemoryRecord F)) (now : ℕ) (r : MemoryRecord F)
      → In r rs
      → r.protected ≡ false
      → In (r, keep_score r now) (decay_pass rs now)
  unfolding decay_pass
  decay_pass_complete [] now r i h = absurd i
  decay_pass_complete (q ∷ rs) now r i h = step q.protected refl (decay_pass_complete rs now r) i
    where
      step :
          (b : Bool)
          → q.protected ≡ b
          → (In r rs → r.protected ≡ false → In (r, keep_score r now) (decay_pass rs now))
          → In r (q ∷ rs)
          → In
              (r, keep_score r now)
              (if b then decay_pass rs now else (q, keep_score q now) ∷ decay_pass rs now)
      step true e ih (inl p) = let x = ap (λ (m : MemoryRecord F). m.protected) p in cc
      step true e ih (inr j) = ih j h
      step false e ih (inl p) = inl (ap (λ (m : MemoryRecord F). (m, keep_score m now)) p)
      step false e ih (inr j) = inr (ih j h)

  -- The pairs of the decay pass are unprotected records of the input with their scores, and every
  -- unprotected record of the input is in one.
  pub decay_pass_exact :
      (rs : List (MemoryRecord F)) (now : ℕ)
      → All
          (λ p. In p.0 rs × (p.0.protected ≡ false) × (p.1 ≡ keep_score p.0 now))
          (decay_pass rs now)
        × ((r : MemoryRecord F)
            → In r rs
            → r.protected ≡ false
            → In (r, keep_score r now) (decay_pass rs now))
  decay_pass_exact rs now = (decay_pass_unprotected rs now, decay_pass_complete rs now)

  clamp_bounds :
      (laws : IsComparable fl) (x : F)
      → let y = min_float (fl.decimal 10 1) (max_float (fl.decimal 0 1) x) in
        (fl.le (fl.decimal 0 1) y ≡ true) × (fl.le y (fl.decimal 10 1) ≡ true)
  unfolding min_float max_float
  clamp_bounds laws x = step (fl.lt (fl.decimal 0 1) x) refl
    where
      upper :
          (m : F) (c : Bool)
          → fl.lt m (fl.decimal 10 1) ≡ c
          → fl.le (fl.decimal 0 1) m ≡ true
          → (fl.le (fl.decimal 0 1) (if c then m else fl.decimal 10 1) ≡ true)
            × (fl.le (if c then m else fl.decimal 10 1) (fl.decimal 10 1) ≡ true)
      upper m true e h = (h, laws.le_of_lt m _ e)
      upper m false e h = (laws.zero-le-one, laws.one_le)

      step :
          (b : Bool)
          → fl.lt (fl.decimal 0 1) x ≡ b
          → let m = if b then x else fl.decimal 0 1 in
            let y = if fl.lt m (fl.decimal 10 1) then m else fl.decimal 10 1 in
            (fl.le (fl.decimal 0 1) y ≡ true) × (fl.le y (fl.decimal 10 1) ≡ true)
      step true e = upper x _ refl (laws.le_of_lt _ x e)
      step false e = upper (fl.decimal 0 1) _ refl laws.zero_le

  -- The retention score is at least 0 and at most 1, also where the weighted sum is no number, if
  -- float comparisons have the laws of IEEE.
  pub keep_score_bounds :
      (laws : IsComparable fl) (r : MemoryRecord F) (now : ℕ)
      → (fl.le (fl.decimal 0 1) (keep_score r now) ≡ true)
        × (fl.le (keep_score r now) (fl.decimal 10 1) ≡ true)
  unfolding keep_score
  keep_score_bounds laws r now = clamp_bounds laws (weighted_score r now)
