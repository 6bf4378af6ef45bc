-- ===== src/Text/Insertion.antt =====
-- Lines in a text: what is inserted behind a line end leaves every line in place.
use mathlib.Core.Path.{subst}
use memory_agent.Text.{newline, Text, starts_with, replace_first, drop_prefix, contains}
use memory_agent.Text.Search.{contains-cons, contains_append, contains-here, drop_prefix-start}
use memory_agent.Prelude.{
  ℕ, ◌≡◌, refl, ap, ◌≢◌, ◌⊎◌, inl, inr, Bool, true, false, ◌&&◌, [], ◌∷◌, ◌++◌, append_assoc, arith,
  eqb, Bool-cases, All,
}

abbrev pub HasNoNewline : Text → Type 0
HasNoNewline t = All (λ c. c ≢ newline) t

eqb-newline : (c : ℕ) → c ≢ newline → eqb newline c ≡ false
eqb-newline c h = ground arith

starts_with_nothing : (s : Text) → starts_with s [] ≡ true
unfolding starts_with
starts_with_nothing [] = refl
starts_with_nothing (c ∷ s) = refl

-- A line that a text begins with ends at its first line end, or before.
starts_with_line :
    (a v t : Text)
    → HasNoNewline t
    → starts_with (a ++ (newline ∷ v)) (t ++ newline ∷ []) ≡ true
    → starts_with (a ++ newline ∷ []) (t ++ newline ∷ []) ≡ true
unfolding starts_with
starts_with_line [] v [] n h = refl
starts_with_line [] v (c ∷ t) n h = let e = eqb-newline c n.0 in absurd_test (rw e at h)
  where
    absurd_test : false ≡ true → starts_with (newline ∷ []) (c ∷ (t ++ newline ∷ [])) ≡ true
    absurd_test q = cc
starts_with_line (x ∷ a) v [] n h = step (eqb x newline) h
  where
    step :
        (b : Bool)
        → (b && starts_with (a ++ (newline ∷ v)) []) ≡ true
        → (b && starts_with (a ++ newline ∷ []) []) ≡ true
    step true q = starts_with_nothing (a ++ newline ∷ [])
    step false q = q
starts_with_line (x ∷ a) v (c ∷ t) n h = step (eqb x c) (starts_with_line a v t n.1) h
  where
    step :
        (b : Bool)
        → (starts_with (a ++ (newline ∷ v)) (t ++ newline ∷ []) ≡ true
            → starts_with (a ++ newline ∷ []) (t ++ newline ∷ []) ≡ true)
        → (b && starts_with (a ++ (newline ∷ v)) (t ++ newline ∷ [])) ≡ true
        → (b && starts_with (a ++ newline ∷ []) (t ++ newline ∷ [])) ≡ true
    step true ih q = ih q
    step false ih q = q

-- A line of a text stands in front of a line end, the end included, or behind it.
contains_line :
    (a v t : Text)
    → HasNoNewline t
    → contains (a ++ (newline ∷ v)) (t ++ newline ∷ []) ≡ true
    → (contains (a ++ newline ∷ []) (t ++ newline ∷ []) ≡ true)
      ⊎ (contains v (t ++ newline ∷ []) ≡ true)
unfolding contains
contains_line [] v t n h = elim (Bool-cases (starts_with (newline ∷ v) (t ++ newline ∷ []))) [
  | inl e ↦ inl (contains-here (newline ∷ []) (t ++ newline ∷ []) (starts_with_line [] v t n e))
  | inr e ↦ inr (rw e at h)
]
contains_line (x ∷ a) v t n h =
    elim (Bool-cases (starts_with (x ∷ (a ++ (newline ∷ v))) (t ++ newline ∷ []))) [
      | inl e ↦ inl (
          contains-here (x ∷ (a ++ newline ∷ [])) (t ++ newline ∷ [])
            (starts_with_line (x ∷ a) v t n e))
      | inr e ↦ elim (contains_line a v t n (rw e at h)) [
        | inl k ↦ inl (contains-cons x (a ++ newline ∷ []) (t ++ newline ∷ []) k)
        | inr k ↦ inr k
      ]
    ]

starts_with_more : (s z p : Text) → starts_with s p ≡ true → starts_with (s ++ z) p ≡ true
unfolding starts_with
starts_with_more s z [] h = starts_with_nothing (s ++ z)
starts_with_more [] z (c ∷ p) h = cc
starts_with_more (d ∷ s) z (c ∷ p) h = step (eqb d c) (starts_with_more s z p) h
  where
    step :
        (b : Bool)
        → (starts_with s p ≡ true → starts_with (s ++ z) p ≡ true)
        → (b && starts_with s p) ≡ true
        → (b && starts_with (s ++ z) p) ≡ true
    step true ih q = ih q
    step false ih q = q

pub contains_more : (s z p : Text) → contains s p ≡ true → contains (s ++ z) p ≡ true
unfolding contains
contains_more [] z p h = contains-here z p (starts_with_more [] z p h)
contains_more (c ∷ s) z p h = elim (Bool-cases (starts_with (c ∷ s) p)) [
  | inl e ↦ contains-here (c ∷ (s ++ z)) p (starts_with_more (c ∷ s) z p e)
  | inr e ↦ contains-cons c (s ++ z) p (contains_more s z p (rw e at h))
]

-- What is inserted behind a line end leaves the lines that there were.
pub contains_inserted :
    (a m v t : Text)
    → HasNoNewline t
    → contains (a ++ (newline ∷ v)) (t ++ newline ∷ []) ≡ true
    → contains (a ++ (newline ∷ (m ++ v))) (t ++ newline ∷ []) ≡ true
contains_inserted a m v t n h = elim (contains_line a v t n h) [
  | inl k ↦
      subst (λ x. contains x (t ++ newline ∷ []) ≡ true) (append_assoc a (newline ∷ []) (m ++ v))
        (contains_more (a ++ newline ∷ []) (m ++ v) (t ++ newline ∷ []) k)
  | inr k ↦
      contains_append a (newline ∷ (m ++ v)) (t ++ newline ∷ [])
        (contains_append (newline ∷ m) v (t ++ newline ∷ []) k)
]

-- `replace(pattern, new, 1)` where the pattern is in the text.
pub replace_first_parts :
    (s p new : Text)
    → p ≢ []
    → contains s p ≡ true
    → (u : Text) × (v : Text) × (s ≡ u ++ (p ++ v)) × (replace_first s p new ≡ u ++ (new ++ v))
unfolding replace_first contains
replace_first_parts [] p new n h = absurd (step p n h)
  where
    step : (p : Text) → p ≢ [] → starts_with [] p ≡ true → ⊥
    step [] n h = n refl
    step (c ∷ p) n h = nothing h
      where
        nothing : starts_with [] (c ∷ p) ≡ true → ⊥
        nothing q = cc
replace_first_parts (c ∷ s) p new n h = elim (Bool-cases (starts_with (c ∷ s) p)) [
  | inl e ↦ ([], drop_prefix (c ∷ s) p, drop_prefix-start (c ∷ s) p e, rw e refl)
  | inr e ↦
      let (u, v, d, r) = replace_first_parts s p new n (rw e at h) in
      (c ∷ u, v, ap (λ x. c ∷ x) d, rw e (ap (λ x. c ∷ x) r))
]
