-- ===== src/Text/Search.antt =====
-- Substrings: what `in`, `replace` and `lstrip` do to them.
use memory_agent.Text.{
  Text, contains, starts_with, drop_prefix, replace_first, is_space, lstrip, text_eq,
}
use memory_agent.Prelude.{
  ℕ, ◌≡◌, refl, ap, ◌∙◌, ◌≢◌, inl, inr, true, false, [], ◌∷◌, ◌++◌, append_assoc, arith, eqb,
  eqb_iff, Bool-cases, sym, append-nil,
}

starts_with_refl : (p t : Text) → starts_with (p ++ t) p ≡ true
unfolding starts_with
starts_with_refl [] [] = refl
starts_with_refl [] (c ∷ t) = refl
starts_with_refl (c ∷ p) t = ground (arith, (eqb_iff c c).1 refl, starts_with_refl p t)

pub drop_prefix-start : (s p : Text) → starts_with s p ≡ true → s ≡ p ++ drop_prefix s p
unfolding starts_with drop_prefix
drop_prefix-start s [] h = step s
  where
    step : (t : Text) → t ≡ drop_prefix t []
    step [] = refl
    step (c ∷ t) = refl
drop_prefix-start [] (c ∷ p) h = cc
drop_prefix-start (d ∷ s) (c ∷ p) h =
    let same : d ≡ c = ground (arith, eqb_iff d c) in
    let rest : starts_with s p ≡ true = ground arith in
    ap (λ x. x ∷ s) same ∙ ap (λ x. c ∷ x) (drop_prefix-start s p rest)

pub contains-here : (s p : Text) → starts_with s p ≡ true → contains s p ≡ true
unfolding contains
contains-here [] p h = h
contains-here (c ∷ s) p h = rw h refl

pub contains-cons : (c : ℕ) (s p : Text) → contains s p ≡ true → contains (c ∷ s) p ≡ true
unfolding contains
contains-cons c s p h = ground (arith, h)

-- A pattern is in a text that has it after some prefix.
pub contains-append : (a p b : Text) → contains (a ++ (p ++ b)) p ≡ true
contains-append [] p b = contains-here (p ++ b) p (starts_with_refl p b)
contains-append (c ∷ a) p b = contains-cons c (a ++ (p ++ b)) p (contains-append a p b)

pub contains_append : (a s p : Text) → contains s p ≡ true → contains (a ++ s) p ≡ true
contains_append [] s p h = h
contains_append (c ∷ a) s p h = contains-cons c (a ++ s) p (contains_append a s p h)

-- After `replace(pattern, replacement, 1)` the replacement is in the text, if the pattern was.
pub contains-replace_first :
    (s p x y : Text) → p ≢ [] → contains s p ≡ true → contains (replace_first s p (x ++ y)) y ≡ true
unfolding replace_first contains starts_with
contains-replace_first [] p x y n h = step p n h
  where
    step : (p : Text) → p ≢ [] → starts_with [] p ≡ true → contains [] y ≡ true
    step [] n h = absurd (n refl)
    step (c ∷ p) n h = cc
contains-replace_first (c ∷ s) p x y n h = elim (Bool-cases (starts_with (c ∷ s) p)) [
  | inl e ↦
      rw e (
        rw (append_assoc x y (drop_prefix (c ∷ s) p)) (contains-append x y (drop_prefix (c ∷ s) p)))
  | inr e ↦ rw e (
      contains-cons c (replace_first s p (x ++ y)) y (contains-replace_first s p x y n (rw e at h)))
]

-- `lstrip` keeps a pattern that begins with no white space.
pub contains-lstrip :
    (s : Text) (c : ℕ) (p : Text)
    → is_space c ≡ false
    → contains s (c ∷ p) ≡ true
    → contains (lstrip s) (c ∷ p) ≡ true
unfolding lstrip contains starts_with
contains-lstrip [] c p n h = h
contains-lstrip (d ∷ s) c p n h = elim (Bool-cases (is_space d)) [
  | inr e ↦ rw e h
  | inl e ↦
      let other : eqb d c ≡ false = space_ne d c e n in
      rw e (contains-lstrip s c p n (ground (arith, other)))
]
  where
    space_ne : (d c : ℕ) → is_space d ≡ true → is_space c ≡ false → eqb d c ≡ false
    space_ne d c e n = elim (Bool-cases (eqb d c)) [
      | inr q ↦ q
      | inl q ↦ (let same : d ≡ c = (eqb_iff d c).0 q in let z = ap is_space same in cc)
    ]

pub contains-end : (a p : Text) → contains (a ++ p) p ≡ true
contains-end a p = ap (λ x. contains (a ++ x) p) (sym (append-nil p)) ∙ contains-append a p []
