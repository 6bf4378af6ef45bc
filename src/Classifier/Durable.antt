-- ===== src/Classifier/Durable.antt =====
-- src/mnema/core/classifier.py: which utterances are durable claims, without the matcher.
use memory_agent.Classifier.{
  first_person_stative, modal_hypothetical, looks_like_durable_claim, is_durable_hint, search_from,
}
use memory_agent.Text.{contains, codes, starts_with, Text}
use memory_agent.Classifier.Search.{search_from_iff, Occurs}
use memory_agent.Prelude.{
  ℕ, ◌≡◌, refl, sym, ◌↔◌, ◌⊎◌, inl, inr, Bool, true, false, ◌&&◌, ◌||◌, Option, none, [], ◌∷◌, eqb,
  if◌then◌else◌, eqb_iff, Bool-cases, In,
}

contains-char : (s : Text) (c : ℕ) → contains s (c ∷ []) ≡ true → In c s
unfolding contains starts_with
contains-char [] c h = cc
contains-char (d ∷ s) c h = elim (Bool-cases (eqb d c)) [
  | inl e ↦ inl (sym ((eqb_iff d c).0 e))
  | inr e ↦ inr (contains-char s c (rw e at h))
]

char-contains : (s : Text) (c : ℕ) → In c s → contains s (c ∷ []) ≡ true
unfolding contains starts_with
char-contains [] c i = absurd i
char-contains (d ∷ s) c (inl e) = first s (eqb d c) ((eqb_iff d c).1 (sym e))
  where
    nothing_left : (s : Text) → starts_with s [] ≡ true
    nothing_left [] = refl
    nothing_left (x ∷ s) = refl

    first :
        (s : Text) (b : Bool) → b ≡ true → ((b && starts_with s []) || contains s (c ∷ [])) ≡ true
    first s true h = rw (nothing_left s) refl
    first s false h = cc
char-contains (d ∷ s) c (inr i) = later (eqb d c && starts_with s []) (char-contains s c i)
  where
    later : (b : Bool) → contains s (c ∷ []) ≡ true → (b || contains s (c ∷ [])) ≡ true
    later true h = refl
    later false h = h

-- The chain of tests, for any answers.
chain :
    {Q M S : Type 0} (d h q m s : Bool)
    → ((q ≡ true) ↔ Q)
    → ((m ≡ true) ↔ M)
    → ((s ≡ true) ↔ S)
    → ((if d then true else if h then true else if q then false else if m then false else s) ≡ true)
      ↔ ((d ≡ true) ⊎ ((h ≡ true) ⊎ (¬ Q × ¬ M × S)))
chain true h q m s iq im is = (λ e. inl refl, λ e. refl)
chain false true q m s iq im is = (λ e. inr (inl refl), λ e. refl)
chain false false true m s iq im is = (
  λ e. absurd (no e),
  λ e. elim e [ inl x ↦ x | inr (inl x) ↦ x | inr (inr x) ↦ absurd (x.0 (iq.0 refl)) ],
)
  where
    no : ¬ (false ≡ true)
    no e = cc
chain false false false true s iq im is = (
  λ e. absurd (no e),
  λ e. elim e [ inl x ↦ x | inr (inl x) ↦ x | inr (inr x) ↦ absurd (x.1 (im.0 refl)) ],
)
  where
    no : ¬ (false ≡ true)
    no e = cc
chain false false false false s iq im is = (
  λ e. inr (inr (λ x. no (iq.1 x), λ x. no (im.1 x), is.0 e)),
  λ e. elim e [ inl x ↦ absurd (no x) | inr (inl x) ↦ absurd (no x) | inr (inr x) ↦ is.1 x.2 ],
)
  where
    no : ¬ (false ≡ true)
    no e = cc

-- An utterance is a durable claim exactly if the caller says so, or hints at a durable type, or if it
-- has no question mark, no hypothetical or modal phrase occurs in it between word boundaries, and a
-- first-person stative phrase does.
pub looks_like_durable_claim_iff :
    (text : Text) (type_hint : Option Text) (durable : Bool)
    → (looks_like_durable_claim text type_hint durable ≡ true) ↔ (
        (durable ≡ true)
        ⊎ ((is_durable_hint type_hint ≡ true)
            ⊎ (¬ In b'?' text
                × ¬ Occurs modal_hypothetical text
                × Occurs first_person_stative text)))
unfolding looks_like_durable_claim
looks_like_durable_claim_iff text type_hint durable =
    chain durable (is_durable_hint type_hint) (contains text (codes "?"))
      (search_from modal_hypothetical none text) (search_from first_person_stative none text)
      (contains-char text b'?', char-contains text b'?') (search_from_iff modal_hypothetical text)
      (search_from_iff first_person_stative text)
