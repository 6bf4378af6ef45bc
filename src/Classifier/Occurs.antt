-- ===== src/Classifier/Occurs.antt =====
-- src/mnema/core/classifier.py: the matcher finds exactly the occurrences of its patterns.
use mathlib.Core.Path.{subst}
use memory_agent.Classifier.{after_many, Place, Piece, after_pieces, each, one, many}
use memory_agent.Text.{Text}
use memory_agent.Classifier.Pieces.{last_of-append, last_of, Spells, Leaves, after_many_sound}
use memory_agent.Prelude.{
  ℕ, ◌≡◌, refl, sym, ap, ◌∙◌, inl, inr, Bool, true, false, Option, some, List, [], ◌∷◌, ◌++◌,
  append_assoc, if◌then◌else◌, In, In-append_left, In-append_right, In-append,
}

pub In-each :
    {A B : Type 0} (f : A → List B) (y : B) (xs : List A)
    → In y (each f xs)
    → (x : A) × In x xs × In y (f x)
In-each f y [] i = absurd i
In-each f y (x ∷ xs) i = elim (In-append y (f x) (each f xs) i) [
  | inl j ↦ (x, inl refl, j)
  | inr j ↦ let (z, k, l) = In-each f y xs j in (z, inr k, l)
]

pub each-In :
    {A B : Type 0} (f : A → List B) (x : A) (y : B) (xs : List A)
    → In x xs
    → In y (f x)
    → In y (each f xs)
each-In f x y [] i j = absurd i
each-In f x y (z ∷ xs) (inl e) j = In-append_left y (f z) (each f xs) (subst (λ u. In y (f u)) e j)
each-In f x y (z ∷ xs) (inr i) j = In-append_right y (f z) (each f xs) (each-In f x y xs i j)

-- The places after the pieces are those behind the texts that they spell.
pub after_pieces_sound :
    (xs : List Piece) (b : Option ℕ) (s : Text) (q : Place)
    → In q (after_pieces xs (b, s))
    → Leaves (Spells xs) b s q
unfolding after_pieces
after_pieces_sound [] b s q (inl e) = ([], s, refl, refl, e)
after_pieces_sound [] b s q (inr i) = absurd i
after_pieces_sound (one f ∷ xs) b [] q i = absurd i
after_pieces_sound (one f ∷ xs) b (c ∷ s) q i =
    step (f c) refl (after_pieces_sound xs (some c) s q) i
  where
    step :
        (t : Bool)
        → f c ≡ t
        → (In q (after_pieces xs (some c, s)) → Leaves (Spells xs) (some c) s q)
        → In q (each (after_pieces xs) (if t then (some c, s) ∷ [] else []))
        → Leaves (Spells (one f ∷ xs)) b (c ∷ s) q
    step true e ih i = elim (In-append q (after_pieces xs (some c, s)) [] i) [
      | inl j ↦ let (w, a, p, t, r) = ih j in (c ∷ w, a, ap (λ x. c ∷ x) p, (c, w, refl, e, t), r)
      | inr j ↦ absurd j
    ]
    step false e ih i = absurd i
after_pieces_sound (many f ∷ xs) b [] q i = absurd i
after_pieces_sound (many f ∷ xs) b (c ∷ s) q i =
    step (f c) refl (λ b' s'. after_pieces_sound xs b' s' q) i
  where
    step :
        (t : Bool)
        → f c ≡ t
        → ((b' : Option ℕ) (s' : Text)
            → In q (after_pieces xs (b', s'))
            → Leaves (Spells xs) b' s' q)
        → In q (each (after_pieces xs) (if t then after_many f c s else []))
        → Leaves (Spells (many f ∷ xs)) b (c ∷ s) q
    step true e ih i =
        let (p, j, k) = In-each (after_pieces xs) q (after_many f c s) i in
        let (u, a, d, t, r) = after_many_sound f c s p j in
        let (w, a', d', t', r') =
          ih (last_of (some c) u) a (subst (λ z. In q (after_pieces xs z)) r k) in
        (
          c ∷ (u ++ w),
          a',
          ap (λ x. c ∷ x) (d ∙ ap (λ x. u ++ x) d' ∙ sym (append_assoc u w a')),
          (c, u, w, refl, e, t, t'),
          r' ∙ ap (λ z. (z, a')) (sym (last_of-append (some c) u w)),
        )
    step false e ih i = absurd i
