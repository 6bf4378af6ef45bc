-- ===== src/Classifier/Pieces.antt =====
-- src/mnema/core/classifier.py: the texts that a pattern stands for, and the matcher's places.
-- The character in front of what follows a text.
use memory_agent.Classifier.{after_many, Place, Piece, one, many}
use memory_agent.Text.{Text}
use memory_agent.Prelude.{
  ℕ, ◌≡◌, refl, ap, inl, inr, Bool, true, false, Option, some, List, [], ◌∷◌, ◌++◌, if◌then◌else◌,
  Bool-cases, all, In, In-append_left, In-append_right, In-append,
}

abbrev pub last_of : Option ℕ → Text → Option ℕ
last_of b [] = b
last_of b (c ∷ w) = last_of (some c) w

pub last_of-append : (b : Option ℕ) (u w : Text) → last_of b (u ++ w) ≡ last_of (last_of b u) w
last_of-append b [] w = refl
last_of-append b (c ∷ u) w = last_of-append (some c) u w

-- The texts that pieces spell: a character for `one`, a text that is not empty for `many`.
abbrev pub Spells : List Piece → Text → Type 0
Spells [] w = w ≡ []
Spells (one f ∷ xs) w = (c : ℕ) × (v : Text) × (w ≡ c ∷ v) × (f c ≡ true) × Spells xs v
Spells (many f ∷ xs) w =
    (c : ℕ) × (u : Text) × (v : Text) × (w ≡ c ∷ (u ++ v))
    × (f c ≡ true)
    × (all f u ≡ true)
    × Spells xs v

-- Where a text of a kind, at the head of another, leaves a match.
abbrev pub Leaves : (Text → Type 0) → Option ℕ → Text → Place → Type 0
Leaves P b s q = (w : Text) × (a : Text) × (s ≡ w ++ a) × P w × (q ≡ (last_of b w, a))

pub after_many_sound :
    (f : ℕ → Bool) (c : ℕ) (s : Text) (q : Place)
    → In q (after_many f c s)
    → Leaves (λ w. all f w ≡ true) (some c) s q
unfolding after_many
after_many_sound f c [] q (inl e) = ([], [], refl, refl, e)
after_many_sound f c [] q (inr i) = absurd i
after_many_sound f c (d ∷ s) q i = step (f d) refl (after_many_sound f d s q) i
  where
    step :
        (b : Bool)
        → f d ≡ b
        → (In q (after_many f d s) → Leaves (λ w. all f w ≡ true) (some d) s q)
        → In q (if b then after_many f d s ++ ((some c, d ∷ s) ∷ []) else (some c, d ∷ s) ∷ [])
        → Leaves (λ w. all f w ≡ true) (some c) (d ∷ s) q
    step true e ih i = elim (In-append q (after_many f d s) ((some c, d ∷ s) ∷ []) i) [
      | inl j ↦ let (w, a, p, t, r) = ih j in (d ∷ w, a, ap (λ x. d ∷ x) p, rw (e, t) refl, r)
      | inr (inl r) ↦ ([], d ∷ s, refl, refl, r)
      | inr (inr j) ↦ absurd j
    ]
    step false e ih (inl r) = ([], d ∷ s, refl, refl, r)
    step false e ih (inr j) = absurd j

pub after_many_complete :
    (f : ℕ → Bool) (c : ℕ) (w a : Text)
    → all f w ≡ true
    → In (last_of (some c) w, a) (after_many f c (w ++ a))
unfolding after_many
after_many_complete f c [] [] t = inl refl
after_many_complete f c [] (d ∷ a) t = step (f d)
  where
    step :
        (b : Bool)
        → In
            (some c, d ∷ a)
            (if b then after_many f d a ++ ((some c, d ∷ a) ∷ []) else (some c, d ∷ a) ∷ [])
    step true = In-append_right (some c, d ∷ a) (after_many f d a) _ (inl refl)
    step false = inl refl
after_many_complete f c (d ∷ w) a t = elim (Bool-cases (f d)) [
  | inl e ↦
      let t' : all f w ≡ true = rw e at t in
      rw e (In-append_left _ (after_many f d (w ++ a)) _ (after_many_complete f d w a t'))
  | inr e ↦ absurd_test (rw e at t)
]
  where
    absurd_test : false ≡ true → In (last_of (some d) w, a) (after_many f c (d ∷ (w ++ a)))
    absurd_test h = cc
