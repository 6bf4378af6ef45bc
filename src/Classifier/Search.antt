-- ===== src/Classifier/Search.antt =====
-- src/mnema/core/classifier.py: `search` answers whether a pattern occurs.
use mathlib.Core.Path.{subst}
use memory_agent.Classifier.{
  each, at_boundary, after_many, matches_at, Piece, search_from, after_pieces, one, many, Place,
}
use memory_agent.Text.{Text}
use memory_agent.Classifier.Pieces.{Spells, after_many_complete, last_of-append, last_of}
use memory_agent.Classifier.Occurs.{after_pieces_sound, each-In, In-each}
use memory_agent.Prelude.{
  ℕ, ◌≡◌, refl, sym, ap, ◌↔◌, inl, inr, Bool, true, false, ◌&&◌, ◌||◌, Option, none, some, List, [],
  ◌∷◌, ◌++◌, append_assoc, arith, Bool-cases, any, In, In-append_left,
}

pub after_pieces_complete :
    (xs : List Piece) (b : Option ℕ) (w a : Text)
    → Spells xs w
    → In (last_of b w, a) (after_pieces xs (b, w ++ a))
unfolding after_pieces
after_pieces_complete [] b w a h =
    subst (λ z. In {A = Place} (last_of b z, a) ((b, z ++ a) ∷ [])) (sym h) (inl refl)
after_pieces_complete (one f ∷ xs) b w a (c, v, e, t, h) =
    subst (λ z. In {A = Place} (last_of b z, a) (after_pieces (one f ∷ xs) (b, z ++ a))) (sym e)
      (rw t (In-append_left _ _ [] (after_pieces_complete xs (some c) v a h)))
after_pieces_complete (many f ∷ xs) b w a (c, u, v, e, t, k, h) =
    let tail = after_pieces_complete xs (last_of (some c) u) v a h in
    let last = sym (last_of-append (some c) u v) in
    let seen = after_many_complete f c u (v ++ a) k in
    subst (λ z. In {A = Place} (last_of b z, a) (after_pieces (many f ∷ xs) (b, z ++ a))) (sym e)
      (rw t (
        subst
          (λ z.
            In {A = Place} (last_of (some c) (u ++ v), a)
              (each (after_pieces xs) (after_many f c z)))
          (sym (append_assoc u v a))
          (subst
            (λ z. In {A = Place} (z, a) (each (after_pieces xs) (after_many f c (u ++ (v ++ a)))))
            last
            (each-In (after_pieces xs) (last_of (some c) u, v ++ a) _
              (after_many f c (u ++ (v ++ a))) seen tail))))

any-In :
    {A : Type 0} (p : A → Bool) (xs : List A) → any p xs ≡ true → (x : A) × In x xs × (p x ≡ true)
any-In p [] h = absurd_any h
  where
    absurd_any : {A : Type 0} {p : A → Bool} → false ≡ true → (x : A) × In x [] × (p x ≡ true)
    absurd_any h = cc
any-In p (x ∷ xs) h = elim (Bool-cases (p x)) [
  | inl e ↦ (x, inl refl, e)
  | inr e ↦ let (y, i, t) = any-In p xs (rw e at h) in (y, inr i, t)
]

In-any : {A : Type 0} (p : A → Bool) (x : A) (xs : List A) → In x xs → p x ≡ true → any p xs ≡ true
In-any p x [] i t = absurd i
In-any p x (y ∷ xs) (inl e) t = let t' : p y ≡ true = rw e at t in rw t' refl
In-any p x (y ∷ xs) (inr i) t = ground (arith, In-any p x xs i t)

-- A text in `s`, between word boundaries, that one of the alternatives spells. `b` is the character
-- in front of `s`.
abbrev pub OccursAt : List (List Piece) → Option ℕ → Text → Type 0
OccursAt alternatives b s =
    (m : Text) × (r : Text) × (xs : List Piece) × (s ≡ m ++ r)
    × In xs alternatives
    × Spells xs m
    × (at_boundary (b, s) ≡ true)
    × (at_boundary (last_of b m, r) ≡ true)

abbrev pub OccursFrom : List (List Piece) → Option ℕ → Text → Type 0
OccursFrom alternatives b s =
    (l : Text) × (t : Text) × (s ≡ l ++ t) × OccursAt alternatives (last_of b l) t

abbrev pub Occurs : List (List Piece) → Text → Type 0
Occurs alternatives s = OccursFrom alternatives none s

and_split : (a b : Bool) → (a && b) ≡ true → (a ≡ true) × (b ≡ true)
and_split true b h = (refl, h)
and_split false b h = cc

matches_at_sound :
    (alternatives : List (List Piece)) (b : Option ℕ) (s : Text)
    → matches_at alternatives (b, s) ≡ true
    → OccursAt alternatives b s
matches_at_sound alternatives b s h =
    let (t, k) = and_split (at_boundary (b, s)) _ h in
    let (q, i, e) = any-In at_boundary (each (λ xs. after_pieces xs (b, s)) alternatives) k in
    let (xs, j, l) = In-each (λ xs. after_pieces xs (b, s)) q alternatives i in
    let (m, r, d, w, p) = after_pieces_sound xs b s q l in
    (m, r, xs, d, j, w, t, subst (λ z. at_boundary z ≡ true) p e)

matches_at_complete :
    (alternatives : List (List Piece)) (b : Option ℕ) (s : Text)
    → OccursAt alternatives b s
    → matches_at alternatives (b, s) ≡ true
matches_at_complete alternatives b s (m, r, xs, d, j, w, t, e) = rw t (
    In-any at_boundary (last_of b m, r) (each (λ xs. after_pieces xs (b, s)) alternatives)
      (each-In (λ xs. after_pieces xs (b, s)) xs (last_of b m, r) alternatives j
        (subst (λ z. In {A = Place} (last_of b m, r) (after_pieces xs (b, z))) (sym d)
          (after_pieces_complete xs b m r w)))
      e)

search_from_sound :
    (alternatives : List (List Piece)) (b : Option ℕ) (s : Text)
    → search_from alternatives b s ≡ true
    → OccursFrom alternatives b s
unfolding search_from
search_from_sound alternatives b [] h = ([], [], refl, matches_at_sound alternatives b [] h)
search_from_sound alternatives b (c ∷ s) h =
    elim (Bool-cases (matches_at alternatives (b, c ∷ s))) [
      | inl e ↦ ([], c ∷ s, refl, matches_at_sound alternatives b (c ∷ s) e)
      | inr e ↦
          let (l, t, d, o) = search_from_sound alternatives (some c) s (rw e at h) in
          (c ∷ l, t, ap (λ x. c ∷ x) d, o)
    ]

search_from-at :
    (alternatives : List (List Piece)) (b : Option ℕ) (s : Text)
    → matches_at alternatives (b, s) ≡ true
    → search_from alternatives b s ≡ true
unfolding search_from
search_from-at alternatives b [] h = h
search_from-at alternatives b (c ∷ s) h = rw h refl

or_right : (a b : Bool) → b ≡ true → (a || b) ≡ true
or_right true b h = refl
or_right false b h = h

search_from_complete :
    (alternatives : List (List Piece)) (b : Option ℕ) (l t : Text)
    → OccursAt alternatives (last_of b l) t
    → search_from alternatives b (l ++ t) ≡ true
unfolding search_from
search_from_complete alternatives b [] t o =
    search_from-at alternatives b t (matches_at_complete alternatives b t o)
search_from_complete alternatives b (c ∷ l) t o =
    or_right (matches_at alternatives (b, c ∷ (l ++ t))) _
      (search_from_complete alternatives (some c) l t o)

pub search_from_iff :
    (alternatives : List (List Piece)) (s : Text)
    → (search_from alternatives none s ≡ true) ↔ Occurs alternatives s
search_from_iff alternatives s = (
  search_from_sound alternatives none s,
  λ (l, t, d, o). rw d (search_from_complete alternatives none l t o),
)
