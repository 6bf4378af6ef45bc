-- ===== src/Prelude/Sort.antt =====
-- Python's `sorted`, SQL's ORDER BY: a stable sort by a strict comparison `before`.
use mathlib.Core.Path.{◌≡◌, refl}
use mathlib.Core.Logic.{◌⊎◌, inl, inr}
use mathlib.Core.Bool.{Bool, true, false}
use mathlib.Core.List.{List, [], ◌∷◌, Perm}
use mathlib.Core.List.Perm
use native.Mathlib.Omega.{arith}
use memory_agent.Prelude.Tests.{if◌then◌else◌, Bool-cases}
use memory_agent.Prelude.Lists.{In, All}

module _ {A : Type 0} (before : A → A → Bool) where
  -- A later element goes in front of those that it is strictly before, and behind the others.
  unfoldable pub insert : A → List A → List A
  insert x [] = x ∷ []
  insert x (y ∷ ys) = if before y x then y ∷ insert x ys else x ∷ y ∷ ys

  unfoldable pub sort : List A → List A
  unfolding insert
  sort [] = []
  sort (x ∷ xs) = insert x (sort xs)

  -- No element is strictly before one that stands to its left.
  abbrev pub IsSorted : List A → Type 0
  IsSorted [] = Unit
  IsSorted (x ∷ xs) = All (λ y. before y x ≡ false) xs × IsSorted xs

  insert-perm : (x : A) (xs : List A) → Perm (insert x xs) (x ∷ xs)
  unfolding insert
  insert-perm x [] = Perm.rfl
  insert-perm x (y ∷ ys) = elim (Bool-cases (before y x)) [
    | inl e ↦ rw e (Perm.trans (Perm.cons y (insert-perm x ys)) (Perm.swap x y ys))
    | inr e ↦ rw e Perm.rfl
  ]

  pub sort-perm : (xs : List A) → Perm (sort xs) xs
  unfolding sort
  sort-perm [] = Perm.rfl
  sort-perm (x ∷ xs) = Perm.trans (insert-perm x (sort xs)) (Perm.cons x (sort-perm xs))

  insert-In : (a x : A) (xs : List A) → In a (insert x xs) → (a ≡ x) ⊎ In a xs
  unfolding insert
  insert-In a x [] h = h
  insert-In a x (y ∷ ys) h = step (insert-In a x ys) (before y x) refl h
    where
      step :
          (In a (insert x ys) → (a ≡ x) ⊎ In a ys)
          → (b : Bool) → before y x ≡ b
          → In a (if b then y ∷ insert x ys else x ∷ y ∷ ys)
          → (a ≡ x) ⊎ In a (y ∷ ys)
      step ih true e (inl q) = inr (inl q)
      step ih true e (inr i) = elim (ih i) [ inl q ↦ inl q | inr j ↦ inr (inr j) ]
      step ih false e i = i

  In-insert : (a x : A) (xs : List A) → (a ≡ x) ⊎ In a xs → In a (insert x xs)
  unfolding insert
  In-insert a x [] h = h
  In-insert a x (y ∷ ys) h = step (before y x) (In-insert a x ys) h
    where
      step :
          (b : Bool)
          → ((a ≡ x) ⊎ In a ys → In a (insert x ys))
          → (a ≡ x) ⊎ In a (y ∷ ys)
          → In a (if b then y ∷ insert x ys else x ∷ y ∷ ys)
      step true ih (inl q) = inr (ih (inl q))
      step true ih (inr (inl q)) = inl q
      step true ih (inr (inr i)) = inr (ih (inr i))
      step false ih i = i

  pub sort-In : (a : A) (xs : List A) → In a (sort xs) → In a xs
  unfolding sort
  sort-In a [] h = h
  sort-In a (x ∷ xs) h = elim (insert-In a x (sort xs) h) [
    | inl e ↦ inl e
    | inr i ↦ inr (sort-In a xs i)
  ]

  pub In-sort : (a : A) (xs : List A) → In a xs → In a (sort xs)
  unfolding sort
  In-sort a [] h = h
  In-sort a (x ∷ xs) (inl e) = In-insert a x (sort xs) (inl e)
  In-sort a (x ∷ xs) (inr i) = In-insert a x (sort xs) (inr (In-sort a xs i))

  module _ (asymm : (x y : A) → before x y ≡ true → before y x ≡ false)
      (cotrans : (x y z : A) → before x z ≡ true → (before x y ≡ true) ⊎ (before y z ≡ true)) where
    -- What is not before `y` is not before what `y` is not before.
    not_before_trans : (x y z : A) → before z y ≡ false → before y x ≡ false → before z x ≡ false
    not_before_trans x y z p q = elim (Bool-cases (before z x)) [
      | inr r ↦ r
      | inl r ↦ ground (arith, cotrans z y x r)
    ]

    All-not_before :
        (x y : A) (ys : List A)
        → before y x ≡ false
        → All (λ z. before z y ≡ false) ys
        → All (λ z. before z x ≡ false) ys
    All-not_before x y [] q h = tt
    All-not_before x y (z ∷ zs) q h = (not_before_trans x y z h.0 q, All-not_before x y zs q h.1)

    All-insert : (P : A → Type 0) (x : A) (xs : List A) → P x → All P xs → All P (insert x xs)
    unfolding insert
    All-insert P x [] px h = (px, tt)
    All-insert P x (y ∷ ys) px h = elim (Bool-cases (before y x)) [
      | inl e ↦ rw e (h.0, All-insert P x ys px h.1)
      | inr e ↦ rw e (px, h)
    ]

    insert-IsSorted : (x : A) (xs : List A) → IsSorted xs → IsSorted (insert x xs)
    unfolding insert
    insert-IsSorted x [] s = (tt, tt)
    insert-IsSorted x (y ∷ ys) s = elim (Bool-cases (before y x)) [
      | inl e ↦ rw e (All-insert _ x ys (asymm y x e) s.0, insert-IsSorted x ys s.1)
      | inr e ↦ rw e ((e, All-not_before x y ys e s.0), s)
    ]

    pub sort-IsSorted : (xs : List A) → IsSorted (sort xs)
    unfolding sort
    sort-IsSorted [] = tt
    sort-IsSorted (x ∷ xs) = insert-IsSorted x (sort xs) (sort-IsSorted xs)
