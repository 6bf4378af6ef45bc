-- ===== src/Prelude/Lists.antt =====
-- Lists measured by native numbers under the library's names, predicates over lists, search.
use Prim.Native.Nat.{ℕ, zero, suc, ◌+◌, ◌-◌, ◌≤◌}
use mathlib.Core.Path.{◌≡◌, refl, ◌∙◌, ap}
use mathlib.Core.Logic.{◌⊎◌, inl, inr}
use mathlib.Core.Bool.{Bool, true, false, ◌&&◌, ◌||◌}
use mathlib.Core.List.{List, [], ◌∷◌, ◌++◌, append_assoc, map}
use mathlib.Core.Option.{Option, none, some}
use native.Mathlib.Omega.{arith}
use memory_agent.Prelude.Tests.{if◌then◌else◌, Bool-cases}

module _ {ℓ} {A : Type ℓ} where
  abbrev pub length : List A → ℕ
  length [] = 0
  length (x ∷ xs) = suc (length xs)

  abbrev pub get_elem? : List A → ℕ → Option A
  get_elem? [] i = none
  get_elem? (x ∷ xs) zero = some x
  get_elem? (x ∷ xs) (suc i) = get_elem? xs i

  abbrev pub take : ℕ → List A → List A
  take zero xs = []
  take (suc n) [] = []
  take (suc n) (x ∷ xs) = x ∷ take n xs

  abbrev pub drop : ℕ → List A → List A
  drop zero xs = xs
  drop (suc n) [] = []
  drop (suc n) (x ∷ xs) = drop n xs

  -- A comprehension with one condition.
  abbrev pub filter : (A → Bool) → List A → List A
  filter p [] = []
  filter p (x ∷ xs) = if p x then x ∷ filter p xs else filter p xs

  abbrev pub any : (A → Bool) → List A → Bool
  any p [] = false
  any p (x ∷ xs) = p x || any p xs

  abbrev pub all : (A → Bool) → List A → Bool
  all p [] = true
  all p (x ∷ xs) = p x && all p xs

  abbrev pub All {κ} : (A → Type κ) → List A → Type κ
  All P [] = Unit
  All P (x ∷ xs) = P x × All P xs

module _ {ℓ} {A : Type ℓ} where
  pub length-append : (xs ys : List A) → length (xs ++ ys) ≡ length xs + length ys
  length-append [] ys = omega arith
  length-append (x ∷ xs) ys = omega (arith, length-append xs ys)

  pub length-drop : (n : ℕ) (xs : List A) → length (drop n xs) ≡ length xs - n
  length-drop zero xs = omega arith
  length-drop (suc n) [] = omega arith
  length-drop (suc n) (x ∷ xs) = omega (arith, length-drop n xs)

  pub length-take-le : (n : ℕ) (xs : List A) → length (take n xs) ≤ n
  length-take-le zero xs = omega arith
  length-take-le (suc n) [] = omega arith
  length-take-le (suc n) (x ∷ xs) = omega (arith, length-take-le n xs)

  -- Two extensions are one.
  pub append_chain :
      (xs us vs : List A) {ys zs : List A} → ys ≡ xs ++ us → zs ≡ ys ++ vs → zs ≡ xs ++ (us ++ vs)
  append_chain xs us vs p q = q ∙ rw p (append_assoc xs us vs)

  pub get_elem?-append_end :
      (xs : List A) (a : A) (ys : List A) → get_elem? (xs ++ a ∷ ys) (length xs) ≡ some a
  get_elem?-append_end [] a ys = refl
  get_elem?-append_end (x ∷ xs) a ys = get_elem?-append_end xs a ys

  pub get_elem?-append_left :
      (xs ys : List A) (i : ℕ) (a : A) → get_elem? xs i ≡ some a → get_elem? (xs ++ ys) i ≡ some a
  get_elem?-append_left [] ys i a h = cc
  get_elem?-append_left (x ∷ xs) ys zero a h = h
  get_elem?-append_left (x ∷ xs) ys (suc i) a h = get_elem?-append_left xs ys i a h

  pub get_elem?-lt : (xs : List A) (i : ℕ) (a : A) → get_elem? xs i ≡ some a → suc i ≤ length xs
  get_elem?-lt [] i a h = cc
  get_elem?-lt (x ∷ xs) zero a h = omega arith
  get_elem?-lt (x ∷ xs) (suc i) a h = omega (arith, get_elem?-lt xs i a h)

  pub length-map {κ} : {B : Type κ} (f : A → B) (xs : List A) → length (map f xs) ≡ length xs
  length-map f [] = refl
  length-map f (x ∷ xs) = ap suc (length-map f xs)

  -- An element of an extended list is one of the list, or the last.
  pub get_elem?-snoc :
      (xs : List A) (b : A) (i : ℕ) (a : A)
      → get_elem? (xs ++ b ∷ []) i ≡ some a
      → (get_elem? xs i ≡ some a) ⊎ ((i ≡ length xs) × (b ≡ a))
  get_elem?-snoc [] b zero a h = inr (refl, cc)
  get_elem?-snoc [] b (suc i) a h = cc
  get_elem?-snoc (x ∷ xs) b zero a h = inl h
  get_elem?-snoc (x ∷ xs) b (suc i) a h = elim (get_elem?-snoc xs b i a h) [
    | inl e ↦ inl e
    | inr e ↦ inr (ap suc e.0, e.1)
  ]

  -- A list around one of its elements.
  pub take-drop :
      (xs : List A) (i : ℕ) (a : A)
      → get_elem? xs i ≡ some a
      → (xs ≡ take i xs ++ a ∷ drop (suc i) xs) × (length (take i xs) ≡ i)
  take-drop [] i a h = cc
  take-drop (x ∷ xs) zero a h = (cc, refl)
  take-drop (x ∷ xs) (suc i) a h = let e = take-drop xs i a h in (ap (λ ys. x ∷ ys) e.0, ap suc e.1)

module _ {A : Type 0} where
  -- Membership that the tactics take apart.
  abbrev pub In : A → List A → Type 0
  In a [] = ⊥
  In a (x ∷ xs) = (a ≡ x) ⊎ In a xs

  pub In-append_left : (a : A) (xs ys : List A) → In a xs → In a (xs ++ ys)
  In-append_left a [] ys h = absurd h
  In-append_left a (x ∷ xs) ys (inl e) = inl e
  In-append_left a (x ∷ xs) ys (inr h) = inr (In-append_left a xs ys h)

  pub In-append_right : (a : A) (xs ys : List A) → In a ys → In a (xs ++ ys)
  In-append_right a [] ys h = h
  In-append_right a (x ∷ xs) ys h = inr (In-append_right a xs ys h)

  -- An element that was appended stays.
  pub In-grown :
      (a : A) (xs vs : List A) {ys zs : List A} → ys ≡ xs ++ a ∷ [] → zs ≡ ys ++ vs → In a zs
  In-grown a xs vs p q =
      rw (q, p) (In-append_left a (xs ++ a ∷ []) vs (In-append_right a xs (a ∷ []) (inl refl)))

  pub In-append : (a : A) (xs ys : List A) → In a (xs ++ ys) → In a xs ⊎ In a ys
  In-append a [] ys h = inr h
  In-append a (x ∷ xs) ys (inl e) = inl (inl e)
  In-append a (x ∷ xs) ys (inr h) = elim (In-append a xs ys h) [
    | inl l ↦ inl (inr l)
    | inr r ↦ inr r
  ]

  pub In-filter : (p : A → Bool) (a : A) (xs : List A) → In a xs → p a ≡ true → In a (filter p xs)
  In-filter p a [] h t = h
  In-filter p a (x ∷ xs) (inl e) t = let t' : p x ≡ true = rw e at t in rw t' (inl e)
  In-filter p a (x ∷ xs) (inr h) t = elim (Bool-cases (p x)) [
    | inl q ↦ rw q (inr (In-filter p a xs h t))
    | inr q ↦ rw q (In-filter p a xs h t)
  ]

  pub In-filter_inv :
      (p : A → Bool) (a : A) (xs : List A) → In a (filter p xs) → In a xs × (p a ≡ true)
  In-filter_inv p a [] h = absurd h
  In-filter_inv p a (x ∷ xs) h = step (In-filter_inv p a xs) (p x) refl h
    where
      step :
          (In a (filter p xs) → In a xs × (p a ≡ true))
          → (b : Bool) → p x ≡ b
          → In a (if b then x ∷ filter p xs else filter p xs)
          → In a (x ∷ xs) × (p a ≡ true)
      step ih true e (inl q) = (inl q, rw q e)
      step ih true e (inr i) = (inr (ih i).0, (ih i).1)
      step ih false e i = (inr (ih i).0, (ih i).1)

module _ {κ} {A : Type 0} where
  pub All-append :
      (P : A → Type κ) (xs : List A) (ys : List A) → All P xs → All P ys → All P (xs ++ ys)
  All-append P [] ys left right = right
  All-append P (x ∷ xs) ys left right = (left.0, All-append P xs ys left.1 right)

  pub All-split : (P : A → Type κ) (xs ys : List A) → All P (xs ++ ys) → All P xs × All P ys
  All-split P [] ys h = (tt, h)
  All-split P (x ∷ xs) ys h = let r = All-split P xs ys h.1 in ((h.0, r.0), r.1)

  pub All-In : (P : A → Type κ) (xs : List A) {a : A} → All P xs → In a xs → P a
  All-In P [] h i = absurd i
  All-In P (x ∷ xs) h (inl e) = rw e h.0
  All-In P (x ∷ xs) h (inr i) = All-In P xs h.1 i

  pub All-intro : (P : A → Type κ) (xs : List A) → ((a : A) → In a xs → P a) → All P xs
  All-intro P [] h = tt
  All-intro P (x ∷ xs) h = (h x (inl refl), All-intro P xs (λ a i. h a (inr i)))
