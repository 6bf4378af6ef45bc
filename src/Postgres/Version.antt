-- ===== src/Postgres/Version.antt =====
-- src/mnema/adapters/vector_store/postgres_t1.py: the least version of pgvector.
use memory_agent.Action.{return, Action, throw, runtime_error, done, raised}
use memory_agent.Json.{ℤ, pos, negsuc}
use memory_agent.Text.{Text}
use memory_agent.LocalFs.{push_char}
use memory_agent.LocalFs.Lines.{eqb-false}
use memory_agent.Text.RoundTrip.{read_int-show_ℕ, IsDigit, show_ℕ-IsDigit}
use memory_agent.Text.Decimal.{read_int, show_ℕ}
use memory_agent.Prelude.{
  ℕ, ◌≤◌, ◌<◌, ◌≡◌, refl, ap, ◌∙◌, ◌≢◌, ◌↔◌, ◌⊎◌, Bool, true, false, Option, none, some, List, [],
  ◌∷◌, ◌++◌, arith, ltb, eqb, if◌then◌else◌, take, All, inl, inr, Bool-cases,
}

-- `s.split(".")`
unfoldable pub split_dots : Text → List Text
split_dots [] = [] ∷ []
split_dots (c ∷ s) = if eqb c b'.' then [] ∷ split_dots s else push_char c (split_dots s)

-- `tuple(int(x) for x in xs)`, `none` where an `int` raises.
unfoldable pub ints : List Text → Option (List ℤ)
unfolding read_int
ints [] = some []
ints (x ∷ xs) = elim (read_int x) [
  | none ↦ none
  | some n ↦ elim (ints xs) [ none ↦ none | some ns ↦ some (n ∷ ns) ]
]

abbrev pub lt_ℤ : ℤ → ℤ → Bool
lt_ℤ (pos a) (pos b) = ltb a b
lt_ℤ (pos a) (negsuc b) = false
lt_ℤ (negsuc a) (pos b) = true
lt_ℤ (negsuc a) (negsuc b) = ltb b a

-- `<` of tuples: the first difference decides, and a prefix is less.
unfoldable pub tuple_lt : List ℤ → List ℤ → Bool
tuple_lt [] [] = false
tuple_lt [] (y ∷ ys) = true
tuple_lt (x ∷ xs) [] = false
tuple_lt (x ∷ xs) (y ∷ ys) = if lt_ℤ x y then true else if lt_ℤ y x then false else tuple_lt xs ys

-- `_MIN_PGVECTOR_VERSION`
abbrev pub min_pgvector_version : List ℤ
min_pgvector_version = pos 0 ∷ pos 8 ∷ pos 2 ∷ []

module _ {S : Type 0} where
  abbrev at_least_min : Option (List ℤ) → Action S (Unit {0})
  at_least_min none = throw runtime_error
  at_least_min (some version) =
      if tuple_lt version min_pgvector_version then throw runtime_error else return tt

  -- The argument is the `extversion` of the extension, if it is installed.
  unfoldable pub check_pgvector_version : Option Text → Action S (Unit {0})
  unfolding split_dots ints tuple_lt
  check_pgvector_version none = throw runtime_error
  check_pgvector_version (some version) = at_least_min (ints (take 3 (split_dots version)))

-- The parts of a version text are its numbers.
abbrev HasNoDot : Text → Type 0
HasNoDot t = All (λ c. c ≢ b'.') t

digits-HasNoDot : (t : Text) → All IsDigit t → HasNoDot t
digits-HasNoDot [] h = tt
digits-HasNoDot (c ∷ t) h = (no_dot h.0, digits-HasNoDot t h.1)
  where
    no_dot : IsDigit c → c ≢ b'.'
    no_dot d = let l = d.0 in λ e. omega (arith, l, e)

split_dots-whole : (t : Text) → HasNoDot t → split_dots t ≡ t ∷ []
unfolding split_dots
split_dots-whole [] h = refl
split_dots-whole (c ∷ t) h = rw (eqb-false c b'.' h.0, split_dots-whole t h.1) refl

split_dots-part : (t s : Text) → HasNoDot t → split_dots (t ++ (b'.' ∷ s)) ≡ t ∷ split_dots s
unfolding split_dots
split_dots-part [] s h = refl
split_dots-part (c ∷ t) s h = rw (eqb-false c b'.' h.0, split_dots-part t s h.1) refl

number-HasNoDot : (n : ℕ) → HasNoDot (show_ℕ n)
number-HasNoDot n = digits-HasNoDot (show_ℕ n) (show_ℕ-IsDigit n)

abbrev pub version_text : ℕ → ℕ → ℕ → Text
version_text a b c = show_ℕ a ++ (b'.' ∷ (show_ℕ b ++ (b'.' ∷ show_ℕ c)))

version_text-parts :
    (a b c : ℕ) → take 3 (split_dots (version_text a b c)) ≡ show_ℕ a ∷ show_ℕ b ∷ show_ℕ c ∷ []
version_text-parts a b c = ap (take 3) (
    split_dots-part (show_ℕ a) _ (number-HasNoDot a)
    ∙ ap (λ xs. show_ℕ a ∷ xs)
        (split_dots-part (show_ℕ b) (show_ℕ c) (number-HasNoDot b)
          ∙ ap (λ xs. show_ℕ b ∷ xs) (split_dots-whole (show_ℕ c) (number-HasNoDot c))))

ints-cons :
    (x : Text) (n : ℤ) (xs : List Text) (ns : List ℤ)
    → read_int x ≡ some n
    → ints xs ≡ some ns
    → ints (x ∷ xs) ≡ some (n ∷ ns)
unfolding ints
ints-cons x n xs ns e f =
    ap
      (λ o. elim o as (λ _. Option (List ℤ)) [
        | none ↦ none
        | some m ↦ elim (ints xs) as (λ _. Option (List ℤ)) [
          | none ↦ none
          | some ms ↦ some (m ∷ ms)
        ]
      ])
      e
    ∙ ap (λ o. elim o as (λ _. Option (List ℤ)) [ none ↦ none | some ms ↦ some (n ∷ ms) ]) f

ints-nil : ints [] ≡ some []
unfolding ints
ints-nil = refl

ints-numbers :
    (a b c : ℕ) → ints (show_ℕ a ∷ show_ℕ b ∷ show_ℕ c ∷ []) ≡ some (pos a ∷ pos b ∷ pos c ∷ [])
ints-numbers a b c =
    ints-cons _ _ _ _ (read_int-show_ℕ a)
      (ints-cons _ _ _ _ (read_int-show_ℕ b) (ints-cons _ _ _ _ (read_int-show_ℕ c) ints-nil))

abbrev pub IsAtLeast : ℕ → ℕ → ℕ → Type 0
IsAtLeast a b c = (0 < a) ⊎ ((8 < b) ⊎ ((b ≡ 8) × (2 ≤ c)))

tuple_lt-min :
    (a b c : ℕ)
    → (tuple_lt (pos a ∷ pos b ∷ pos c ∷ []) min_pgvector_version ≡ false) ↔ IsAtLeast a b c
unfolding tuple_lt
tuple_lt-min a b c = ground arith

module _ {S : Type 0} where
  -- The check of the version `a.b.c` returns exactly where it is at least 0.8.2, and raises
  -- RuntimeError for every other version.
  pub check_pgvector_version-numbers :
      (a b c : ℕ) (s : S)
      → (IsAtLeast a b c → check_pgvector_version (some (version_text a b c)) s ≡ done tt s)
        × (¬ IsAtLeast a b c
            → check_pgvector_version (some (version_text a b c)) s ≡ raised runtime_error s)
  unfolding check_pgvector_version
  check_pgvector_version-numbers a b c s =
      let parsed : check_pgvector_version (some (version_text a b c)) s
          ≡ at_least_min (some (pos a ∷ pos b ∷ pos c ∷ [])) s =
        ap (λ o. at_least_min o s) (ap ints (version_text-parts a b c) ∙ ints-numbers a b c) in
      elim (Bool-cases (tuple_lt (pos a ∷ pos b ∷ pos c ∷ []) min_pgvector_version)) [
        | inl e ↦ (λ h. absurd (no h e), λ h. parsed ∙ rw e refl)
        | inr e ↦ (λ h. parsed ∙ rw e refl, λ h. absurd (h ((tuple_lt-min a b c).0 e)))
      ]
    where
      no : IsAtLeast a b c → ¬ (tuple_lt (pos a ∷ pos b ∷ pos c ∷ []) min_pgvector_version ≡ true)
      no h e = let f = (tuple_lt-min a b c).1 h in cc
