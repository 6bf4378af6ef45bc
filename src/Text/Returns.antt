-- ===== src/Text/Returns.antt =====
-- Universal newlines: what reading a file in text mode makes of carriage returns.
use memory_agent.Text.{newline, starts_with, replace_first, drop_prefix, Text, lstrip, is_space}
use memory_agent.Prelude.{
  ℕ, ◌≡◌, refl, ap, inl, inr, Bool, true, false, not, ◌&&◌, [], ◌∷◌, ◌++◌, arith, eqb,
  if◌then◌else◌, Bool-cases, all, All, All-append,
}

abbrev pub not_return : ℕ → Bool
not_return c = not (eqb c 13)

abbrev pub HasNoReturn : Text → Type 0
HasNoReturn s = All (λ c. not_return c ≡ true) s

-- The flag tells that the character before was a carriage return.
unfoldable pub translated : Bool → Text → Text
translated after_return [] = []
translated after_return (c ∷ s) =
    let is_return = eqb c 13 in
    let rest = translated is_return s in
    if is_return then newline ∷ rest else if after_return && eqb c newline then rest else c ∷ rest

-- `path.read_text()` of a file with the text: `\r\n` and `\r` become `\n`.
unfoldable pub read_text : Text → Text
unfolding translated
read_text s = translated false s

translated-HasNoReturn : (b : Bool) (s : Text) → HasNoReturn (translated b s)
unfolding translated
translated-HasNoReturn b [] = tt
translated-HasNoReturn b (c ∷ s) =
    let after = translated-HasNoReturn true s in
    let plain = translated-HasNoReturn false s in
    elim (Bool-cases (eqb c 13)) [
      | inl e ↦ rw e (refl, after)
      | inr e ↦ rw e (kept (b && eqb c newline) e plain)
    ]
  where
    kept :
        (k : Bool)
        → eqb c 13 ≡ false
        → HasNoReturn (translated false s)
        → HasNoReturn (if k then translated false s else c ∷ translated false s)
    kept true e h = h
    kept false e h = (ap not e, h)

pub read_text-HasNoReturn : (s : Text) → HasNoReturn (read_text s)
unfolding read_text
read_text-HasNoReturn s = translated-HasNoReturn false s

-- A text without carriage returns is read as it is.
pub read_text_same : (s : Text) → HasNoReturn s → read_text s ≡ s
unfolding read_text translated
read_text_same [] h = refl
read_text_same (c ∷ s) h =
    let e : eqb c 13 ≡ false = ground (arith, h.0) in rw e (ap (λ t. c ∷ t) (read_text_same s h.1))

-- A test for texts without carriage returns.
pub all-HasNoReturn : (s : Text) → all not_return s ≡ true → HasNoReturn s
all-HasNoReturn [] h = tt
all-HasNoReturn (c ∷ s) h = elim (Bool-cases (not_return c)) [
  | inl e ↦ (e, all-HasNoReturn s (rw e at h))
  | inr e ↦ let z = rw e at h in cc
]

drop_prefix-HasNoReturn : (s p : Text) → HasNoReturn s → HasNoReturn (drop_prefix s p)
unfolding drop_prefix
drop_prefix-HasNoReturn [] [] h = h
drop_prefix-HasNoReturn (c ∷ s) [] h = h
drop_prefix-HasNoReturn [] (p ∷ ps) h = h
drop_prefix-HasNoReturn (c ∷ s) (p ∷ ps) h = drop_prefix-HasNoReturn s ps h.1

pub replace_first-HasNoReturn :
    (s p new : Text) → HasNoReturn s → HasNoReturn new → HasNoReturn (replace_first s p new)
unfolding replace_first
replace_first-HasNoReturn [] p new h k = h
replace_first-HasNoReturn (c ∷ s) p new h k =
    step (starts_with (c ∷ s) p) (replace_first-HasNoReturn s p new h.1 k)
  where
    step :
        (b : Bool)
        → HasNoReturn (replace_first s p new)
        → HasNoReturn (if b then new ++ drop_prefix (c ∷ s) p else c ∷ replace_first s p new)
    step true ih = All-append _ new _ k (drop_prefix-HasNoReturn (c ∷ s) p h)
    step false ih = (h.0, ih)

pub lstrip-HasNoReturn : (s : Text) → HasNoReturn s → HasNoReturn (lstrip s)
unfolding lstrip
lstrip-HasNoReturn [] h = h
lstrip-HasNoReturn (c ∷ s) h = step (is_space c) (lstrip-HasNoReturn s h.1)
  where
    step : (b : Bool) → HasNoReturn (lstrip s) → HasNoReturn (if b then lstrip s else c ∷ s)
    step true ih = ih
    step false ih = h
