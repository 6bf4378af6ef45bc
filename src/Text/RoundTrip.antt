-- ===== src/Text/RoundTrip.antt =====
-- `int(str(n))` is `n`.
use memory_agent.Text.{Text, is_space, lstrip, rstrip, strip}
use memory_agent.Text.Decimal.{
  is_digit, read_digits, show_digits, positive, read_int, show_ℕ, read_signed,
}
use memory_agent.Prelude.{
  ℕ, zero, suc, ◌+◌, ◌-◌, ◌*◌, ◌/◌, ◌%◌, ◌<◌, ◌≡◌, refl, ap, ◌∙◌, inl, inr, Bool, true, ◌∷◌, arith,
  ltb, ltb→lt, Bool-cases, ◌≤◌, false, some, [], eqb, All,
}
use memory_agent.Json.{pos}

is_digit-digit : (k : ℕ) → k < 10 → is_digit (b'0' + k) ≡ true
is_digit-digit k h = ground arith

-- One digit read.
read_digits-digit :
    (acc k : ℕ) (b : Bool) (s : Text)
    → k < 10
    → read_digits acc b ((b'0' + k) ∷ s) ≡ read_digits (acc * 10 + k) true s
unfolding read_digits
read_digits-digit acc k b s h =
    let same : b'0' + k - b'0' ≡ k = omega arith in rw (is_digit-digit k h, same) refl

read_digits-show_digits :
    (fuel n : ℕ) (b : Bool) (s : Text)
    → n < fuel
    → read_digits 0 b (show_digits fuel n s) ≡ read_digits n true s
unfolding show_digits
read_digits-show_digits zero n b s h = let z : ⊥ = omega (arith, h) in absurd z
read_digits-show_digits (suc fuel) n b s h = elim (Bool-cases (ltb n 10)) [
  | inl e ↦ rw e (
      read_digits-digit 0 n b s (ltb→lt n 10 e)
      ∙ ap (λ m. read_digits m true s) (let z : 0 * 10 + n ≡ n = omega arith in z))
  | inr e ↦
      let large : 10 ≤ n = ground (arith, e) in
      let smaller : n / 10 < fuel = omega (arith, large, h) in
      let last : n % 10 < 10 = omega arith in
      let whole : n / 10 * 10 + n % 10 ≡ n = omega arith in
      rw e (
        read_digits-show_digits fuel (n / 10) b ((b'0' + n % 10) ∷ s) smaller
        ∙ read_digits-digit (n / 10) (n % 10) true s last
        ∙ ap (λ m. read_digits m true s) whole)
]

abbrev pub IsDigit : ℕ → Type 0
IsDigit c = (b'0' ≤ c) × (c ≤ b'9')

show_digits-IsDigit : (fuel n : ℕ) (s : Text) → All IsDigit s → All IsDigit (show_digits fuel n s)
unfolding show_digits
show_digits-IsDigit zero n s h = h
show_digits-IsDigit (suc fuel) n s h = elim (Bool-cases (ltb n 10)) [
  | inl e ↦ rw e ((omega arith, (let l = ltb→lt n 10 e in omega (arith, l))), h)
  | inr e ↦ rw e (show_digits-IsDigit fuel (n / 10) _ ((omega arith, omega arith), h))
]

pub show_ℕ-IsDigit : (n : ℕ) → All IsDigit (show_ℕ n)
unfolding show_ℕ
show_ℕ-IsDigit n = show_digits-IsDigit (suc n) n [] tt

is_space-digit : (c : ℕ) → IsDigit c → is_space c ≡ false
unfolding is_space
is_space-digit c h = ground (arith, h.0, h.1)

lstrip-digits : (s : Text) → All IsDigit s → lstrip s ≡ s
unfolding lstrip
lstrip-digits [] h = refl
lstrip-digits (c ∷ s) h = rw (is_space-digit c h.0) refl

rstrip-digits : (s : Text) → All IsDigit s → rstrip s ≡ s
unfolding rstrip
rstrip-digits [] h = refl
rstrip-digits (c ∷ s) h = rw (is_space-digit c h.0, rstrip-digits s h.1) refl

read_signed-digits : (s : Text) → All IsDigit s → read_signed s ≡ positive (read_digits 0 false s)
unfolding read_digits
read_signed-digits [] h = refl
read_signed-digits (c ∷ s) h =
    let minus : eqb c b'-' ≡ false = ground (arith, h.0.0) in
    let plus : eqb c b'+' ≡ false = ground (arith, h.0.0) in rw (minus, plus) refl

-- What `int` reads off the decimal text of a number is the number.
pub read_int-show_ℕ : (n : ℕ) → read_int (show_ℕ n) ≡ some (pos n)
unfolding read_int strip show_ℕ read_digits
read_int-show_ℕ n =
    let digits = show_digits-IsDigit (suc n) n [] tt in
    ap read_signed (
      ap rstrip (lstrip-digits (show_digits (suc n) n []) digits)
      ∙ rstrip-digits (show_digits (suc n) n []) digits)
    ∙ read_signed-digits (show_digits (suc n) n []) digits
    ∙ ap positive (read_digits-show_digits (suc n) n false [] (omega arith) ∙ end n)
  where
    end : (n : ℕ) → read_digits n true [] ≡ some n
    end n = refl
