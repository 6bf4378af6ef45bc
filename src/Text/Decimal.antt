-- ===== src/Text/Decimal.antt =====
-- `str(n)` of a number and `int(s)` of a text (with ASCII digits).
use memory_agent.Json.{ℤ, pos, negsuc}
use memory_agent.Prelude.{
  ℕ, zero, suc, ◌+◌, ◌-◌, ◌*◌, ◌/◌, ◌%◌, Bool, true, false, ◌&&◌, Option, none, some, [], ◌∷◌, ltb,
  leb, eqb, if◌then◌else◌,
}
use memory_agent.Text.{Text, strip}

abbrev pub is_digit : ℕ → Bool
is_digit c = leb b'0' c && leb c b'9'

-- The digits of `n` in front of `acc`; `fuel` is at least the number of digits.
unfoldable pub show_digits : ℕ → ℕ → Text → Text
show_digits zero n acc = acc
show_digits (suc fuel) n acc =
    let rest = show_digits fuel (n / 10) ((b'0' + n % 10) ∷ acc) in
    if ltb n 10 then (b'0' + n) ∷ acc else rest

unfoldable pub show_ℕ : ℕ → Text
unfolding show_digits
show_ℕ n = show_digits (suc n) n []

-- Digits, with a `_` allowed between two of them. `after_digit` says what came before.
unfoldable pub read_digits : ℕ → Bool → Text → Option ℕ
read_digits acc after_digit [] = if after_digit then some acc else none
read_digits acc after_digit (c ∷ s) =
    let more = read_digits (acc * 10 + (c - b'0')) true s in
    let skip = read_digits acc false s in
    if is_digit c then more else if eqb c b'_' && after_digit then skip else none

abbrev pub negate : Option ℕ → Option ℤ
negate none = none
negate (some zero) = some (pos 0)
negate (some (suc n)) = some (negsuc n)

abbrev pub positive : Option ℕ → Option ℤ
positive none = none
positive (some n) = some (pos n)

abbrev pub read_signed : Text → Option ℤ
read_signed [] = none
read_signed (c ∷ s) =
    if eqb c b'-'
    then negate (read_digits 0 false s)
    else if eqb c b'+'
    then positive (read_digits 0 false s)
    else positive (read_digits 0 false (c ∷ s))

-- `int(s)`, `none` where it raises ValueError.
unfoldable pub read_int : Text → Option ℤ
unfolding strip read_digits
read_int s = read_signed (strip s)
