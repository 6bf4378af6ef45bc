-- ===== src/Text.antt =====
-- Python's `str` as the list of its code points, with the operations that the program calls.
-- Case mapping is the one of ASCII; white space is the set that `str.strip` removes.
pub mod Decimal
pub mod RoundTrip
pub mod Search
pub mod Insertion
pub mod Returns
use Prim.Native.Char.{code}
use Prim.Native.String.{String}
use memory_agent.Prelude.{
  ℕ, ◌+◌, Bool, true, false, not, ◌&&◌, ◌||◌, List, [], ◌∷◌, ◌++◌, map, leb, eqb, if◌then◌else◌,
  HasEq, list_eq, nat_eq,
}

abbrev pub Text : Type 0
Text = List ℕ

instance abbrev pub text_eq : HasEq Text
text_eq = list_eq

-- A text literal.
abbrev pub codes : String → Text
codes String.[] = []
codes (String.◌∷◌ c s) = code c ∷ codes s

abbrev pub newline : ℕ
newline = 10

-- `bool(s)`
abbrev pub nonempty : Text → Bool
nonempty [] = false
nonempty (c ∷ s) = true

-- `a or b`
abbrev pub or_else : Text → Text → Text
or_else [] b = b
or_else (c ∷ a) b = c ∷ a

unfoldable pub is_space : ℕ → Bool
is_space c =
    (leb 9 c && leb c 13)
    || (leb 28 c && leb c 32)
    || eqb c 0x85
    || eqb c 0xa0
    || eqb c 0x1680
    || (leb 0x2000 c && leb c 0x200a)
    || eqb c 0x2028
    || eqb c 0x2029
    || eqb c 0x202f
    || eqb c 0x205f
    || eqb c 0x3000

unfoldable pub lstrip : Text → Text
unfolding is_space
lstrip [] = []
lstrip (c ∷ s) = if is_space c then lstrip s else c ∷ s

-- A white space character stays only where something else follows it.
unfoldable pub rstrip : Text → Text
unfolding is_space
rstrip [] = []
rstrip (c ∷ s) = let rest = rstrip s in if is_space c && not (nonempty rest) then [] else c ∷ rest

unfoldable pub strip : Text → Text
unfolding lstrip rstrip
strip s = rstrip (lstrip s)

unfoldable pub lower_char : ℕ → ℕ
lower_char c = if leb b'A' c && leb c b'Z' then c + 32 else c

unfoldable pub lower : Text → Text
unfolding lower_char
lower = map lower_char

unfoldable pub starts_with : Text → Text → Bool
starts_with s [] = true
starts_with [] (p ∷ ps) = false
starts_with (c ∷ s) (p ∷ ps) = eqb c p && starts_with s ps

-- `pattern in s`
unfoldable pub contains : Text → Text → Bool
unfolding starts_with
contains [] pat = starts_with [] pat
contains (c ∷ s) pat = starts_with (c ∷ s) pat || contains s pat

-- `s.replace(pattern, replacement, 1)` for a pattern that is not empty.
unfoldable pub drop_prefix : Text → Text → Text
drop_prefix s [] = s
drop_prefix [] (p ∷ ps) = []
drop_prefix (c ∷ s) (p ∷ ps) = drop_prefix s ps

unfoldable pub replace_first : Text → Text → Text → Text
unfolding starts_with drop_prefix
replace_first [] pat new = []
replace_first (c ∷ s) pat new =
    if starts_with (c ∷ s) pat then new ++ drop_prefix (c ∷ s) pat else c ∷ replace_first s pat new
