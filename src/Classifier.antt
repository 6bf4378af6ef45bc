-- ===== src/Classifier.antt =====
-- src/mnema/core/classifier.py: which utterances are durable claims. The regular expressions are
-- data of a small matcher that backtracks as `re` does; word characters and case are ASCII's.
pub mod Pieces
pub mod Occurs
pub mod Search
pub mod Durable
use memory_agent.Prelude.{
  ℕ, Bool, true, false, not, ◌&&◌, ◌||◌, Option, none, some, List, [], ◌∷◌, ◌++◌, map, leb, eqb,
  if◌then◌else◌, ◌==◌, any,
}
use memory_agent.Text.{Text, codes, is_space, contains, lower_char, text_eq}

-- `one p` is a character that passes `p`, `many p` one or more of them.
pub data Piece : Type 0 where
  one many : (ℕ → Bool) → Piece

-- Where a match stands: the character before it, if any, and the text after it.
abbrev pub Place : Type 0
Place = Option ℕ × Text

abbrev pub is_word : ℕ → Bool
is_word c =
    (leb b'a' c && leb c b'z')
    || (leb b'A' c && leb c b'Z')
    || (leb b'0' c && leb c b'9')
    || eqb c b'_'

abbrev pub word_before : Option ℕ → Bool
word_before none = false
word_before (some c) = is_word c

abbrev pub word_after : Text → Bool
word_after [] = false
word_after (c ∷ s) = is_word c

-- `\b`
abbrev pub at_boundary : Place → Bool
at_boundary p = if word_before p.0 then not (word_after p.1) else word_after p.1

-- A literal under `(?i)`.
abbrev pub literal : Text → List Piece
literal [] = []
literal (c ∷ s) = one (λ d. eqb (lower_char d) (lower_char c)) ∷ literal s

-- `\s+`
abbrev pub spaces : Piece
spaces = many is_space

-- The text itself after every number of further characters that pass.
unfoldable pub after_many : (ℕ → Bool) → ℕ → Text → List Place
after_many p last [] = (some last, []) ∷ []
after_many p last (c ∷ s) =
    let more = after_many p c s in
    let here : List Place = (some last, c ∷ s) ∷ [] in if p c then more ++ here else here

unfoldable pub after_piece : Piece → Place → List Place
unfolding after_many
after_piece (one p) (before, []) = []
after_piece (one p) (before, c ∷ s) = if p c then (some c, s) ∷ [] else []
after_piece (many p) (before, []) = []
after_piece (many p) (before, c ∷ s) = if p c then after_many p c s else []

abbrev pub each : {A B : Type 0} → (A → List B) → List A → List B
each f [] = []
each f (x ∷ xs) = f x ++ each f xs

-- All the ways in which the pieces match at a place, the greedy one first.
unfoldable pub after_pieces : List Piece → Place → List Place
unfolding after_piece
after_pieces [] p = p ∷ []
after_pieces (x ∷ xs) p = each (after_pieces xs) (after_piece x p)

-- `\b(?:…|…)\b` at a place.
abbrev pub matches_at : List (List Piece) → Place → Bool
matches_at alternatives p =
    at_boundary p && any at_boundary (each (λ xs. after_pieces xs p) alternatives)

-- `pattern.search(text)`
unfoldable pub search_from : List (List Piece) → Option ℕ → Text → Bool
unfolding after_pieces
search_from alternatives before [] = matches_at alternatives (before, [])
search_from alternatives before (c ∷ s) =
    matches_at alternatives (before, c ∷ s) || search_from alternatives (some c) s

abbrev pub i_then : List Piece → List Piece
i_then rest = literal (codes "i") ++ spaces ∷ rest

-- `_FIRST_PERSON_STATIVE`
abbrev pub first_person_stative : List (List Piece)
first_person_stative = map i_then (
    map literal (
      codes "am"
      ∷ codes "was"
      ∷ codes "have"
      ∷ codes "hate"
      ∷ codes "love"
      ∷ codes "like"
      ∷ codes "prefer"
      ∷ codes "enjoy"
      ∷ codes "need"
      ∷ codes "want"
      ∷ codes "eat"
      ∷ codes "drink"
      ∷ codes "avoid"
      ∷ codes "dislike"
      ∷ [])
    ++ (literal (codes "am") ++ spaces ∷ literal (codes "allergic"))
      ∷ (literal (codes "am") ++ spaces ∷ literal (codes "intolerant"))
      ∷ map literal (
          codes "follow"
          ∷ codes "practice"
          ∷ codes "believe"
          ∷ codes "think"
          ∷ codes "know"
          ∷ codes "own"
          ∷ codes "always"
          ∷ codes "never"
          ∷ codes "usually"
          ∷ codes "often"
          ∷ [])
    ++ (literal (codes "batch") ++ one (λ c. eqb c b'-' || is_space c) ∷ literal (codes "cook"))
      ∷ [])

-- `_MODAL_HYPOTHETICAL`
abbrev pub modal_hypothetical : List (List Piece)
modal_hypothetical =
    literal (codes "would")
    ∷ literal (codes "could")
    ∷ literal (codes "might")
    ∷ literal (codes "may")
    ∷ (literal (codes "should") ++ spaces ∷ literal (codes "i"))
    ∷ (literal (codes "can") ++ spaces ∷ literal (codes "i"))
    ∷ (literal (codes "do") ++ spaces ∷ literal (codes "you"))
    ∷ (literal (codes "what") ++ spaces ∷ literal (codes "if"))
    ∷ (literal (codes "if") ++ spaces ∷ literal (codes "i"))
    ∷ []

-- `type_hint in ("fact", "preference", "procedure")`
abbrev pub is_durable_hint : Option Text → Bool
is_durable_hint none = false
is_durable_hint (some h) = h == codes "fact" || h == codes "preference" || h == codes "procedure"

unfoldable pub looks_like_durable_claim : Text → Option Text → Bool → Bool
unfolding search_from contains
looks_like_durable_claim text type_hint durable =
    if durable
    then true
    else if is_durable_hint type_hint
    then true
    else if contains text (codes "?")
    then false
    else if search_from modal_hypothetical none text
    then false
    else search_from first_person_stative none text
