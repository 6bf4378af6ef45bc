-- ===== src/LocalFs/Lines.antt =====
-- Files of lines: what a line appended is when the file is read by lines.
use memory_agent.Prelude.Dict
use memory_agent.Prelude.Dict.{get-put_self, get-put_ne, Dict}
use memory_agent.Text.{newline, Text, text_eq}
use memory_agent.LocalFs.{append_line, Directory, contents, lines}
use memory_agent.Prelude.{
  ◌≡◌, refl, sym, ap, ◌∙◌, ◌≢◌, none, some, List, [], ◌∷◌, ◌++◌, append_assoc, All, ℕ, false, arith,
  eqb,
}

-- No line end in a text.
abbrev pub IsLine : Text → Type 0
IsLine s = All (λ c. c ≢ newline) s

-- A file to which whole lines were appended: every line is ended.
abbrev pub joined : List Text → Text
joined [] = []
joined (l ∷ ls) = l ++ newline ∷ joined ls

pub eqb-false : (a b : ℕ) → a ≢ b → eqb a b ≡ false
eqb-false a b h = ground arith

pub lines-line : (l s : Text) → IsLine l → lines (l ++ newline ∷ s) ≡ l ∷ lines s
unfolding lines
lines-line [] s h = refl
lines-line (c ∷ l) s h = rw (eqb-false c newline h.0, lines-line l s h.1) refl

pub lines-joined : (ls : List Text) → All IsLine ls → lines (joined ls) ≡ ls
unfolding lines
lines-joined [] h = refl
lines-joined (l ∷ ls) h = lines-line l (joined ls) h.0 ∙ ap (λ xs. l ∷ xs) (lines-joined ls h.1)

pub joined-append : (xs ys : List Text) → joined (xs ++ ys) ≡ joined xs ++ joined ys
joined-append [] ys = refl
joined-append (x ∷ xs) ys =
    rw (joined-append xs ys) (sym (append_assoc x (newline ∷ joined xs) (joined ys)))

-- The file after an append has the line more.
pub append_line-joined :
    (name line : Text) (d : Directory) (ls : List Text)
    → contents name d ≡ joined ls
    → contents name (append_line name line d) ≡ joined (ls ++ line ∷ [])
unfolding append_line
append_line-joined name line d ls h =
    ap (λ o. elim o as (λ _. Text) [ none ↦ [] | some s ↦ s ])
      (get-put_self name (contents name d ++ line ++ newline ∷ []) d)
    ∙ ap (λ s. s ++ line ++ newline ∷ []) h
    ∙ append_assoc (joined ls) line (newline ∷ [])
    ∙ sym (joined-append ls (line ∷ []))

-- Other files keep their contents.
pub append_line_ne :
    (name line other : Text) (d : Directory)
    → name ≢ other
    → Dict.get other (append_line name line d) ≡ Dict.get other d
unfolding append_line
append_line_ne name line other d h = get-put_ne name other _ d h

pub contents-append_line :
    (name line : Text) (d : Directory)
    → contents name (append_line name line d) ≡ contents name d ++ joined (line ∷ [])
unfolding append_line
contents-append_line name line d =
    ap (λ o. elim o as (λ _. Text) [ none ↦ [] | some s ↦ s ])
      (get-put_self name (contents name d ++ line ++ newline ∷ []) d)
    ∙ append_assoc (contents name d) line (newline ∷ [])

pub contents-append_line_ne :
    (name line other : Text) (d : Directory)
    → name ≢ other
    → contents other (append_line name line d) ≡ contents other d
contents-append_line_ne name line other d h =
    ap (λ o. elim o as (λ _. Text) [ none ↦ [] | some s ↦ s ]) (append_line_ne name line other d h)

-- One line more in front of the lines to come.
pub joined_chain :
    (s l : Text) (ls : List Text) {s' s'' : Text}
    → s' ≡ s ++ joined (l ∷ [])
    → s'' ≡ s' ++ joined ls
    → s'' ≡ s ++ joined (l ∷ ls)
joined_chain s l ls p q =
    q
    ∙ ap (λ x. x ++ joined ls) p
    ∙ append_assoc s (joined (l ∷ [])) (joined ls)
    ∙ ap (λ x. s ++ x) (sym (joined-append (l ∷ []) ls))
